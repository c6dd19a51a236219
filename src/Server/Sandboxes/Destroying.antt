-- ===== src/Server/Sandboxes/Destroying.antt =====
-- internal/server/server.go: what destroying a sandbox releases, on every path.
use web_sandbox.Registry.Lifecycle.{Destroyed, destroy-Destroyed}
use web_sandbox.Registry.Engine.{find_sandbox, Conn}
use web_sandbox.Registry.Engine.Rules.{tick, IsUnreadable, query-Ends_causes}
use web_sandbox.Registry.Ops.{get, ports, ports_of, destroy}
use web_sandbox.Registry.Pools.{Error}
use web_sandbox.Registry.Types.{PortMapping, Sandbox, SandboxRow, scan_sandbox}
use web_sandbox.Server.Host.Tracks.{Releases}
use web_sandbox.Server.Host.Rules.{registry-Ends}
use web_sandbox.Server.Host.{Host, Settings, release, remove_port_forward_to, registry}
use web_sandbox.Server.Sandboxes.{
  remove_extra, remove_port_forward, stop_tracked, tear_down, read_ports, destroy_sandbox,
}
use web_sandbox.Server.Sandboxes.Tracking.{torn_down, tear_down-Releases}
use web_sandbox.Common.{
  ℕ, Bool-cases, List, String, [], ap, subst, contains, false, inl, inr, refl, ◌==◌, ◌∙◌, ◌∷◌, ◌≡◌,
  ◌⊎◌, Ends, Ends-bind, Ends-ok, Result, err, ok, some, filter, not, arith, Eq-String, EndsAt,
  eq_iff, true,
}
use web_sandbox.Registry.Ops.Reads.{get-Ends_causes}

pub remove_extra-conn :
    (ip : String) (extra : List PortMapping) (s : Host)
    → ((remove_extra ip extra s).conn ≡ s.conn) × ((remove_extra ip extra s).machines ≡ s.machines)
unfolding remove_extra remove_port_forward_to release
remove_extra-conn ip [] s = (refl, refl)
remove_extra-conn ip (pm ∷ pms) s = remove_extra-conn ip pms _

contains-without :
    (id : String) (ids : List String) → contains (filter (λ i. not (i == id)) ids) id ≡ false
unfolding contains filter
contains-without id [] = refl
contains-without id (i ∷ ids) = ground (arith, contains-without id ids)

contains-without_other :
    (id other : String) (ids : List String)
    → (other == id) ≡ false
    → contains (filter (λ i. not (i == id)) ids) other ≡ contains ids other
unfolding contains filter
contains-without_other id other [] n = refl
contains-without_other id other (i ∷ ids) n =
    ground
      (arith, eq_iff i id, eq_iff i other, eq_iff other id, contains-without_other id other ids n)

-- The table of machines has the others as before.
abbrev pub OthersTracked : String → Host → Host → Type 0
OthersTracked id before s =
    (other : String)
    → (other == id) ≡ false
    → contains s.machines other ≡ contains before.machines other

stop_tracked-conn :
    (id : String) (s : Host)
    → ((stop_tracked id s).conn ≡ s.conn)
      × (contains (stop_tracked id s).machines id ≡ false)
      × OthersTracked id s (stop_tracked id s)
unfolding stop_tracked release
stop_tracked-conn id s = elim (Bool-cases (contains s.machines id)) [
  | inl tracked ↦ rw tracked (
    refl,
    contains-without id s.machines,
    λ other n. contains-without_other id other s.machines n,
  )
  | inr untracked ↦ rw untracked (refl, untracked, λ other n. refl)
]

pub tear_down-conn :
    (cfg : Settings) (id : String) (sb : Sandbox) (extra : List PortMapping) (s : Host)
    → ((tear_down cfg id sb extra s).conn ≡ s.conn)
      × (contains (tear_down cfg id sb extra s).machines id ≡ false)
      × OthersTracked id s (tear_down cfg id sb extra s)
unfolding tear_down remove_port_forward remove_port_forward_to release
tear_down-conn cfg id sb extra s =
    let e = remove_extra-conn sb.guest_ip extra (stop_tracked id s) in
    let t = stop_tracked-conn id s in
    (
      e.0 ∙ t.0,
      ap (λ l. contains l id) e.1 ∙ t.1,
      λ other n. ap (λ l. contains l other) e.1 ∙ t.2 other n,
    )

-- What listing the ports gave: the mappings of the sandbox, or nothing, and that only if the call of the
-- driver failed that was to read them.
abbrev pub IsListed : String → Conn → List PortMapping → Type 0
IsListed id c extra = (extra ≡ ports_of id c.db) ⊎ ((extra ≡ []) × (c.fails c.calls ≡ true))

-- The row of the sandbox was read, and then exactly what belongs to it was released: its disk, its
-- tap, the rules of its port, the rules of its extra ports unless the driver failed to read them, and its
-- process if the table of machines had it. The table does not have it any more, and the others as before.
pub record TornDown (cfg : Settings) (id : String) (before s : Host) : Type 0 where
  pub row : SandboxRow
  pub found : find_sandbox id before.conn.db ≡ some row
  pub extra : List PortMapping
  pub listed : IsListed id (tick before.conn) extra
  pub releases :
      Releases (torn_down cfg id (scan_sandbox row) extra (contains before.machines id)) before s
  pub untracked : contains s.machines id ≡ false
  pub others_tracked : OthersTracked id before s

read_ports-Ends :
    (id : String) (s : Host) {Q : List PortMapping → Host → Type 0} {R : ℕ → Host → Type 0}
    → ((ms : List PortMapping) (c : Conn)
        → IsListed id s.conn ms
        → c.db ≡ s.conn.db
        → Q ms (record s { conn = c }))
    → Ends Q R (read_ports id s)
unfolding read_ports ports
read_ports-Ends id s {Q} {R} q =
    let read : Ends (λ ms c. (ms ≡ ports_of id s.conn.db) × (c.db ≡ s.conn.db))
        (λ e c. (s.conn.fails s.conn.calls ≡ true) × (c.db ≡ s.conn.db)) (ports id s.conn) =
      query-Ends_causes (ports_of id) s.conn (refl, refl) (λ bad. (bad, refl)) in
    go (ports id s.conn).0 (ports id s.conn).1 read.at
  where
    go :
        (r : Result Error (List PortMapping)) (c : Conn)
        → EndsAt
            (λ ms c'. (ms ≡ ports_of id s.conn.db) × (c'.db ≡ s.conn.db))
            (λ e c'. (s.conn.fails s.conn.calls ≡ true) × (c'.db ≡ s.conn.db))
            (r, c)
        → Ends Q R (ok (elim r [ ok ms ↦ ms | err e ↦ [] ]), record s { conn = c })
    go (ok ms) c h = Ends-ok _ _ (q ms c (inl h.0) h.1)
    go (err e) c h = Ends-ok _ _ (q [] c (inr (refl, h.0)) h.1)

-- `c` is the connection once the row and the ports have been read, and `d` the one at the end.
tear_down-TornDown :
    (cfg : Settings) (id : String) (r : SandboxRow) (sb : Sandbox) (extra : List PortMapping)
    (s : Host) (c d : Conn)
    → find_sandbox id s.conn.db ≡ some r
    → sb ≡ scan_sandbox r
    → IsListed id (tick s.conn) extra
    → TornDown cfg id s (record (tear_down cfg id sb extra (record s { conn = c })) { conn = d })
tear_down-TornDown cfg id r sb extra s c d found e listed = record {
  row = r;
  found = found;
  extra = extra;
  listed = listed;
  releases =
      subst
        (λ b.
          Releases (torn_down cfg id b extra (contains s.machines id)) s
            (record (tear_down cfg id sb extra (record s { conn = c })) { conn = d }))
        e (record { left = (tear_down-Releases cfg id sb extra (record s { conn = c })).left });
  untracked = (tear_down-conn cfg id sb extra (record s { conn = c })).1;
  others_tracked = (tear_down-conn cfg id sb extra (record s { conn = c })).2;
}

-- Destroying a sandbox either cannot read its row, because the driver fails or there is none, and then
-- everything that is held and the table of machines are as they were; or it calls the release of exactly
-- what belongs to the sandbox, also when the row cannot be deleted in the end: its disk, its tap, its
-- process if the table of machines has it, the rules of its port, and those of all its extra ports
-- unless the driver fails to read these. When it succeeds, the row and its port mappings are gone, and
-- those of the others are as they were; when it fails, the tables of the registry are as they were. What
-- is released counts as freed, whether or not the call that frees it fails.
pub destroy_sandbox-TornDown :
    (cfg : Settings) (id : String) (s : Host)
    → Ends
        (λ _ s'. TornDown cfg id s s' × Destroyed id s.conn.db s'.conn.db)
        (λ e s'.
          (s'.conn.db ≡ s.conn.db)
          × (((s'.held ≡ s.held)
                × (s'.machines ≡ s.machines)
                × IsUnreadable id s.conn
                × (s'.conn ≡ tick s.conn))
              ⊎ TornDown cfg id s s'))
        (destroy_sandbox cfg id s)
unfolding destroy_sandbox
destroy_sandbox-TornDown cfg id s = Ends-bind (registry 500 (get id)) _ s (
    registry-Ends _ _ 500 (get id) s (get-Ends_causes id s.conn)
      (λ sb c h.
        let s₁ : Host = record s { conn = c } in
        let was : c.db ≡ s.conn.db = ap (λ k. k.db) h.3 in
        Ends-bind (read_ports id)
          (λ extra s'. registry 500 (destroy id) (tear_down cfg id sb extra s')) s₁
          (read_ports-Ends id s₁ (λ ms c' listed same.
            let s₂ : Host = tear_down cfg id sb ms (record s { conn = c' }) in
            let torn : (d : Conn) → TornDown cfg id s (record s₂ { conn = d }) = λ d.
              tear_down-TornDown cfg id h.0 sb ms s c' d h.1 h.2
                (subst (λ k. IsListed id k ms) h.3 listed) in
            let kept : s₂.conn.db ≡ s.conn.db =
              ap (λ k. k.db) (tear_down-conn cfg id sb ms (record s { conn = c' })).0
              ∙ same
              ∙ was in
            registry-Ends _ _ 500 (destroy id) s₂ (destroy-Destroyed id s₂.conn)
              (λ _ d k. (torn d, subst (λ b. Destroyed id b d.db) kept k))
              (λ e d k. (k ∙ kept, inr (torn d))))))
      (λ e c h. (ap (λ k. k.db) h.1, inl (refl, refl, h.0, h.1))))
