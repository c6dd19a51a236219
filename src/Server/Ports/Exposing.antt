-- ===== src/Server/Ports/Exposing.antt =====
-- internal/server/ports.go: what exposing a port has done, on every path.
use web_sandbox.Registry.Types.{Sandbox, PortMapping, Pools, PortRow, SandboxRow, scan_sandbox}
use web_sandbox.Registry.Engine.Rules.{LastCallFailed}
use web_sandbox.Registry.Engine.{
  call, exec, delete_port_row, Db, Conn, find_sandbox, find_port, has_port,
}
use web_sandbox.Registry.Ops.{get, ports, add_port, delete_port, port_mapping, ports_of}
use web_sandbox.Registry.Ops.Reads.{get-finds, ports-finds}
use web_sandbox.Registry.Invariant.{IsConsistent}
use web_sandbox.Registry.Lifecycle.{IsMapped, add_port-IsMapped}
use web_sandbox.Registry.History.{after_call-IsConsistent, after_call, adds_port, deletes_port}
use web_sandbox.Server.Timeouts.{or_status, or_status-Ends}
use web_sandbox.Common.{
  ℕ, Bool, Ends, Ends-err, Ends-ok, List, Option, String, false, find, ltb, none, refl, some, true,
  ◌==◌, ◌||◌, ◌∷◌, ◌≡◌, ◌≢◌, ◌≤◌, ◌⊎◌, ℤ, Eq-ℕ, negsuc, pos, Bool-cases, Ends-bind, Ends-mono, [],
  ap, arith, inl, inr, nat_eq_iff, sym, ◌∙◌, All, All-find, All-sort_by, eq_iff, filter, map, subst,
  Eq-String, not,
}
use web_sandbox.Server.Ports.{handle_expose_port, expose_port, expose_extra, forward_or_undo}

add_port-keeps :
    (pools : Pools) (id : String) (p : ℕ) (c : Conn)
    → IsConsistent c.db
    → IsConsistent (add_port pools id p c).1.db
unfolding after_call
add_port-keeps pools id p c v = after_call-IsConsistent pools (adds_port id p) c v

delete_port-keeps :
    (pools : Pools) (id : String) (p : ℕ) (c : Conn)
    → IsConsistent c.db
    → IsConsistent (delete_port id p c).1.db
unfolding after_call
delete_port-keeps pools id p c v = after_call-IsConsistent pools (deletes_port id p) c v

-- A mapping that is not kept is not in the table, unless the call of the driver failed that was to take
-- it out.
abbrev pub IsUndone : String → ℕ → Conn → Type 0
IsUndone id p c = (find_port id p c.db ≡ none) ⊎ LastCallFailed c

find_port-filter_same :
    (id : String) (p : ℕ) (ms : List PortRow)
    → find (has_port id p) (filter (λ m. not (has_port id p m)) ms) ≡ none
unfolding find filter
find_port-filter_same id p [] = refl
find_port-filter_same id p (m ∷ ms) = elim (Bool-cases (has_port id p m)) [
  | inl hit ↦ rw hit (find_port-filter_same id p ms)
  | inr miss ↦ rw (miss, miss) (find_port-filter_same id p ms)
]

delete_port-IsUndone : (id : String) (p : ℕ) (c : Conn) → IsUndone id p (delete_port id p c).1
unfolding delete_port exec call delete_port_row find_port
delete_port-IsUndone id p c = elim (Bool-cases (c.fails c.calls)) [
  | inl bad ↦ rw bad (inr (c.calls, refl, bad))
  | inr good ↦ rw good (inl (find_port-filter_same id p c.db.ports))
]

forward_or_undo-Ends :
    (pools : Pools) (b : Bool) (id : String) (p port : ℕ) (c : Conn)
    → IsConsistent c.db
    → IsMapped id p port c.db
    → Ends
        (λ pm c'.
          IsConsistent c'.db
          × (pm.guest_port ≡ p)
          × IsMapped id p pm.host_port c'.db
          × (b ≡ true)
          × (pm.host_port ≡ port))
        (λ e c'. IsConsistent c'.db × IsUndone id p c')
        (forward_or_undo b id p port c)
unfolding forward_or_undo
forward_or_undo-Ends pools true id p port c v m = Ends-ok _ _ (v, refl, m, refl, refl)
forward_or_undo-Ends pools false id p port c v m =
    Ends-err _ _ (delete_port-keeps pools id p c v, delete_port-IsUndone id p c)

find-true {ℓ} :
    {A : Type ℓ} (hit : A → Bool) (xs : List A) (x : A) → find hit xs ≡ some x → hit x ≡ true
unfolding find
find-true hit [] x h = cc
find-true hit (y ∷ ys) x h = elim (Bool-cases (hit y)) [
  | inl yes_ ↦ let same : y ≡ x = ground arith in ap hit (sym same) ∙ yes_
  | inr no_ ↦ find-true hit ys x (ground arith)
]

-- A row of the table.
abbrev pub IsRow : PortRow → List PortRow → Type 0
IsRow m [] = ⊥
IsRow m (r ∷ rs) = (r ≡ m) ⊎ IsRow m rs

-- The mapping of a guest port of a sandbox to a host port stands in the table.
abbrev pub IsExposed : String → ℕ → ℕ → Db → Type 0
IsExposed id p port db =
    (m : PortRow) × IsRow m db.ports
    × (m.sandbox_id ≡ id)
    × (m.guest_port ≡ p)
    × (m.host_port ≡ port)

-- The host port of the sandbox's row.
abbrev pub IsPrimary : String → ℕ → Db → Type 0
IsPrimary id port db = (r : SandboxRow) × (find_sandbox id db ≡ some r) × (port ≡ r.host_port)

-- The forwarding from the host port to the guest port, at the address of the sandbox's row, succeeded.
abbrev pub IsForwarded : (ℕ → String → ℕ → Bool) → String → ℕ → ℕ → Db → Type 0
IsForwarded forwards id p port db =
    (r : SandboxRow) × (find_sandbox id db ≡ some r) × (forwards port r.guest_ip p ≡ true)

mappings-All :
    (id : String) (db : Db) (rows : List PortRow)
    → ((m : PortRow) → IsRow m rows → IsRow m db.ports)
    → All
        (λ pm. IsExposed id pm.guest_port pm.host_port db)
        (map port_mapping (filter (λ m. m.sandbox_id == id) rows))
unfolding filter
mappings-All id db [] k = tt
mappings-All id db (r ∷ rs) k =
    let rest = mappings-All id db rs (λ m h. k m (inr h)) in
    elim (Bool-cases (r.sandbox_id == id)) [
      | inl own ↦ rw own ((r, k r (inl refl), (eq_iff r.sandbox_id id).0 own, refl, refl), rest)
      | inr other ↦ rw other rest
    ]

ports_of-All :
    (id : String) (db : Db)
    → All (λ pm. IsExposed id pm.guest_port pm.host_port db) (ports_of id db)
unfolding ports_of
ports_of-All id db =
    All-sort_by (λ p q. ltb p.guest_port q.guest_port) _ _ (mappings-All id db db.ports (λ m h. h))

-- What an exposure has done: the port is the primary one, and the answer is the host port of the
-- sandbox; or it was exposed before, as the answer says; or it is exposed and forwarded now. In the
-- first two cases nothing has changed.
pub data IsDone (primary : ℕ) (forwards : ℕ → String → ℕ → Bool) (p : ℕ) (id : String) (before : Db)
    (pm : PortMapping) (after : Db) : Type 0 where
  is_primary :
      p ≡ primary
      → IsPrimary id pm.host_port before
      → after ≡ before
      → IsDone primary forwards p id before pm after
  was_exposed :
      p ≢ primary
      → IsExposed id p pm.host_port before
      → after ≡ before
      → IsDone primary forwards p id before pm after
  is_exposed :
      p ≢ primary
      → IsMapped id p pm.host_port after
      → IsForwarded forwards id p pm.host_port before
      → IsDone primary forwards p id before pm after

pub record Exposed (primary : ℕ) (forwards : ℕ → String → ℕ → Bool) (p : ℕ) (id : String)
    (before : Db) (pm : PortMapping) (after : Db) : Type 0 where
  pub asked : pm.guest_port ≡ p
  pub valid : (1 ≤ p) × (p ≤ 65_535)
  pub recorded : IsDone primary forwards p id before pm after

-- A refusal has left the tables as they were, or the mapping that it made is not kept.
abbrev pub NotExposed : String → Option ℤ → Db → Conn → Type 0
NotExposed id body before c = (c.db ≡ before) ⊎ ((p : ℕ) × (body ≡ some (pos p)) × IsUndone id p c)

module _ (primary : ℕ) (forwards : ℕ → String → ℕ → Bool) (pools : Pools) (id : String)
    (p : ℕ) where
  -- The mapping that was asked for is recorded, in consistent tables.
  abbrev Success : Db → PortMapping → Conn → Type 0
  Success before pm c =
      IsConsistent c.db × (pm.guest_port ≡ p) × IsDone primary forwards p id before pm c.db

  abbrev Refusal : Db → ℕ → Conn → Type 0
  Refusal before e c = IsConsistent c.db × NotExposed id (some (pos p)) before c

  expose_extra-Ends :
      (forwards_to : ℕ → Bool) (o : Option PortMapping) (before : Db) (c : Conn)
      → p ≢ primary
      → ((port : ℕ) → forwards_to port ≡ true → IsForwarded forwards id p port before)
      → ((pm : PortMapping)
          → o ≡ some pm
          → (pm.guest_port ≡ p) × IsExposed id pm.guest_port pm.host_port before)
      → c.db ≡ before
      → IsConsistent c.db
      → Ends (Success before) (Refusal before) (expose_extra forwards_to pools id p o c)
  unfolding expose_extra
  expose_extra-Ends forwards_to (some pm) before c n f k e v =
      let (asked, there) = k pm refl in
      Ends-ok _ _
        (v, asked, was_exposed n (subst (λ q. IsExposed id q pm.host_port before) asked there) e)
  expose_extra-Ends forwards_to none before c n f k e v =
      Ends-bind (or_status 500 (add_port pools id p)) _ c (
        or_status-Ends 500 (add_port pools id p) c _ (λ x c'. IsConsistent c'.db × (c'.db ≡ c.db)) _
          (Ends-mono _ _ _ _ (add_port pools id p c) (add_port-IsMapped pools id p c)
            (λ port _ m.
              Ends-mono _ _ _ _ _
                (forward_or_undo-Ends pools (forwards_to port) id p port _
                  (add_port-keeps pools id p c v) m)
                (λ pm _ h. (h.0, h.1, is_exposed n h.2 (f _ (ap forwards_to h.4 ∙ h.3))))
                (λ x _ h. (h.0, inr (p, refl, h.1))))
            (λ x _ h. (add_port-keeps pools id p c v, h)))
          (λ x c' h. (h.0, inl (h.1 ∙ e))))

  -- The mapping that is found in the list of the sandbox's.
  existing_is :
      (existing : List PortMapping) (db : Db) (pm : PortMapping)
      → existing ≡ ports_of id db
      → find (λ m. m.guest_port == p) existing ≡ some pm
      → (pm.guest_port ≡ p) × IsExposed id pm.guest_port pm.host_port db
  existing_is existing db pm e found = (
    (nat_eq_iff pm.guest_port p).0 (find-true (λ m. m.guest_port == p) existing pm found),
    All-find (λ q. IsExposed id q.guest_port q.host_port db) (λ m. m.guest_port == p) existing pm
        (subst (All (λ q. IsExposed id q.guest_port q.host_port db)) (sym e) (ports_of-All id db))
        found,
  )

  expose_port-Ends :
      (sb : Sandbox) (r : SandboxRow) (before : Db) (c : Conn)
      → find_sandbox id before ≡ some r
      → (sb.host_port ≡ r.host_port) × (sb.guest_ip ≡ r.guest_ip)
      → c.db ≡ before
      → IsConsistent c.db
      → Ends (Success before) (Refusal before) (expose_port primary forwards pools id p sb c)
  unfolding expose_port
  expose_port-Ends sb r before c found same_ e v = elim (Bool-cases (p == primary)) [
    | inl same ↦ rw same (Ends-ok _ _ (v, refl, is_primary (ground arith) (r, found, same_.0) e))
    | inr other ↦ rw other (
        Ends-bind (or_status 500 (ports id)) _ c (
          or_status-Ends 500 (ports id) c _ (λ x c'. c'.db ≡ c.db) _
            (Ends-mono _ _ _ (λ x c'. c'.db ≡ c.db) (ports id c) (ports-finds id c)
              (λ existing _ h.
                expose_extra-Ends (λ port. forwards port sb.guest_ip p)
                  (find (λ pm. pm.guest_port == p) existing) before _ (λ q. ground arith)
                  (λ port f. (r, found, ap (λ ip. forwards port ip p) (sym same_.1) ∙ f))
                  (λ pm there. existing_is existing before pm (h.0 ∙ ap (ports_of id) e) there)
                  (h.1 ∙ e) (rw h.1 v))
              (λ x _ h. h))
            (λ x c' h. (rw h v, inl (h ∙ e)))))
  ]

-- From consistent tables, exposing a port keeps the tables consistent, whatever is asked, wherever the
-- driver fails and whether or not the forwarding succeeds. It answers with a mapping only for a guest
-- port from 1 to 65535, and of that port: the primary port with the host port of the sandbox's row, a
-- port that was exposed before with a host port that the table had for it, both with the tables as
-- they were, and any other with the host port that is recorded for it now and whose forwarding to the
-- sandbox's address succeeded. When it is refused, the tables are as they were, or the port has no
-- mapping, or the last call of the driver, which was to take the mapping out, failed.
pub handle_expose_port-Exposed :
    (primary : ℕ) (forwards : ℕ → String → ℕ → Bool) (pools : Pools) (id : String) (body : Option ℤ)
    (c : Conn)
    → IsConsistent c.db
    → Ends
        (λ pm c'.
          IsConsistent c'.db
          × ((p : ℕ) × (body ≡ some (pos p)) × Exposed primary forwards p id c.db pm c'.db))
        (λ status c'. IsConsistent c'.db × NotExposed id body c.db c')
        (handle_expose_port primary forwards pools id body c)
unfolding handle_expose_port scan_sandbox
handle_expose_port-Exposed primary forwards pools id none c v = Ends-err _ _ (v, inl refl)
handle_expose_port-Exposed primary forwards pools id (some (negsuc n)) c v =
    Ends-err _ _ (v, inl refl)
handle_expose_port-Exposed primary forwards pools id (some (pos p)) c v =
    elim (Bool-cases (ltb p 1 || ltb 65_535 p)) [
      | inl bad ↦ rw bad (Ends-err _ _ (v, inl refl))
      | inr good ↦ rw good (
          Ends-bind (or_status 404 (get id)) _ c (
            or_status-Ends 404 (get id) c _ (λ x c'. c'.db ≡ c.db) _
              (Ends-mono _ _ _ (λ x c'. c'.db ≡ c.db) (get id c) (get-finds id c)
                (λ sb _ h.
                  Ends-mono _ _ _ _ _
                    (expose_port-Ends primary forwards pools id p sb h.0 c.db _ h.1
                      (ap (λ q. q.host_port) h.2, ap (λ q. q.guest_ip) h.2) h.3 (rw h.3 v))
                    (λ pm _ k. (
                      k.0,
                      (
                        p,
                        refl,
                        record {
                          asked = k.1;
                          valid = (ground arith, ground arith);
                          recorded = k.2;
                        },
                      ),
                    ))
                    (λ x _ k. k))
                (λ x _ h. h))
              (λ x c' h. (rw h v, inl h))))
    ]
