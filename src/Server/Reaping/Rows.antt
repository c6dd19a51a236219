-- ===== src/Server/Reaping/Rows.antt =====
-- internal/server/ttl.go and internal/server/reconcile.go: which rows are left.
use web_sandbox.Registry.Types.{SandboxRow, Sandbox, scan_sandbox}
use web_sandbox.Server.Host.{remove_port_forward_to, Host, Settings, quietly, release, process}
use web_sandbox.Server.Reaping.{reap, reconcile, reconcile_each, reconcile_one, release_all}
use web_sandbox.Server.Sandboxes.{destroy_each, destroy_quietly, read_ports, remove_port_forward}
use web_sandbox.Server.Reaping.Working.{
  always_works, destroy_quietly-Removes, Removes, as_working, working, destroy-Removes,
}
use web_sandbox.Common.{
  All, Bool, List, String, [], ap, arith, contains, count, eq_iff, false, filter, map, not, refl,
  sym, true, ◌==◌, ◌∙◌, ◌∷◌, ◌≡◌, Eq-String, Distinct, beq_refl, contains-count, count-filter-le,
  Distinct-head, Distinct-tail, ℕ, ◌&&◌, subst, ◌+◌, Bool-cases, count-sort_by, inl, inr, ltb, ◌≤◌,
  count-contains,
}
use web_sandbox.Registry.Engine.{is_running, Db, query, call}
use web_sandbox.Registry.Invariant.{IsConsistent}
use web_sandbox.Registry.Ops.{has_expired, expired, newest_first, ports_of, ports, all, destroy}
use web_sandbox.Server.Heartbeat.{map-scan_sandbox}
use web_sandbox.Server.Sandboxes.Destroying.{remove_extra-conn}

-- Rows without those of some ids.
abbrev pub without : List String → List SandboxRow → List SandboxRow
without ids rows = filter (λ r. not (contains ids r.id)) rows

without-cons :
    (id : String) (ids : List String) (rows : List SandboxRow)
    → without ids (filter (λ r. not (r.id == id)) rows) ≡ without (id ∷ ids) rows
unfolding filter contains
without-cons id ids [] = refl
without-cons id ids (r ∷ rs) =
    ground (arith, eq_iff r.id id, eq_iff id r.id, without-cons id ids rs)

filter-all {ℓ} : {A : Type ℓ} (xs : List A) → filter (λ x. true) xs ≡ xs
unfolding filter
filter-all [] = refl
filter-all (x ∷ xs) = ap (λ ys. x ∷ ys) (filter-all xs)

-- The loop of destroys removes the rows of its ids, and no other.
destroy_each-without :
    (cfg : Settings) (ids : List String) (s : Host)
    → s.conn.fails ≡ always_works
    → (destroy_each cfg ids s).conn.db.sandboxes ≡ without ids s.conn.db.sandboxes
unfolding destroy_each contains
destroy_each-without cfg [] s e = sym (filter-all s.conn.db.sandboxes)
destroy_each-without cfg (id ∷ ids) s e =
    let one = destroy_quietly-Removes cfg id s e in
    destroy_each-without cfg ids (destroy_quietly cfg id s) one.works
    ∙ ap (without ids) one.rows
    ∙ without-cons id ids s.conn.db.sandboxes

filter-congruent :
    (p q : SandboxRow → Bool) (rows : List SandboxRow)
    → All (λ r. p r ≡ q r) rows
    → filter p rows ≡ filter q rows
unfolding filter
filter-congruent p q [] h = refl
filter-congruent p q (r ∷ rs) h = ground (arith, h.0, filter-congruent p q rs h.1)

All-other :
    (id : String) (rows : List SandboxRow)
    → count id (map (λ r. r.id) rows) ≡ 0
    → All (λ r. (id == r.id) ≡ false) rows
unfolding count
All-other id [] h = tt
All-other id (r ∷ rs) h =
    (ground (arith, eq_iff r.id id, eq_iff id r.id), All-other id rs (ground arith))

All-both :
    (P Q R : SandboxRow → Type 0) (rows : List SandboxRow)
    → ((r : SandboxRow) → P r → Q r → R r)
    → All P rows
    → All Q rows
    → All R rows
All-both P Q R [] f h k = tt
All-both P Q R (r ∷ rs) f h k = (f r h.0 k.0, All-both P Q R rs f h.1 k.1)

-- Where no id stands twice, the ids of the rows that pass a test are those of just these rows.
ids_of-test :
    (test : SandboxRow → Bool) (rows : List SandboxRow)
    → Distinct (map (λ r. r.id) rows)
    → All (λ r. contains (map (λ q. q.id) (filter test rows)) r.id ≡ test r) rows
unfolding filter contains
ids_of-test test [] d = tt
ids_of-test test (x ∷ xs) d =
    let apart = Distinct-head x.id (map (λ r. r.id) xs) d in
    let missing : contains (map (λ q. q.id) (filter test xs)) x.id ≡ false =
      contains-count x.id (map (λ q. q.id) (filter test xs))
        (omega (arith, apart, count-filter-le (λ r. r.id) test x.id xs)) in
    let rest = ids_of-test test xs (Distinct-tail x.id (map (λ r. r.id) xs) d) in
    (
      ground (arith, missing, beq_refl x.id),
      All-both (λ r. contains (map (λ q. q.id) (filter test xs)) r.id ≡ test r)
          (λ r. (x.id == r.id) ≡ false)
          (λ r. contains (map (λ q. q.id) (filter test (x ∷ xs))) r.id ≡ test r) xs
          (λ r h k. ground (arith, h, k)) rest (All-other x.id xs apart),
    )

-- The tick, on a driver that is written out.
reap-working :
    (cfg : Settings) (now : ℕ) (s : Host) (db : Db) (n : ℕ)
    → IsConsistent db
    → (reap cfg now (record s { conn = working db n })).conn.db.sandboxes
      ≡ filter (λ r. not (is_running r && has_expired now r)) db.sandboxes
unfolding reap expired query call
reap-working cfg now s db n v =
    let test : SandboxRow → Bool = λ r. is_running r && has_expired now r in
    let listed = map (λ sb. sb.id) (map scan_sandbox (filter test db.sandboxes)) in
    destroy_each-without cfg listed (record s { conn = working db (n + 1) }) refl
    ∙ ap (λ ids. without ids db.sandboxes) (map-scan_sandbox (filter test db.sandboxes))
    ∙ filter-congruent (λ r. not (contains (map (λ q. q.id) (filter test db.sandboxes)) r.id))
        (λ r. not (test r)) db.sandboxes
        (All-both _ (λ r. contains (map (λ q. q.id) (filter test db.sandboxes)) r.id ≡ test r) _
          db.sandboxes (λ r h k. ap not k) (ids_of-test test db.sandboxes v.ids)
          (ids_of-test test db.sandboxes v.ids))

-- From consistent tables, and if the calls of the driver succeed, a tick of the reaper deletes exactly
-- the rows of the running sandboxes whose deadline has passed.
pub reap-filter :
    (cfg : Settings) (now : ℕ) (s : Host)
    → s.conn.fails ≡ always_works
    → IsConsistent s.conn.db
    → (reap cfg now s).conn.db.sandboxes
      ≡ filter (λ r. not (is_running r && has_expired now r)) s.conn.db.sandboxes
reap-filter cfg now s e v =
    subst
      (λ k.
        (reap cfg now (record s { conn = k })).conn.db.sandboxes
        ≡ filter (λ r. not (is_running r && has_expired now r)) k.db.sandboxes)
      (sym (as_working s.conn e)) (reap-working cfg now s s.conn.db s.conn.calls v)

-- The clean-up of a row from the ports on, on a driver that is written out.
released_working :
    (cfg : Settings) (sb : Sandbox) (s : Host) (db : Db) (n : ℕ)
    → (release_all cfg sb (read_ports sb.id (record s { conn = working db n }))).conn
      ≡ working db (n + 1)
unfolding read_ports ports query call release remove_port_forward remove_port_forward_to
released_working cfg sb s db n =
    (remove_extra-conn sb.guest_ip (ports_of sb.id db) (record s { conn = working db (n + 1) })).0

reconcile_one-working :
    (cfg : Settings) (lives : ℕ → Bool) (sb : Sandbox) (s : Host) (db : Db) (n : ℕ)
    → Removes sb.id db (reconcile_one cfg lives sb (record s { conn = working db n })).conn
unfolding reconcile_one quietly release
reconcile_one-working cfg lives sb s db n = elim (Bool-cases (lives sb.pid)) [
  | inl alive ↦
      rw (alive, reconcile_one)
        (subst (λ k. Removes sb.id db (destroy sb.id k).1)
          (sym (released_working cfg sb (release (process sb.id) s) db n))
          (destroy-Removes sb.id (working db (n + 1)) refl))
  | inr dead ↦
      rw (dead, reconcile_one)
        (subst (λ k. Removes sb.id db (destroy sb.id k).1) (sym (released_working cfg sb s db n))
          (destroy-Removes sb.id (working db (n + 1)) refl))
]

reconcile_one-Removes :
    (cfg : Settings) (lives : ℕ → Bool) (sb : Sandbox) (s : Host)
    → s.conn.fails ≡ always_works
    → Removes sb.id s.conn.db (reconcile_one cfg lives sb s).conn
reconcile_one-Removes cfg lives sb s e =
    subst (λ k. Removes sb.id k.db (reconcile_one cfg lives sb (record s { conn = k })).conn)
      (sym (as_working s.conn e)) (reconcile_one-working cfg lives sb s s.conn.db s.conn.calls)

reconcile_each-without :
    (cfg : Settings) (lives : ℕ → Bool) (sbs : List Sandbox) (s : Host)
    → s.conn.fails ≡ always_works
    → (reconcile_each cfg lives sbs s).conn.db.sandboxes
      ≡ without (map (λ sb. sb.id) sbs) s.conn.db.sandboxes
unfolding reconcile_each contains
reconcile_each-without cfg lives [] s e = sym (filter-all s.conn.db.sandboxes)
reconcile_each-without cfg lives (sb ∷ sbs) s e =
    let one = reconcile_one-Removes cfg lives sb s e in
    reconcile_each-without cfg lives sbs (reconcile_one cfg lives sb s) one.works
    ∙ ap (without (map (λ q. q.id) sbs)) one.rows
    ∙ without-cons sb.id (map (λ q. q.id) sbs) s.conn.db.sandboxes

without-all :
    (ids : List String) (rows : List SandboxRow)
    → ((id : String) → count id (map (λ r. r.id) rows) ≤ count id ids)
    → without ids rows ≡ []
unfolding filter count
without-all ids [] h = refl
without-all ids (r ∷ rs) h =
    let there : contains ids r.id ≡ true = elim (Bool-cases (contains ids r.id)) [
      | inl yes_ ↦ yes_
      | inr no_ ↦ absurd (ground (arith, h r.id, count-contains r.id ids no_, beq_refl r.id))
    ] in
    rw there (without-all ids rs (λ id. ground (arith, h id)))

reconcile-working :
    (cfg : Settings) (lives : ℕ → Bool) (s : Host) (db : Db) (n : ℕ)
    → (reconcile cfg lives (record s { conn = working db n })).conn.db.sandboxes ≡ []
unfolding reconcile all query call
reconcile-working cfg lives s db n =
    let sorted = newest_first db.sandboxes in
    reconcile_each-without cfg lives (map scan_sandbox sorted)
      (record s { conn = working db (n + 1) }) refl
    ∙ ap (λ ids. without ids db.sandboxes) (map-scan_sandbox sorted)
    ∙ without-all (map (λ r. r.id) sorted) db.sandboxes (λ id.
      omega
        (arith, count-sort_by (λ r q. ltb q.created_at r.created_at) (λ r. r.id) id db.sandboxes))

-- If the calls of the driver succeed, no sandbox is in the registry when a server has started, whatever
-- an earlier run has left.
pub reconcile-empty :
    (cfg : Settings) (lives : ℕ → Bool) (s : Host)
    → s.conn.fails ≡ always_works
    → (reconcile cfg lives s).conn.db.sandboxes ≡ []
reconcile-empty cfg lives s e =
    subst (λ k. (reconcile cfg lives (record s { conn = k })).conn.db.sandboxes ≡ [])
      (sym (as_working s.conn e)) (reconcile-working cfg lives s s.conn.db s.conn.calls)
