-- ===== src/Server/Sandboxes/Spares.antt =====
-- internal/server: the calls for one sandbox spare every other that is standing.
use web_sandbox.Registry.Engine.{Conn, find_sandbox}
use web_sandbox.Registry.Types.{SandboxRow, Sandbox}
use web_sandbox.Registry.Invariant.{IsConsistent}
use web_sandbox.Server.Host.{Held, Host, holds, process, Eq-Held}
use web_sandbox.Server.Sandboxes.Elsewhere.{Concerns, Elsewhere}
use web_sandbox.Server.Sandboxes.Possessions.{Rowed}
use web_sandbox.Server.Sandboxes.Standing.{IsOwned, Standing, found_apart, owned_apart}
use web_sandbox.Server.Sandboxes.Tracking.{owns}
use web_sandbox.Common.{
  List, String, ap, arith, contains, eq_iff, false, some, subst, sym, ◌==◌, ◌∙◌, ◌≡◌, Eq-String,
}

-- From `s` to `s'` something was done for the sandbox `id`, whose disk is at `path`: the tables are
-- consistent, and whatever other sandbox with another disk was standing with what is its own stands.
pub record Spares (id path : String) (s s' : Host) : Type 0 where
  pub consistent : IsConsistent s'.conn.db
  pub spared :
      (other : String) (sb : Sandbox) (xs : List Held)
      → (other == id) ≡ false
      → (sb.rootfs_path == path) ≡ false
      → IsOwned other sb xs
      → Standing other sb xs s
      → Standing other sb xs s'
  pub tracks :
      (other : String)
      → (other == id) ≡ false
      → contains s'.machines other ≡ contains s.machines other
  pub processes :
      (other : String) → (other == id) ≡ false → holds (process other) s' ≡ holds (process other) s

pub Spares-nothing :
    (id path : String) (s s' : Host)
    → s'.held ≡ s.held
    → s'.conn.db ≡ s.conn.db
    → s'.machines ≡ s.machines
    → IsConsistent s.conn.db
    → Spares id path s s'
Spares-nothing id path s s' e f g v = record {
  consistent = subst IsConsistent (sym f) v;
  spared = λ other sb xs _ _ _ up. record {
    row = up.row;
    found = ap (find_sandbox other) f ∙ up.found;
    named = up.named;
    has = λ h k. ap (λ l. contains l h) e ∙ up.has h k;
  };
  tracks = λ other _. ap (λ l. contains l other) g;
  processes = λ other _. ap (λ l. contains l (process other)) e;
}

-- `d` is a connection at which the row of the sandbox is there beside those of the others.
pub Elsewhere-Spares :
    (id : String) (sb : Sandbox) (path : String) (s s' : Host) (d : Conn)
    → IsConsistent s.conn.db
    → sb.rootfs_path ≡ path
    → Rowed id sb d
    → Concerns id s.conn d
    → Elsewhere (owns id sb) id s s'
    → Spares id path s s'
unfolding find_sandbox
Elsewhere-Spares id sb path s s' d v at_path rowed c away =
    let (w, row) = rowed in
    record {
      consistent = away.consistent v;
      spared = λ other sb' xs n p o up.
          let (r, found, m) = row in
          let q : SandboxRow = up.row in
          let there : find_sandbox other d.db ≡ some q = c.rows other n ∙ up.found in
          let taps : (r.tap_device == q.tap_device) ≡ false =
            found_apart (λ x. x.tap_device) id other r q d.db.sandboxes n found there m.running
              up.named.running w.taps in
          let ips : (r.guest_ip == q.guest_ip) ≡ false =
            found_apart (λ x. x.guest_ip) id other r q d.db.sandboxes n found there m.running
              up.named.running w.ips in
          record {
            row = q;
            found = away.rows other n ∙ up.found;
            named = up.named;
            has = λ h k.
                away.frame h (
                  owned_apart id other sb sb' h n
                    (subst (λ x. (sb'.rootfs_path == x) ≡ false) (sym at_path) p)
                    (ground (
                      arith,
                      eq_iff r.tap_device q.tap_device,
                      eq_iff sb'.tap_device sb.tap_device,
                      m.tap_name,
                      up.named.tap_name,
                    ))
                    (ground (
                      arith,
                      eq_iff r.guest_ip q.guest_ip,
                      eq_iff sb'.guest_ip sb.guest_ip,
                      m.ip,
                      up.named.ip,
                    ))
                    (o h k))
                ∙ up.has h k;
          };
      tracks = away.tracks;
      processes = λ other n. away.frame (process other) n;
    }
