-- ===== src/Server/Host.antt =====
-- internal/server: what the server keeps (the registry, the table of machines) and what its sandboxes
-- hold on the host. How a call of the provisioner or of the vm package ends is an argument: a function
-- from its number.
pub mod Rules
pub mod Tracks
pub mod Acts
use web_sandbox.Registry.Engine.{Conn, Sql}
use web_sandbox.Registry.Types.{Pools}
use web_sandbox.Provisioner.Disks.{System, Paths}
use web_sandbox.Server.Timeouts.{status_of}
use web_sandbox.Common.{
  ℕ, Bool, Eq, Exec, List, Result, String, arith, contains, eq_iff, err, false, filter, nat_eq_iff,
  not, ok, true, ◌&&◌, ◌+◌, ◌==◌, ◌>>◌, ◌∷◌, ◌↔◌, ◌≡◌, Eq-String, Eq-ℕ, ◌>>=◌,
}

-- A disk file, a tap device, the two DNAT rules of a forwarded port (host port, guest address, guest
-- port), the Firecracker process of a sandbox, its being paused, and the directory of a snapshot.
pub data Held : Type 0 where
  disk : String → Held
  tap : String → Held
  prerouting : ℕ → String → ℕ → Held
  output : ℕ → String → ℕ → Held
  process : String → Held
  pause : String → Held
  artifacts : String → Held

abbrev pub same_held : Held → Held → Bool
same_held (disk a) (disk b) = a == b
same_held (tap a) (tap b) = a == b
same_held (prerouting a i m) (prerouting b j n) = a == b && (i == j && m == n)
same_held (output a i m) (output b j n) = a == b && (i == j && m == n)
same_held (process a) (process b) = a == b
same_held (pause a) (pause b) = a == b
same_held (artifacts a) (artifacts b) = a == b
same_held _ _ = false

pub same_held_iff : (x y : Held) → (same_held x y ≡ true) ↔ (x ≡ y)
same_held_iff (disk a) (disk b) = ground (arith, eq_iff a b)
same_held_iff (tap a) (tap b) = ground (arith, eq_iff a b)
same_held_iff (prerouting a i m) (prerouting b j n) = ground (arith, eq_iff i j)
same_held_iff (output a i m) (output b j n) = ground (arith, eq_iff i j)
same_held_iff (process a) (process b) = ground (arith, eq_iff a b)
same_held_iff (pause a) (pause b) = ground (arith, eq_iff a b)
same_held_iff (artifacts a) (artifacts b) = ground (arith, eq_iff a b)
same_held_iff _ _ = ground arith

instance abbrev pub Eq-Held : Eq Held
Eq-Held = record { is_same = same_held; is_same_iff = same_held_iff }

-- A call takes effect and succeeds, or fails without effect, or fails when it has taken effect.
pub data Outcome : Type 0 where
  done refused broken : Outcome

-- `machines` has the ids in the table of machines, and `stuck` what a release failed to free.
pub record Host : Type 0 where
  pub conn : Conn
  pub held : List Held
  pub stuck : List Held
  pub machines : List String
  pub outcomes : ℕ → Outcome
  pub acts : ℕ

-- The part of the configuration that the handlers use, and what the VM of a sandbox reports: its
-- process, its id and its socket.
pub record Settings : Type 0 where
  pub pools : Pools
  pub system : System
  pub paths : Paths
  pub guest_port : ℕ
  pub pid_of : String → ℕ
  pub vm_id_of : String → String
  pub socket_of : String → String

-- A handler ends with a value or with the status of an error.
abbrev pub Act : Type 0 → Type 0
Act A = Exec Host ℕ A

abbrev pub holds : Held → Host → Bool
holds x s = contains s.held x

abbrev pub hold : Held → Host → Host
hold x s = record s { held = x ∷ s.held }

unfoldable pub taken : Held → Outcome → Act (Unit {0})
taken x done s = (ok tt, hold x s)
taken x refused s = (err 500, s)
taken x broken s = (err 500, hold x s)

unfoldable pub acquire : Held → Act (Unit {0})
unfolding taken
acquire x s = taken x (s.outcomes s.acts) (record s { acts = s.acts + 1 })

-- A call that takes nothing.
unfoldable pub attempted : Outcome → Act (Unit {0})
attempted done s = (ok tt, s)
attempted _ s = (err 500, s)

unfoldable pub attempt : Act (Unit {0})
unfolding attempted
attempt s = attempted (s.outcomes s.acts) (record s { acts = s.acts + 1 })

abbrev pub put_aside : Held → Outcome → List Held → List Held
put_aside x done xs = xs
put_aside x _ xs = x ∷ xs

-- A call that frees something, with its error ignored.
unfoldable pub release : Held → Host → Host
release x s = record s {
  held = filter (λ y. not (y == x)) s.held;
  stuck = put_aside x (s.outcomes s.acts) s.stuck;
  acts = s.acts + 1;
}

-- A call of the registry whose error is answered with a status.
unfoldable pub registry : {A : Type 0} → ℕ → Sql A → Act A
registry status m s = let (r, c) = m s.conn in (status_of status r, record s { conn = c })

-- A call of the registry whose error is ignored.
unfoldable pub quietly : {A : Type 0} → Sql A → Host → Host
quietly m s = record s { conn = (m s.conn).1 }

abbrev pub undo : {A : Type 0} → (Host → Host) → Result ℕ A × Host → Result ℕ A × Host
undo f (ok a, s) = (ok a, s)
undo f (err e, s) = (err e, f s)

-- if err != nil { clean up; return err }
unfoldable pub on_error : {A : Type 0} → Act A → (Host → Host) → Act A
on_error m f s = undo f (m s)

-- CreateTap, CreateTapUnbridged and AddPortForwardTo of the provisioner, command by command.
unfoldable pub create_tap_unbridged : String → Act (Unit {0})
create_tap_unbridged t = do acquire (tap t); attempt

unfoldable pub create_tap : String → Act (Unit {0})
create_tap t = do create_tap_unbridged t; attempt

unfoldable pub add_port_forward_to : ℕ → String → ℕ → Act (Unit {0})
add_port_forward_to host_port ip guest_port = do
  acquire (prerouting host_port ip guest_port)
  acquire (output host_port ip guest_port)

unfoldable pub remove_port_forward_to : ℕ → String → ℕ → Host → Host
remove_port_forward_to host_port ip guest_port s =
    release (output host_port ip guest_port) (release (prerouting host_port ip guest_port) s)
