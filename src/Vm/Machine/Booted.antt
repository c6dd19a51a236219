-- ===== src/Vm/Machine/Booted.antt =====
-- internal/vm/machine_linux.go: what NewMachine and NewMachineFromSnapshot ask of the SDK.
use web_sandbox.Vm.Machine.Configured.{
  Configured, Wired, fc_config-Configured, ok_inj, unwired, wired,
}
use mathlib.Core.Bool.{false≢true}
use Prim.Native.String.{◌++◌ as str_append}
use web_sandbox.Vm.{
  RunOptions, RuntimeConfig, apply_defaults, Launch, socket_path_of, with_defaults,
}
use web_sandbox.Vm.Machine.{
  Drive, FcConfig, NetworkInterface, Sdk, Wanted, base_config, fc_config, build_command, wanted_of,
  built, new_machine, new_machine_from_snapshot,
}
use web_sandbox.Common.Results.{>>=-ok}
use web_sandbox.Common.{
  Bool, String, Option, ok, some, ◌≡◌, true, false, [], ◌∷◌, Eq-String, Result, ap, err, none, refl,
  subst, sym, eq_iff, if◌then◌else◌, List, ◌∙◌,
}

-- The command's output goes to a file in the directory that was given, if it can be opened.
abbrev pub logged : Sdk → RunOptions → String → Option String
logged sdk given vm_id =
    let path =
      sdk.launch.join given.log_dir (str_append "firecracker-" (str_append vm_id ".log")) in
    if sdk.opens path then some path else none

-- What was asked for, and what is answered, for the options as given and with their defaults.
pub record Booted (sdk : Sdk) (given : RunOptions) (snapshot : Option (String × String × Bool))
    (w : Wanted) (rt : RuntimeConfig) : Type 0 where
  pub o : RunOptions
  pub defaulted : apply_defaults sdk.launch given ≡ ok o
  pub accepted : sdk.new_machine w ≡ ok tt
  pub same_id : sdk.fc_id ≡ ok rt.vm_id
  pub same_socket :
      (w.config.socket_path ≡ o.socket_path)
      × (w.runner.socket_path ≡ o.socket_path)
      × (rt.socket_path ≡ o.socket_path)
  pub ids : (w.config.vm_id ≡ rt.vm_id) × (w.runner.args ≡ "--id" ∷ rt.vm_id ∷ "--no-seccomp" ∷ [])
  pub disk :
      (d : Drive) × (w.config.drives ≡ d ∷ [])
      × (d.path_on_host ≡ o.rootfs_path)
      × (d.is_root_device ≡ true)
      × (d.is_read_only ≡ false)
  pub wires : Wired sdk o w.config.network_interfaces w.config.mmds_version
  pub from : w.snapshot ≡ snapshot
  pub bin : w.runner.bin ≡ given.firecracker_bin
  pub output : w.runner.output ≡ logged sdk given rt.vm_id

built-Booted :
    (sdk : Sdk) (given : RunOptions) (snapshot : Option (String × String × Bool)) (b : Bool)
    (p : Wanted × RuntimeConfig)
    → built sdk given snapshot b ≡ ok p
    → Booted sdk given snapshot p.0 p.1
unfolding built wanted_of build_command base_config
built-Booted sdk given snapshot b p h =
    let (c, h₁, h₂) = >>=-ok (fc_config sdk given) _ p h in
    let (u, h₃, h₄) = >>=-ok (sdk.new_machine (wanted_of sdk given snapshot b c)) _ p h₂ in
    let made : Configured sdk given c = fc_config-Configured sdk given c h₁ in
    let socket : c.socket_path ≡ made.o.socket_path = ap (λ x. x.socket_path) made.rest in
    let enabled : c.seccomp.enabled ≡ false = ap (λ x. x.seccomp.enabled) made.rest in
    subst (λ q. Booted sdk given snapshot q.0 q.1) (ok_inj _ refl h₄)
      (record {
        o = made.o;
        defaulted = made.defaulted;
        accepted = h₃;
        same_id = made.same_id ∙ ap ok (sym (ap (λ x. x.vm_id) made.rest));
        same_socket = (socket, socket, socket);
        ids = (refl, rw enabled refl);
        disk = (_, ap (λ x. x.drives) made.rest, refl, refl, refl);
        wires = made.wires;
        from = refl;
        bin = refl;
        output = refl;
      })

-- When NewMachine succeeds, the SDK has accepted a machine with the given options or their defaults: its
-- configuration, its command line and the answer agree on the socket and on the id, its disk is the
-- root disk and can be written, and it has one network interface, with MMDS and the addresses that were
-- parsed, if there is a tap, and none otherwise. The binary and the directory of the log are those that
-- were given, without defaults.
pub new_machine-Booted :
    (sdk : Sdk) (given : RunOptions) (b : Bool) (w : Wanted) (rt : RuntimeConfig)
    → new_machine sdk given b ≡ ok (w, rt)
    → Booted sdk given none w rt
unfolding new_machine
new_machine-Booted sdk given b w rt h = built-Booted sdk given none b (w, rt) h

built-ok :
    (sdk : Sdk) (given o : RunOptions) (snapshot : Option (String × String × Bool)) (b : Bool)
    (uid vm_id : String)
    → apply_defaults sdk.launch given ≡ ok o
    → sdk.log_id ≡ ok uid
    → sdk.fc_id ≡ ok vm_id
    → o.tap_device ≡ ""
    → ((w : Wanted) → sdk.new_machine w ≡ ok tt)
    → (p : Wanted × RuntimeConfig) × (built sdk given snapshot b ≡ ok p)
unfolding built fc_config
built-ok sdk given o snapshot b uid vm_id d l i n a =
    let c : FcConfig = base_config sdk o uid vm_id in
    (
      (wanted_of sdk given snapshot b c, record { socket_path = c.socket_path; vm_id = c.vm_id }),
      rw (d, l, i, n, a (wanted_of sdk given snapshot b c)) refl,
    )

-- The options of a machine that loads a snapshot.
abbrev pub without_tap : RunOptions → RunOptions
without_tap given = record given { tap_device = "" }

tap_kept_by :
    (l : Launch) (given o : RunOptions) (r : Result String String)
    → with_defaults l given r ≡ ok o
    → o.tap_device ≡ given.tap_device
tap_kept_by l given o (ok path) h = ap (λ x. x.tap_device) (sym (ok_inj _ refl h))
tap_kept_by l given o (err e) h = cc

tap_kept :
    (l : Launch) (given o : RunOptions)
    → apply_defaults l given ≡ ok o
    → o.tap_device ≡ given.tap_device
unfolding apply_defaults
tap_kept l given o h = tap_kept_by l given o (socket_path_of l given.socket_path) h

no_interface :
    (sdk : Sdk) (o : RunOptions) (nics : List NetworkInterface) (mmds : String)
    → o.tap_device ≡ ""
    → Wired sdk o nics mmds
    → nics ≡ []
no_interface sdk o nics mmds e (unwired f g) = g
no_interface sdk o nics mmds e (wired net gateway nic n _ _ _ _ _ _ _ _ _) =
    absurd (false≢true (sym n ∙ (eq_iff o.tap_device "").1 e))

-- If the defaults and the UUIDs are found and the SDK accepts every machine, NewMachineFromSnapshot
-- succeeds, whatever tap and whatever addresses the options have, and asks for a machine that loads
-- the two files and resumes, and has no network interface.
pub new_machine_from_snapshot-Booted :
    (sdk : Sdk) (given o : RunOptions) (mem_path state_path : String) (b : Bool)
    (uid vm_id : String)
    → apply_defaults sdk.launch (without_tap given) ≡ ok o
    → sdk.log_id ≡ ok uid
    → sdk.fc_id ≡ ok vm_id
    → ((w : Wanted) → sdk.new_machine w ≡ ok tt)
    → (p : Wanted × RuntimeConfig) × (new_machine_from_snapshot sdk given mem_path state_path b
        ≡ ok p)
      × Booted sdk (without_tap given) (some (mem_path, state_path, true)) p.0 p.1
      × (p.0.config.network_interfaces ≡ [])
unfolding new_machine_from_snapshot
new_machine_from_snapshot-Booted sdk given o mem_path state_path b uid vm_id d l i a =
    let n : o.tap_device ≡ "" = tap_kept sdk.launch (without_tap given) o d in
    let (p, h) =
      built-ok sdk (without_tap given) o (some (mem_path, state_path, true)) b uid vm_id d l i n
        a in
    let made : Booted sdk (without_tap given) (some (mem_path, state_path, true)) p.0 p.1 =
      built-Booted sdk (without_tap given) _ b p h in
    (
      p,
      h,
      made,
      no_interface sdk made.o _ _ (tap_kept sdk.launch (without_tap given) made.o made.defaulted)
          made.wires,
    )
