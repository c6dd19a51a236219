-- ===== src/Cli/Doctor.antt =====
-- cmd/sandbox/doctor.go: the checks of the environment. What the system and Firecracker answer is an
-- argument; a printed line keeps its texts and not its colours.
pub mod Verdict
use Prim.Native.String.{◌++◌ as str_append}
use web_sandbox.Common.Decimal.{itoa}
use web_sandbox.Config.{Config}
use web_sandbox.Common.{
  Bool, List, Option, Result, String, [], ap, arith, err, false, if◌then◌else◌, ltb, nat_eq, none,
  ok, refl, some, true, ℕ, ◌&&◌, ◌++◌, ◌+◌, ◌==◌, ◌∙◌, ◌∷◌, ◌≡◌, Eq-String, not, put, ◌/◌,
}

-- os.Stat, the run of `firecracker --version`, os.ReadFile, net.Dial, the calls of probeReflink, and
-- the functions of strings.
pub record Env : Type 0 where
  pub goos : String
  pub goarch : String
  pub exists : String → Bool
  pub version : String → Option String
  pub reads : String → Result String (List ℕ)
  pub dial : String → Result String (Unit {0})
  pub make_dir : String → Result String (Unit {0})
  pub create_temp : String → Result String String
  pub reflink : String → String → Result String (Unit {0})
  pub trim_space : String → String
  pub first_line : String → String

pub data Line : Type 0 where
  blank : Line
  heading : String → Line
  passed : String → String → Line
  failed : String → String → Line
  warned : String → String → Line
  some_failed : ℕ → ℕ → ℕ → Line
  some_warned : ℕ → ℕ → Line
  all_passed : ℕ → Line

-- The lines and the counters of runDoctor.
pub record Tally : Type 0 where
  pub lines : List Line
  pub pass : ℕ
  pub fail : ℕ
  pub warn : ℕ

-- What runDoctor does in its order: it prints a line, or makes a check or a check that only warns.
pub data Item : Type 0 where
  says : Line → Item
  check : String → Result String String → Item
  warn_check : String → Result String String → Item

abbrev printed : Line → Tally → Tally
printed l t = record t { lines = t.lines ++ (l ∷ []) }

abbrev pub run_item : Item → Tally → Tally
run_item (says l) t = printed l t
run_item (check name (ok detail)) t = record (printed (passed name detail) t) { pass = t.pass + 1 }
run_item (check name (err e)) t = record (printed (failed name e) t) { fail = t.fail + 1 }
run_item (warn_check name (ok detail)) t = record (printed (passed name detail) t) {
  pass = t.pass + 1;
}
run_item (warn_check name (err e)) t = record (printed (warned name e) t) { warn = t.warn + 1 }

unfoldable pub run_items : List Item → Tally → Tally
run_items [] t = t
run_items (i ∷ is) t = run_items is (run_item i t)

abbrev pub parenthesised : String → String
parenthesised s = str_append " (" (str_append s ")")

abbrev pub found_at : Env → String → String → String → Result String String
found_at env path detail missing = if env.exists path then ok detail else err missing

abbrev pub checked_version : Env → Option String → Result String String
checked_version env (some out) = ok (parenthesised (env.first_line (env.trim_space out)))
checked_version env none = err "could not determine"

-- Either file is removed again.
unfoldable pub probe_reflink : Env → String → Result String (Unit {0}) × List String
probe_reflink env dir = elim (env.make_dir dir) [
  | err e ↦ (err e, [])
  | ok u ↦ elim (env.create_temp dir) [
    | err e ↦ (err e, [])
    | ok src ↦
        let dst = str_append src ".clone" in
        (
          elim (env.reflink src dst) [ ok u ↦ ok tt | err out ↦ err (env.trim_space out) ],
          dst ∷ src ∷ [],
        )
  ]
]

abbrev pub reflinked : Config → Result String (Unit {0}) → Result String String
reflinked cfg (ok u) = ok (parenthesised (str_append cfg.rootfs_dir " supports cp --reflink"))
reflinked cfg (err e) = err (
    str_append cfg.rootfs_dir (
      str_append
        " can't reflink — rootfs/restore/fan-out fall back to a full copy (put it on XFS/btrfs): "
        e))

-- The first byte is '1'.
abbrev pub forwards : Result String (List ℕ) → Result String String
forwards (err e) = err (str_append "could not read ip_forward: " e)
forwards (ok []) = err "disabled — run: sysctl -w net.ipv4.ip_forward=1"
forwards (ok (b ∷ bs)) =
    if nat_eq b 49 then ok "" else err "disabled — run: sysctl -w net.ipv4.ip_forward=1"

abbrev pub dialed : Config → Result String (Unit {0}) → Result String String
dialed cfg (ok u) = ok (parenthesised cfg.socket_path)
dialed cfg (err e) = err (str_append "cannot dial: " e)

abbrev pub not_at : String → String
not_at path = str_append "not found at " path

unfoldable pub items : Env → Config → List Item
unfolding probe_reflink
items env cfg =
    says blank
    ∷ says (heading "sandbox doctor")
    ∷ says blank
    ∷ says (heading "Platform")
    ∷ check "Linux" (
        if env.goos == "linux"
        then ok (parenthesised (str_append env.goos (str_append "/" env.goarch)))
        else err (str_append "running on " (str_append env.goos " (need linux)")))
    ∷ check "KVM"
        (found_at env "/dev/kvm" " (/dev/kvm)" "/dev/kvm not accessible — is KVM enabled?")
    ∷ says blank
    ∷ says (heading "Firecracker")
    ∷ check "Binary" (
        found_at env cfg.firecracker_bin (parenthesised cfg.firecracker_bin)
          (not_at cfg.firecracker_bin))
    ∷ warn_check "Version" (checked_version env (env.version cfg.firecracker_bin))
    ∷ says blank
    ∷ says (heading "Guest assets")
    ∷ check "Kernel"
        (found_at env cfg.kernel_image (parenthesised cfg.kernel_image) (not_at cfg.kernel_image))
    ∷ check "Base rootfs" (
        found_at env cfg.rootfs_base (parenthesised cfg.rootfs_base)
          (str_append (not_at cfg.rootfs_base) " — run build-devbox-rootfs.sh"))
    ∷ warn_check "Reflink CoW" (reflinked cfg (probe_reflink env cfg.rootfs_dir).0)
    ∷ says blank
    ∷ says (heading "Networking")
    ∷ check (str_append "Bridge" (parenthesised cfg.bridge)) (
        found_at env (str_append "/sys/class/net/" cfg.bridge) ""
          (str_append cfg.bridge " not found — run setup-network.sh"))
    ∷ warn_check "IP forwarding" (forwards (env.reads "/proc/sys/net/ipv4/ip_forward"))
    ∷ says blank
    ∷ says (heading "Server")
    ∷ warn_check "API socket" (
        if env.exists cfg.socket_path
        then dialed cfg (env.dial cfg.socket_path)
        else err "not present — server not running")
    ∷ says blank
    ∷ []

-- The last lines, and what is returned.
unfoldable pub verdict : Tally → List Line × Result String (Unit {0})
verdict t =
    if ltb 0 t.fail
    then (
      t.lines ++ (some_failed t.fail t.pass t.warn ∷ []),
      err (str_append (itoa t.fail) " check(s) failed"),
    )
    else if ltb 0 t.warn
    then (t.lines ++ (some_warned t.pass t.warn ∷ []), ok tt)
    else (t.lines ++ (all_passed t.pass ∷ []), ok tt)

unfoldable pub run_doctor : Env → Result String Config → List Line × Result String (Unit {0})
unfolding items run_items verdict
run_doctor env (err e) = ([], err (str_append "load config: " e))
run_doctor env (ok cfg) =
    verdict (run_items (items env cfg) (record { lines = []; pass = 0; fail = 0; warn = 0 }))
