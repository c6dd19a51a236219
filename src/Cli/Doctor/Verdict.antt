-- ===== src/Cli/Doctor/Verdict.antt =====
-- cmd/sandbox/doctor.go: what the checks make of the environment.
use web_sandbox.Cli.Doctor.{
  Env, Item, Tally, check, items, run_doctor, run_item, run_items, says, verdict, warn_check,
}
use Prim.Native.String.{◌++◌ as str_append}
use web_sandbox.Config.{Config}
use web_sandbox.Common.{
  Bool, List, Result, String, [], ap, arith, err, false, nat_eq, ok, refl, true, ℕ, ◌&&◌, ◌+◌, ◌==◌,
  ◌∙◌, ◌∷◌, ◌≡◌, Eq-String,
}

-- What the server cannot do without.
abbrev pub has_required : Env → Config → Bool
has_required env cfg =
    (env.goos == "linux")
    && env.exists "/dev/kvm"
    && env.exists cfg.firecracker_bin
    && env.exists cfg.kernel_image
    && env.exists cfg.rootfs_base
    && env.exists (str_append "/sys/class/net/" cfg.bridge)

abbrev pub succeeds : Result String (Unit {0}) → Bool
succeeds (ok u) = true
succeeds (err e) = false

abbrev failing : Item → ℕ
failing (says l) = 0
failing (check name (ok detail)) = 0
failing (check name (err e)) = 1
failing (warn_check name r) = 0

abbrev all_failing : List Item → ℕ
all_failing [] = 0
all_failing (i ∷ is) = failing i + all_failing is

run_item-fail : (i : Item) (t : Tally) → (run_item i t).fail ≡ t.fail + failing i
run_item-fail (says l) t = omega arith
run_item-fail (check name (ok detail)) t = omega arith
run_item-fail (check name (err e)) t = refl
run_item-fail (warn_check name (ok detail)) t = omega arith
run_item-fail (warn_check name (err e)) t = omega arith

run_items-fail : (is : List Item) (t : Tally) → (run_items is t).fail ≡ t.fail + all_failing is
unfolding run_items
run_items-fail [] t = omega arith
run_items-fail (i ∷ is) t = omega (arith, run_items-fail is (run_item i t), run_item-fail i t)

-- How many checks there are.
abbrev checks_of : Item → ℕ
checks_of (says l) = 0
checks_of (check name r) = 1
checks_of (warn_check name r) = 1

abbrev all_checks : List Item → ℕ
all_checks [] = 0
all_checks (i ∷ is) = checks_of i + all_checks is

abbrev pub counted : Tally → ℕ
counted t = t.pass + t.fail + t.warn

run_item-counted : (i : Item) (t : Tally) → counted (run_item i t) ≡ counted t + checks_of i
run_item-counted (says l) t = omega arith
run_item-counted (check name (ok detail)) t = omega arith
run_item-counted (check name (err e)) t = omega arith
run_item-counted (warn_check name (ok detail)) t = omega arith
run_item-counted (warn_check name (err e)) t = omega arith

run_items-counted :
    (is : List Item) (t : Tally) → counted (run_items is t) ≡ counted t + all_checks is
unfolding run_items
run_items-counted [] t = omega arith
run_items-counted (i ∷ is) t =
    omega (arith, run_items-counted is (run_item i t), run_item-counted i t)

verdict-succeeds : (t : Tally) → succeeds (verdict t).1 ≡ nat_eq t.fail 0
unfolding verdict
verdict-succeeds t = ground arith

required_failing :
    (env : Env) (cfg : Config) → nat_eq (all_failing (items env cfg)) 0 ≡ has_required env cfg
unfolding items
required_failing env cfg = ground arith

-- With a configuration, doctor succeeds exactly if the system is linux and /dev/kvm, the Firecracker
-- binary, the kernel, the base image and the bridge are there, whatever the other checks say; and its
-- last line is made of counters that account for each of the ten checks.
pub run_doctor-succeeds :
    (env : Env) (cfg : Config)
    → (succeeds (run_doctor env (ok cfg)).1 ≡ has_required env cfg)
      × ((t : Tally) × (run_doctor env (ok cfg) ≡ verdict t) × (counted t ≡ 10))
unfolding run_doctor items
run_doctor-succeeds env cfg =
    let start : Tally = record { lines = []; pass = 0; fail = 0; warn = 0 } in
    let t : Tally = run_items (items env cfg) start in
    let fails : t.fail ≡ all_failing (items env cfg) =
      run_items-fail (items env cfg) start ∙ omega arith in
    (
      verdict-succeeds t ∙ ap (λ n. nat_eq n 0) fails ∙ required_failing env cfg,
      (t, refl, run_items-counted (items env cfg) start),
    )
