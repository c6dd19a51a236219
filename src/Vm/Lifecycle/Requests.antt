-- ===== src/Vm/Lifecycle/Requests.antt =====
-- internal/vm/machine_linux.go: what the lifecycle calls ask of a machine.
use web_sandbox.Vm.Lifecycle.{
  Action, Asked, Machine, Op, RawMachine, MachineCall, after_ops, apply, ask, by_sdk,
  write_snapshot, if_sdk, nil_machine, pause, pauses, resume, resumes, shut_down_one,
  shutdown_guest, shutdown_vm, shuts_down, sigterm, snapshot, snapshots, start, start_vm, starts,
  stop_force, stop_one, stop_vmm, stops, terminate, wait, wait_one, wait_vm, waits, pause_vm,
  resume_vm,
}
use web_sandbox.Common.{
  All, Option, Result, String, List, none, some, refl, subst, sym, [], ◌++◌, ◌∷◌, ◌≡◌, ℕ, pure,
}

-- What a machine may be asked: its own process gets the signal, and what is for the SDK goes to one.
abbrev pub IsFor : Option Machine → MachineCall → Type 0
IsFor none r = ⊥
IsFor (some m) (sigterm id) = (raw : RawMachine) × (m.raw ≡ some raw) × (raw.process ≡ some id)
IsFor (some m) r = (id : Result String ℕ) × (m.sdk ≡ some id)

module _ {A : Type 0} (P : A → Type 0) where
  All-snoc : (xs : List A) (x : A) → All P xs → P x → All P (xs ++ (x ∷ []))
  All-snoc [] x h p = (p, tt)
  All-snoc (y ∷ ys) x h p = (h.0, All-snoc ys x h.1 p)

module _ (m : Option Machine) where
  -- What was sent is for the machine.
  abbrev pub IsSentTo : Asked → Type 0
  IsSentTo s = All (IsFor m) s.sent

  ask-IsFor : (r : MachineCall) (s : Asked) → IsSentTo s → IsFor m r → IsSentTo (ask r s).1
  unfolding ask
  ask-IsFor r s h p = All-snoc (IsFor m) s.sent r h p

module _ (m : Machine) where
  if_sdk-IsFor :
      (o : Option (Result String ℕ)) (otherwise : Action (Unit {0})) (r : MachineCall) (s : Asked)
      → ((id : Result String ℕ) → o ≡ some id → IsFor (some m) r)
      → (otherwise s).1 ≡ s
      → IsSentTo (some m) s
      → IsSentTo (some m) (if_sdk o otherwise r s).1
  if_sdk-IsFor none otherwise r s p same h = subst (IsSentTo (some m)) (sym same) h
  if_sdk-IsFor (some id) otherwise r s p same h = ask-IsFor (some m) r s h (p id refl)

  by_sdk-IsFor :
      (r : MachineCall) (s : Asked)
      → ((id : Result String ℕ) → m.sdk ≡ some id → IsFor (some m) r)
      → IsSentTo (some m) s
      → IsSentTo (some m) (by_sdk r (some m) s).1
  unfolding by_sdk
  by_sdk-IsFor r s p h = if_sdk-IsFor m.sdk nil_machine r s p refl h

  terminate-IsFor :
      (o : Option ℕ) (s : Asked)
      → ((id : ℕ) → o ≡ some id → IsFor (some m) (sigterm id))
      → IsSentTo (some m) s
      → IsSentTo (some m) (terminate o s).1
  terminate-IsFor none s p h = h
  terminate-IsFor (some id) s p h = ask-IsFor (some m) (sigterm id) s h (p id refl)

  stop_one-IsFor :
      (o : Option RawMachine) (s : Asked)
      → m.raw ≡ o
      → IsSentTo (some m) s
      → IsSentTo (some m) (stop_one o m s).1
  stop_one-IsFor (some raw) s e h = terminate-IsFor raw.process s (λ id k. (raw, e, k)) h
  stop_one-IsFor none s e h = if_sdk-IsFor m.sdk (pure tt) stop_vmm s (λ id k. (id, k)) refl h

  stop_force-IsFor : (s : Asked) → IsSentTo (some m) s → IsSentTo (some m) (stop_force (some m) s).1
  unfolding stop_force
  stop_force-IsFor s h = stop_one-IsFor m.raw s refl h

  shut_down_one-IsFor :
      (o : Option RawMachine) (s : Asked)
      → IsSentTo (some m) s
      → IsSentTo (some m) (shut_down_one o m s).1
  shut_down_one-IsFor (some raw) s h = stop_force-IsFor s h
  shut_down_one-IsFor none s h = by_sdk-IsFor shutdown_vm s (λ id k. (id, k)) h

  wait_one-IsFor :
      (o : Option RawMachine) (cause : String) (s : Asked)
      → IsSentTo (some m) s
      → IsSentTo (some m) (wait_one o m cause s).1
  wait_one-IsFor (some raw) cause s h = h
  wait_one-IsFor none cause s h = by_sdk-IsFor wait_vm s (λ id k. (id, k)) h

  apply-IsFor :
      (op : Op) (s : Asked) → IsSentTo (some m) s → IsSentTo (some m) (apply (some m) op s).1
  unfolding apply start pause resume snapshot wait shutdown_guest
  apply-IsFor starts s h = by_sdk-IsFor start_vm s (λ id e. (id, e)) h
  apply-IsFor stops s h = stop_force-IsFor s h
  apply-IsFor shuts_down s h = shut_down_one-IsFor m.raw s h
  apply-IsFor (waits cause) s h = wait_one-IsFor m.raw cause s h
  apply-IsFor pauses s h = by_sdk-IsFor pause_vm s (λ id e. (id, e)) h
  apply-IsFor resumes s h = by_sdk-IsFor resume_vm s (λ id e. (id, e)) h
  apply-IsFor (snapshots mem_path state_path) s h =
      by_sdk-IsFor (write_snapshot mem_path state_path) s (λ id e. (id, e)) h

-- A nil machine is asked nothing.
apply-nil : (op : Op) (s : Asked) → (apply none op s).1 ≡ s
unfolding apply start pause resume snapshot wait shutdown_guest stop_force by_sdk
apply-nil starts s = refl
apply-nil stops s = refl
apply-nil shuts_down s = refl
apply-nil (waits cause) s = refl
apply-nil pauses s = refl
apply-nil resumes s = refl
apply-nil (snapshots mem_path state_path) s = refl

-- After any sequence of calls for a machine, which may be nil, if all that was sent before was for it,
-- all that has been sent is: a signal went to the process of this clone, the rest to an SDK machine
-- that is there. So a clone, which has none, is sent signals only.
pub after_ops-IsSentTo :
    (m : Option Machine) (ops : List Op) (s : Asked) → IsSentTo m s → IsSentTo m (after_ops m ops s)
unfolding after_ops
after_ops-IsSentTo m [] s h = h
after_ops-IsSentTo none (op ∷ ops) s h =
    after_ops-IsSentTo none ops (apply none op s).1 (subst (IsSentTo none) (sym (apply-nil op s)) h)
after_ops-IsSentTo (some m) (op ∷ ops) s h =
    after_ops-IsSentTo (some m) ops (apply (some m) op s).1 (apply-IsFor m op s h)
