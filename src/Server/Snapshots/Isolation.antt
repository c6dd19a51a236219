-- ===== src/Server/Snapshots/Isolation.antt =====
-- internal/server/snapshot.go: bringUpClone and finishClone leave everything alone but their clone.
use web_sandbox.Registry.Types.{Sandbox}
use web_sandbox.Registry.Ops.{destroy, finish_start}
use web_sandbox.Server.Host.{
  Host, Outcome, done, refused, broken, Settings, acquire, attempt, create_tap_unbridged, quietly,
  release, on_error, disk, tap, process, Held, Act, Eq-Held, add_port_forward_to, prerouting,
  output,
}
use web_sandbox.Server.Sandboxes.{rollback_pre_vm, add_port_forward, track}
use web_sandbox.Server.Sandboxes.Elsewhere.{
  Concerns, Elsewhere, Stays, Stays-acquire, Stays-attempt, Stays-bind, Stays-on_error,
  Stays-registry, Elsewhere-same, Elsewhere-trans, release-Elsewhere,
}
use web_sandbox.Server.Sandboxes.Concerning.{destroy-Concerns, finish_start-Concerns}
use web_sandbox.Server.Sandboxes.Possessions.{apart}
use web_sandbox.Server.Sandboxes.Tracking.{owns}
use web_sandbox.Server.Snapshots.{finish_clone, process_started, start_clone, start_process}
use web_sandbox.Common.{
  List, String, [], arith, beq_refl, contains, refl, ◌+◌, ◌∷◌, Eq-String, Bool, eq_iff, pure, ◌>>◌,
  ◌>>=◌,
}

-- What a clone holds when it has been resumed.
abbrev pub resumed : String → Sandbox → List Held
resumed id sb = process id ∷ tap sb.tap_device ∷ disk sb.rootfs_path ∷ []

module _ (cfg : Settings) (id : String) (sb : Sandbox) where
  quietly-Elsewhere : (s : Host) → Elsewhere (owns id sb) id s (quietly (destroy id) s)
  unfolding quietly
  quietly-Elsewhere s =
      let c : Concerns id s.conn (destroy id s.conn).1 = destroy-Concerns cfg.pools id s.conn in
      record {
        frame = λ h _. refl;
        rows = c.rows;
        tracks = λ other _. refl;
        consistent = c.consistent;
      }

  rollback_pre_vm-Elsewhere : (s : Host) → Elsewhere (owns id sb) id s (rollback_pre_vm id sb s)
  unfolding rollback_pre_vm
  rollback_pre_vm-Elsewhere s =
      let s₁ : Host = release (tap sb.tap_device) s in
      let s₂ : Host = release (disk sb.rootfs_path) s₁ in
      Elsewhere-trans _ _ s s₂ _
        (Elsewhere-trans _ _ s s₁ s₂
          (release-Elsewhere _ _ (tap sb.tap_device) s (beq_refl sb.tap_device))
          (release-Elsewhere _ _ (disk sb.rootfs_path) s₁ (beq_refl sb.rootfs_path)))
        (quietly-Elsewhere s₂)

  process_started-Elsewhere :
      (o : Outcome) (s : Host) → Elsewhere (owns id sb) id s (process_started id o s).1
  unfolding contains
  process_started-Elsewhere done s = record {
    frame = λ h k. ground (arith, apart id sb (process id) h (beq_refl id) k);
    rows = λ other _. refl;
    tracks = λ other _. refl;
    consistent = λ v. v;
  }
  process_started-Elsewhere refused s = Elsewhere-same _ _ s s refl refl refl
  process_started-Elsewhere broken s = Elsewhere-same _ _ s s refl refl refl

  start_process-Stays : Stays (owns id sb) id (start_process id)
  unfolding start_process
  start_process-Stays = record {
    stays = λ s.
        let counted : Host = record s { acts = s.acts + 1 } in
        Elsewhere-trans _ _ s counted _ (Elsewhere-same _ _ s counted refl refl refl)
          (process_started-Elsewhere (s.outcomes s.acts) counted);
  }

  attempts-Stays : Stays (owns id sb) id (do attempt; attempt; attempt; attempt; attempt)
  attempts-Stays =
      let own : Held → Bool = owns id sb in
      let one : Stays own id attempt = Stays-attempt own id in
      Stays-bind own id attempt _ one (λ _.
        Stays-bind own id attempt _ one
          (λ _. Stays-bind own id attempt _ one (λ _. Stays-bind own id attempt _ one (λ _. one))))

  start_clone-Stays : Stays (owns id sb) id (start_clone id)
  unfolding start_clone
  start_clone-Stays = Stays-bind (owns id sb) id (start_process id) _ start_process-Stays (λ _.
      Stays-on_error (owns id sb) id _ (release (process id)) attempts-Stays
        (λ t. release-Elsewhere _ _ (process id) t (beq_refl id)))

  -- bringUpClone once the row is there.
  abbrev pub set_up : Act Sandbox
  set_up = do
    on_error (acquire (disk sb.rootfs_path)) (rollback_pre_vm id sb)
    on_error (create_tap_unbridged sb.tap_device) (rollback_pre_vm id sb)
    on_error (start_clone id) (rollback_pre_vm id sb)
    pure sb

  or_rolled_back :
      {A B : Type 0} (m : Act A) (k : A → Act B)
      → Stays (owns id sb) id m
      → ((a : A) → Stays (owns id sb) id (k a))
      → Stays (owns id sb) id (on_error m (rollback_pre_vm id sb) >>= k)
  or_rolled_back m k h g =
      Stays-bind (owns id sb) id (on_error m (rollback_pre_vm id sb)) k
        (Stays-on_error (owns id sb) id m _ h rollback_pre_vm-Elsewhere) g

  create_tap_unbridged-Stays : Stays (owns id sb) id (create_tap_unbridged sb.tap_device)
  unfolding create_tap_unbridged
  create_tap_unbridged-Stays =
      Stays-bind (owns id sb) id (acquire (tap sb.tap_device)) _
        (Stays-acquire (owns id sb) id (tap sb.tap_device) (beq_refl sb.tap_device))
        (λ _. Stays-attempt (owns id sb) id)

  pub set_up-Stays : Stays (owns id sb) id set_up
  set_up-Stays =
      or_rolled_back (acquire (disk sb.rootfs_path)) _
        (Stays-acquire (owns id sb) id (disk sb.rootfs_path) (beq_refl sb.rootfs_path))
        (λ _. or_rolled_back (create_tap_unbridged sb.tap_device) _ create_tap_unbridged-Stays (λ _.
          or_rolled_back (start_clone id) _ start_clone-Stays
            (λ _. record { stays = λ s. Elsewhere-same _ _ s s refl refl refl })))

  or_stopped :
      {A B : Type 0} (m : Act A) (k : A → Act B)
      → Stays (owns id sb) id m
      → ((a : A) → Stays (owns id sb) id (k a))
      → Stays (owns id sb) id (on_error m (release (process id)) >>= k)
  or_stopped m k h g =
      Stays-bind (owns id sb) id (on_error m (release (process id))) k
        (Stays-on_error (owns id sb) id m _ h
          (λ t. release-Elsewhere _ _ (process id) t (beq_refl id)))
        g

  track-Stays : Stays (owns id sb) id (track id)
  unfolding contains
  track-Stays = record {
    stays = λ s. record {
      frame = λ h _. refl;
      rows = λ other _. refl;
      tracks = λ other n. ground (arith, eq_iff other id, eq_iff id other);
      consistent = λ v. v;
    };
  }

  add_port_forward-Stays : Stays (owns id sb) id (add_port_forward cfg sb)
  unfolding add_port_forward add_port_forward_to
  add_port_forward-Stays =
      Stays-bind (owns id sb) id (acquire (prerouting sb.host_port sb.guest_ip cfg.guest_port)) _
        (Stays-acquire (owns id sb) id (prerouting sb.host_port sb.guest_ip cfg.guest_port)
          (beq_refl sb.guest_ip))
        (λ _.
          Stays-acquire (owns id sb) id (output sb.host_port sb.guest_ip cfg.guest_port)
            (beq_refl sb.guest_ip))

  pub finish_clone-Stays : Stays (owns id sb) id (finish_clone cfg id sb)
  unfolding finish_clone
  finish_clone-Stays =
      let one : Stays (owns id sb) id attempt = Stays-attempt (owns id sb) id in
      or_stopped attempt _ one (λ _. or_stopped attempt _ one (λ _.
        or_stopped (add_port_forward cfg sb) _ add_port_forward-Stays (λ _.
          or_stopped _ _
            (Stays-registry (owns id sb) id 500
              (finish_start id (cfg.pid_of id) (cfg.vm_id_of id) (cfg.socket_of id))
              (finish_start-Concerns cfg.pools id (cfg.pid_of id) (cfg.vm_id_of id)
                (cfg.socket_of id)))
            (λ _. Stays-bind (owns id sb) id (track id) _ track-Stays (λ _. one)))))
