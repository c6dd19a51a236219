-- ===== src/Server/Sandboxes/Booting.antt =====
-- internal/server/server.go: from the start of the machine to the answer.
use web_sandbox.Registry.Engine.{Conn, find_sandbox, is_running}
use web_sandbox.Registry.Invariant.{IsConsistent}
use web_sandbox.Registry.History.{after_call, after_call-IsConsistent, finishes}
use web_sandbox.Registry.Ops.{finish_start}
use web_sandbox.Registry.Ops.Updates.{update_existing-Ensures}
use web_sandbox.Registry.Types.{Sandbox, SandboxRow}
use web_sandbox.Server.Host.Tracks.{Track, release-Track, Track-held, Track-weaken}
use web_sandbox.Server.Host.Rules.{acquire-Ends, attempt-Ends, registry-Ends, step-Ends}
use web_sandbox.Server.Host.{
  Held, Host, Settings, acquire, add_port_forward_to, attempt, disk, output, prerouting, process,
  registry, remove_port_forward_to, tap, Eq-Held, on_error,
}
use web_sandbox.Server.Sandboxes.{
  add_port_forward, boot, destroy_quietly, remove_port_forward, rollback_pre_vm, stop_and_roll_back,
  running_as, track,
}
use web_sandbox.Server.Sandboxes.Possessions.{Matches, forwards_of, possessions, Rowed}
use web_sandbox.Server.Sandboxes.Tracking.{
  Left, owns, rollback_pre_vm-Left, stop_and_roll_back-Left,
}
use web_sandbox.Server.Timeouts.{find_sandbox-update}
use web_sandbox.Common.{
  Ends, Ends-bind, Ends-mono, Ends-and, List, String, [], arith, beq_refl, contains, inl, inr, refl,
  some, true, ◌==◌, ◌∷◌, ◌≡◌, Eq-String, pure, ◌>>◌, ap, subst, sym, ◌∙◌, ◌||◌,
}
use web_sandbox.Server.Sandboxes.Answering.{
  Running, Failed, await-Running, RuleFails, nothing_left, rules_left,
}
use web_sandbox.Server.Host.Acts.{At, acquire-Acts, attempt-Acts}

module _ (cfg : Settings) (id : String) (sb : Sandbox) (before : Host) where
  -- The state in which NewMachine is called: the disk and the tap are there, and the row.
  pub record Prepared (c : Conn) (s : Host) : Type 0 where
    pub consistent : IsConsistent c.db
    pub row : SandboxRow
    pub found : find_sandbox id c.db ≡ some row
    pub named : Matches sb row
    pub holding :
        Track
          (owns id sb)
          (tap sb.tap_device ∷ disk sb.rootfs_path ∷ [])
          (tap sb.tap_device ∷ disk sb.rootfs_path ∷ [])
          before
          c
          s

  pub finish_start-row :
      (c : Conn)
      → Rowed id sb c
      → Ends
          (λ _ c'. Rowed id sb c')
          (λ e c'. IsConsistent c'.db × (c'.db ≡ c.db))
          (finish_start id (cfg.pid_of id) (cfg.vm_id_of id) (cfg.socket_of id) c)
  unfolding finish_start after_call is_running
  finish_start-row c (v, (r, found, m)) =
      let w : IsConsistent
          (finish_start id (cfg.pid_of id) (cfg.vm_id_of id) (cfg.socket_of id) c).1.db =
        after_call-IsConsistent cfg.pools
          (finishes id (cfg.pid_of id) (cfg.vm_id_of id) (cfg.socket_of id)) c v in
      Ends-mono _ _ _ _ _ (update_existing-Ensures id _ c)
        (λ _ _ h. (
          w,
          (
            _,
            ap (find_sandbox id) h.1 ∙ find_sandbox-update id _ c.db r (λ q. refl) found,
            record {
              path = m.path;
              tap_name = m.tap_name;
              ip = m.ip;
              port = m.port;
              running = m.running;
            },
          ),
        ))
        (λ e _ h. (w, h))

  -- StopForce and rollbackPreVM, with what they leave.
  cleaned :
      {may must : List Held} {s₀ : Host} (c : Conn)
      → Prepared c s₀
      → (may' : List Held) (s : Host)
      → ((h : Held)
          → contains may h ≡ true
          → (process id == h
              || (tap sb.tap_device == h || (disk sb.rootfs_path == h || contains may' h)))
            ≡ true)
      → Track (owns id sb) may must before c s
      → Left (owns id sb) may' before (stop_and_roll_back id sb s)
  cleaned c p may' s m t =
      stop_and_roll_back-Left cfg.pools p.consistent id sb may' s (beq_refl id)
        (beq_refl sb.tap_device) (beq_refl sb.rootfs_path) m t

  pub add_port_forward-Ends :
      (c : Conn) (s : Host)
      → Track
          (owns id sb)
          (process id ∷ tap sb.tap_device ∷ disk sb.rootfs_path ∷ [])
          (process id ∷ tap sb.tap_device ∷ disk sb.rootfs_path ∷ [])
          before
          c
          s
      → Ends
          (λ _ s'. Track (owns id sb) (possessions cfg id sb) (possessions cfg id sb) before c s')
          (λ _ s'. Track (owns id sb) (possessions cfg id sb) [] before c s')
          (add_port_forward cfg sb s)
  unfolding add_port_forward add_port_forward_to contains
  add_port_forward-Ends c s t =
      Ends-bind (acquire (prerouting sb.host_port sb.guest_ip cfg.guest_port)) _ s (
        Ends-mono _ _ _ _ _
          (acquire-Ends (prerouting sb.host_port sb.guest_ip cfg.guest_port) s
            (beq_refl sb.guest_ip) t)
          (λ _ _ h.
            acquire-Ends (output sb.host_port sb.guest_ip cfg.guest_port) _ (beq_refl sb.guest_ip)
              h)
          (λ _ _ h. Track-weaken _ _ _ (λ x k. k) (λ x k. ground arith) h))

  -- The two rules are the calls 7 and 8.
  add_port_forward-Acts :
      (s : Host)
      → At before 7 s
      → Ends
          (λ _ s'. At before 9 s')
          (λ _ s'. RuleFails cfg id sb before)
          (add_port_forward cfg sb s)
  unfolding add_port_forward add_port_forward_to
  add_port_forward-Acts s at_ =
      Ends-bind (acquire (prerouting sb.host_port sb.guest_ip cfg.guest_port)) _ s (
        Ends-mono _ _ _ _ _
          (acquire-Acts before (prerouting sb.host_port sb.guest_ip cfg.guest_port) 7 s at_)
          (λ _ _ h.
            Ends-mono _ _ _ _ _
              (acquire-Acts before (output sb.host_port sb.guest_ip cfg.guest_port) 8 _ h.1)
              (λ _ _ k. k.1) (λ _ _ k. inr (h.0, k)))
          (λ _ _ h. inl h))

  finished :
      {s₀ : Host} (c : Conn) (s : Host)
      → Prepared c s₀
      → Track (owns id sb) (possessions cfg id sb) (possessions cfg id sb) before c s
      → At before 9 s
      → Ends
          (λ sb' s'. (sb' ≡ running_as cfg id sb) × Running cfg id sb before s'.conn s')
          (λ _ s'. Failed cfg id sb before s')
          ((do
            on_error
                (registry 500
                  (finish_start id (cfg.pid_of id) (cfg.vm_id_of id) (cfg.socket_of id)))
                (λ s'. stop_and_roll_back id sb (remove_port_forward cfg sb s'))
            track id
            on_error attempt (destroy_quietly cfg id)
            pure (running_as cfg id sb))
            s)
  unfolding remove_port_forward remove_port_forward_to contains
  finished c s p t at_ =
      step-Ends
        (λ _ s'.
          Running cfg id sb before s'.conn (record s' { machines = id ∷ s'.machines })
          × At before 9 s')
        (λ _ s'. Left (owns id sb) (possessions cfg id sb) before s') _ _ _ s
        (registry-Ends _ _ 500
          (finish_start id (cfg.pid_of id) (cfg.vm_id_of id) (cfg.socket_of id)) s
          (finish_start-row s.conn
            (subst (Rowed id sb) (sym t.conn_is) (p.consistent, (p.row, p.found, p.named))))
          (λ _ c' h. (
            record {
              consistent = h.0;
              tracked = ground (arith, beq_refl id);
              row = h.1.0;
              found = h.1.1;
              named = h.1.2;
              holding = Track-held s _ refl t;
            },
            at_,
          ))
          (λ e c' v. (v.0, Track-weaken _ _ _ (λ x k. k) (λ x k. k) (Track-held s _ refl t))))
        (λ _ s' h. await-Running cfg id sb before s'.conn _ h.0 h.1)
        (λ e s' h. nothing_left (
          stop_and_roll_back-Left cfg.pools h.0 id sb [] _ (beq_refl id) (beq_refl sb.tap_device)
            (beq_refl sb.rootfs_path) (λ x k. k)
            (release-Track (output sb.host_port sb.guest_ip cfg.guest_port)
              (process id ∷ tap sb.tap_device ∷ disk sb.rootfs_path ∷ []) _ (beq_refl sb.guest_ip)
              (λ x k. k)
              (release-Track (prerouting sb.host_port sb.guest_ip cfg.guest_port)
                (output sb.host_port sb.guest_ip cfg.guest_port
                  ∷ process id
                  ∷ tap sb.tap_device
                  ∷ disk sb.rootfs_path
                  ∷ [])
                _ (beq_refl sb.guest_ip) (λ x k. ground arith) h.1))))

  -- Whatever fails, all that was taken is released again, but for a rule of a forwarding that could
  -- not be finished; and if the sandbox cannot be destroyed in the end it still runs.
  pub boot-Ends :
      (c : Conn) (s : Host)
      → Prepared c s
      → At before 4 s
      → Ends
          (λ sb' s'. (sb' ≡ running_as cfg id sb) × Running cfg id sb before s'.conn s')
          (λ _ s'. Failed cfg id sb before s')
          (boot cfg id sb s)
  unfolding boot contains
  boot-Ends c s p at_ =
      step-Ends _ _ attempt (rollback_pre_vm id sb) _ s
        (Ends-and (attempt s) (attempt-Ends s p.holding) (attempt-Acts before 4 s at_))
        (λ _ s₁ h₁.
          step-Ends _ _ (acquire (process id)) (stop_and_roll_back id sb) _ s₁
            (Ends-and (acquire (process id) s₁) (acquire-Ends (process id) s₁ (beq_refl id) h₁.0.0)
              (acquire-Acts before (process id) 5 s₁ h₁.1.1))
            (λ _ s₂ h₂.
              step-Ends _ _ attempt (stop_and_roll_back id sb) _ s₂
                (Ends-and (attempt s₂) (attempt-Ends s₂ h₂.0) (attempt-Acts before 6 s₂ h₂.1.1))
                (λ _ s₃ h₃.
                  step-Ends _ _ (add_port_forward cfg sb) (stop_and_roll_back id sb) _ s₃
                    (Ends-and (add_port_forward cfg sb s₃) (add_port_forward-Ends c s₃ h₃.0.0)
                      (add_port_forward-Acts s₃ h₃.1.1))
                    (λ _ s₄ h₄. finished c s₄ p h₄.0 h₄.1)
                    (λ e s₄ h.
                      rules_left h.1
                        (cleaned c p (forwards_of cfg sb) s₄ (λ x k. ground arith) h.0)))
                (λ e s₃ h. nothing_left (cleaned c p [] s₃ (λ x k. ground arith) h.0.0)))
            (λ e s₂ h. nothing_left (cleaned c p [] s₂ (λ x k. ground arith) h.0)))
        (λ e s₁ h. nothing_left (
          rollback_pre_vm-Left cfg.pools p.consistent id sb [] s₁ (beq_refl sb.tap_device)
            (beq_refl sb.rootfs_path) (λ x k. ground arith) h.0.0))
