-- ===== src/Server/Sandboxes/Answering.antt =====
-- internal/server/server.go: a sandbox that runs and has not been answered yet, which is destroyed when
-- its agent does not answer.
use web_sandbox.Registry.Engine.{Conn, find_sandbox}
use web_sandbox.Registry.Invariant.{IsConsistent}
use web_sandbox.Registry.Types.{Sandbox, SandboxRow}
use web_sandbox.Server.Host.Tracks.{Track, Track-held}
use web_sandbox.Server.Host.Rules.{attempt-Ends, step-Ends}
use web_sandbox.Server.Host.Acts.{At, EndsAs, Fails, attempt-Acts}
use web_sandbox.Registry.Engine.Rules.{IsUnreadable, LastCallFailed, tick}
use web_sandbox.Server.Host.{Host, Settings, done, attempt, Eq-Held, on_error}
use web_sandbox.Server.Sandboxes.{destroy_quietly, destroy_sandbox, running_as}
use web_sandbox.Server.Sandboxes.Destroying.{destroy_sandbox-TornDown, TornDown}
use web_sandbox.Server.Sandboxes.Possessions.{
  Matches, TornDown-Left, forwards_of, possessions, destroy_sandbox-IsConsistent,
}
use web_sandbox.Server.Sandboxes.Tracking.{Left, owns}
use web_sandbox.Common.{
  Ends, Ends-mono, Ends-ok, Ends-either, Ends-and, ◌≢◌, none, String, [], contains, inl, inr, refl,
  some, true, ◌≡◌, ◌⊎◌, Eq-String, pure, ◌>>◌, ap, subst, sym, ◌∙◌, Option,
}

not_missing : (o : Option SandboxRow) (r : SandboxRow) → o ≡ some r → o ≢ none
not_missing o r found missing = cc

module _ (cfg : Settings) (id : String) (sb : Sandbox) (before : Host) where
  -- The sandbox is in the table of machines, its row is found and it holds all its possessions;
  -- nothing else that is not its own has changed.
  pub record Running (c : Conn) (s : Host) : Type 0 where
    pub consistent : IsConsistent c.db
    pub tracked : contains s.machines id ≡ true
    pub row : SandboxRow
    pub found : find_sandbox id c.db ≡ some row
    pub named : Matches sb row
    pub holding : Track (owns id sb) (possessions cfg id sb) (possessions cfg id sb) before c s

  -- The calls of a creation are numbered from its start: the disk is 0, the tap 1 to 3, the machine 4 to
  -- 6, the rule in PREROUTING 7, that in OUTPUT 8, and the guest's agent is asked in 9.
  abbrev pub RuleFails : Type 0
  RuleFails = Fails before 7 ⊎ (EndsAs before 7 done × Fails before 8)

  -- What a creation that fails may leave: nothing; or rules of the forwarded port, if the call failed that
  -- was to add one of them; or the running sandbox, if the agent did not answer and the call of the driver
  -- failed that was to read the row for destroying it.
  pub data Failed (s : Host) : Type 0 where
    nothing_left : Left (owns id sb) [] before s → Failed s
    rules_left : RuleFails → Left (owns id sb) (forwards_of cfg sb) before s → Failed s
    still_running : Fails before 9 → LastCallFailed s.conn → Running s.conn s → Failed s

  attempt-Running :
      (c : Conn) (s : Host)
      → Running c s
      → Ends (λ _ s'. Running c s') (λ _ s'. Running c s') (attempt s)
  attempt-Running c s run =
      let still : (s' : Host)
          → Track (owns id sb) (possessions cfg id sb) (possessions cfg id sb) before c s'
            × (s'.machines ≡ s.machines)
          → Running c s' =
        λ s' h. record {
          consistent = run.consistent;
          tracked = ap (λ l. contains l id) h.1 ∙ run.tracked;
          row = run.row;
          found = run.found;
          named = run.named;
          holding = h.0;
        } in
      Ends-mono _ _ _ _ (attempt s) (attempt-Ends s run.holding) (λ _ _ h. still _ h)
        (λ _ _ h. still _ h)

  given_up :
      (c : Conn) (s : Host) → Fails before 9 → Running c s → Failed (destroy_quietly cfg id s)
  given_up c s silent run =
      let same : s.conn ≡ c = run.holding.conn_is in
      let found : find_sandbox id s.conn.db ≡ some run.row =
        ap (λ k. find_sandbox id k.db) same ∙ run.found in
      let v : IsConsistent (destroy_quietly cfg id s).conn.db =
        destroy_sandbox-IsConsistent cfg id s
          (subst (λ k. IsConsistent k.db) (sym same) run.consistent) in
      let gone : TornDown cfg id s (destroy_quietly cfg id s) → Failed (destroy_quietly cfg id s) =
        λ d. nothing_left (
          v,
          TornDown-Left cfg id sb before s _ c run.row run.tracked found run.named run.holding d,
        ) in
      let last_call : (c' : Conn) → IsUnreadable id s.conn → c' ≡ tick s.conn → LastCallFailed c' =
        λ c' unread e. subst LastCallFailed (sym e) (elim unread [
          | inl failed_ ↦ (s.conn.calls, refl, failed_)
          | inr missing ↦ absurd (not_missing _ run.row found missing)
        ]) in
      Ends-either Failed _ (
        Ends-mono _ _ _ _ (destroy_sandbox cfg id s) (destroy_sandbox-TornDown cfg id s)
          (λ _ _ h. gone h.0)
          (λ e _ h. elim h.1 [
            | inl kept ↦ still_running silent (last_call _ kept.2 kept.3) (record {
              consistent = v;
              tracked = ap (λ l. contains l id) kept.1 ∙ run.tracked;
              row = run.row;
              found = ap (find_sandbox id) h.0 ∙ found;
              named = run.named;
              holding = Track-held s _ kept.0 run.holding;
            })
            | inr torn ↦ gone torn
          ]))

  pub await-Running :
      (c : Conn) (s : Host)
      → Running c s
      → At before 9 s
      → Ends
          (λ sb' s'. (sb' ≡ running_as cfg id sb) × Running s'.conn s')
          (λ _ s'. Failed s')
          ((do on_error attempt (destroy_quietly cfg id); pure (running_as cfg id sb)) s)
  await-Running c s run at_ =
      step-Ends _ _ attempt (destroy_quietly cfg id) _ s
        (Ends-and (attempt s) (attempt-Running c s run) (attempt-Acts before 9 s at_))
        (λ _ s' h. Ends-ok _ _ (refl, subst (λ k. Running k s') (sym h.0.holding.conn_is) h.0))
        (λ e s' h. given_up c s' h.1.0 h.0)
