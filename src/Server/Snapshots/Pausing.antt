-- ===== src/Server/Snapshots/Pausing.antt =====
-- internal/server/snapshot.go: a snapshot pauses its sandbox only for as long as it takes.
use web_sandbox.Registry.Engine.{find_sandbox, insert_snapshot}
use web_sandbox.Registry.Ops.Updates.{snapshot_row}
use web_sandbox.Registry.Types.{SandboxRow, Snapshot, scan_sandbox}
use web_sandbox.Server.Host.{done, refused, Held, Host, Settings, artifacts, broken, pause, Eq-Held}
use web_sandbox.Server.Host.Tracks.{Track}
use web_sandbox.Server.Host.Acts.{EndsAs}
use web_sandbox.Server.Snapshots.{new_snapshot}
use web_sandbox.Common.{
  ℕ, Bool, String, [], contains, some, true, ◌==◌, ◌∷◌, ◌≡◌, ◌||◌, Eq-String, ◌>>◌,
}

module _ (cfg : Settings) (snap_id id : String) (now : ℕ) where
  -- What taking a snapshot may change: whether the sandbox is paused, and the directory.
  abbrev pub takes_part : Held → Bool
  takes_part h = pause id == h || artifacts snap_id == h

  -- The making of the directory is the call 0 of the handler, and the pause the call 1. A snapshot that
  -- fails leaves the tables as they were, and nothing else; or something of the directory, if its
  -- making breaks off; or the directory, if the guest then refuses to pause; or the directory and perhaps
  -- the pause, if the call that pauses the guest breaks off.
  pub data NotTaken (before s : Host) : Type 0 where
    nothing_left :
        s.conn.db ≡ before.conn.db → Track takes_part [] [] before s.conn s → NotTaken before s
    directory_broken :
        s.conn.db ≡ before.conn.db
        → EndsAs before 0 broken
        → Track takes_part (artifacts snap_id ∷ []) [] before s.conn s
        → NotTaken before s
    pause_refused :
        s.conn.db ≡ before.conn.db
        → EndsAs before 0 done
        → EndsAs before 1 refused
        → Track takes_part (artifacts snap_id ∷ []) [] before s.conn s
        → NotTaken before s
    pause_broken :
        s.conn.db ≡ before.conn.db
        → EndsAs before 0 done
        → EndsAs before 1 broken
        → Track takes_part (pause id ∷ artifacts snap_id ∷ []) [] before s.conn s
        → NotTaken before s

  -- A snapshot that was taken: the guest runs again, the directory is there and the row is recorded.
  pub record Taken (before : Host) (snap : Snapshot) (s : Host) : Type 0 where
    pub row : SandboxRow
    pub found : find_sandbox id before.conn.db ≡ some row
    pub tracked : contains before.machines id ≡ true
    pub returned : snap ≡ new_snapshot cfg snap_id id (scan_sandbox row) now
    pub recorded : s.conn.db ≡ insert_snapshot (snapshot_row snap) before.conn.db
    pub resumed : Track takes_part (artifacts snap_id ∷ []) (artifacts snap_id ∷ []) before s.conn s
