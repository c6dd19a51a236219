-- ===== src/Provisioner/Disks.antt =====
-- internal/provisioner/provisioner.go: the disk files of sandboxes and snapshots. Whether a directory or
-- a file can be made or removed is an argument, and so are filepath.Join, strings.ToLower and
-- strings.Contains.
use Prim.Native.String.{◌++◌ as str_append}
use web_sandbox.Provisioner.{Shell, Sh, command, and_issued, run_all}
use web_sandbox.Provisioner.Commands.{command-Ends}
use web_sandbox.Common.{
  ◌++◌, Bool, Bool-cases, Ends, Ends-bind, Ends-err, Ends-ok, List, Option, String, [], err, false,
  if◌then◌else◌, inl, inr, length, none, ok, pure, refl, some, true, ◌==◌, ◌>>◌, ◌||◌, ◌∷◌, ◌≡◌,
  ◌⊎◌, append_assoc, Eq-String,
}

-- The functions of the standard library that the file uses on texts, and what os answers for a path.
pub record System : Type 0 where
  pub join : String → String → String
  pub dir : String → String
  pub to_lower : String → String
  pub contains_text : String → String → Bool
  pub makes_dir : String → Bool
  pub removes : String → Bool

-- What Provisioner holds about paths.
pub record Paths : Type 0 where
  pub rootfs_base : String
  pub rootfs_dir : String
  pub snapshot_dir : String

unfoldable pub reflink_unsupported : System → String → Bool
reflink_unsupported sys out =
    let s = sys.to_lower out in
    sys.contains_text s "not supported"
    || sys.contains_text s "operation not supported"
    || sys.contains_text s "invalid cross-device"
    || sys.contains_text s "cross-device link"

abbrev pub reflink_copy : String → String → List String
reflink_copy src dst = "cp" ∷ "--reflink=always" ∷ src ∷ dst ∷ []

abbrev pub sparse_copy : String → String → List String
sparse_copy src dst = "cp" ∷ "--sparse=always" ∷ src ∷ dst ∷ []

-- The rest of CloneFile, with the answer of the first copy.
unfoldable pub after_reflink : System → String → String → Bool → String → Sh (Unit {0})
after_reflink sys src dst true out s = (ok tt, s)
after_reflink sys src dst false out s =
    if reflink_unsupported sys out
    then run_all (sparse_copy src dst ∷ []) s
    else (err (reflink_copy src dst), s)

-- The error of MkdirAll names no command.
unfoldable pub clone_file : System → String → String → Sh (Unit {0})
unfolding after_reflink
clone_file sys src dst s =
    let a = s.answers (length s.issued) in
    if sys.makes_dir (sys.dir dst)
    then after_reflink sys src dst a.succeeds a.output (and_issued (reflink_copy src dst) s)
    else (err [], s)

unfoldable pub rootfs_path : System → Paths → String → String
rootfs_path sys p id = sys.join p.rootfs_dir (str_append id ".ext4")

-- PrepareRootfs is the case of the base image.
unfoldable pub clone_rootfs : System → Paths → String → String → Sh String
unfolding clone_file rootfs_path
clone_rootfs sys p id src s =
    if sys.makes_dir p.rootfs_dir
    then ((do clone_file sys src (rootfs_path sys p id); pure (rootfs_path sys p id)) s)
    else (err [], s)

unfoldable pub prepare_rootfs : System → Paths → String → Sh String
unfolding clone_rootfs
prepare_rootfs sys p id = clone_rootfs sys p id p.rootfs_base

unfoldable pub cleanup_rootfs : System → Paths → String → Bool
unfolding rootfs_path
cleanup_rootfs sys p id = sys.removes (rootfs_path sys p id)

unfoldable pub remove_rootfs : System → String → Bool
remove_rootfs sys path = if path == "" then true else sys.removes path

-- SnapshotPaths: the paths of the memory, the state and the disk.
unfoldable pub snapshot_paths : System → Paths → String → Option (String × String × String)
snapshot_paths sys p id =
    let dir = sys.join p.snapshot_dir id in
    if sys.makes_dir dir
    then some (sys.join dir "mem.bin", sys.join dir "state.bin", sys.join dir "rootfs.ext4")
    else none

-- What a copy has issued: the clone, or the clone and then the plain copy.
abbrev pub Copied : System → String → String → Shell → Shell → Type 0
Copied sys src dst s s' =
    (((s.answers (length s.issued)).succeeds ≡ true)
      × (s'.issued ≡ s.issued ++ (reflink_copy src dst ∷ [])))
    ⊎ ((reflink_unsupported sys (s.answers (length s.issued)).output ≡ true)
        × (s'.issued ≡ s.issued ++ (reflink_copy src dst ∷ sparse_copy src dst ∷ [])))

after_reflink-Ends :
    (sys : System) (src dst : String) (s : Shell) (good : Bool) (out : String)
    → Ends
        (λ _ s'.
          ((good ≡ true) × (s'.issued ≡ s.issued ++ (reflink_copy src dst ∷ [])))
          ⊎ ((reflink_unsupported sys out ≡ true)
              × (s'.issued ≡ s.issued ++ (reflink_copy src dst ∷ sparse_copy src dst ∷ []))))
        (λ c s'. Unit {0})
        (after_reflink sys src dst good out (and_issued (reflink_copy src dst) s))
unfolding after_reflink run_all
after_reflink-Ends sys src dst s true out = Ends-ok _ _ (inl (refl, refl))
after_reflink-Ends sys src dst s false out = elim (Bool-cases (reflink_unsupported sys out)) [
  | inl un ↦ rw un (
      Ends-bind (command (sparse_copy src dst)) (λ _. run_all []) _
        (command-Ends (sparse_copy src dst) _
          (λ o. Ends-ok _ _ (inr (refl, append_assoc s.issued _ _))) (λ bad. tt)))
  | inr other ↦ rw other (Ends-err _ _ tt)
]

-- A disk file is copied by a clone, and by a plain copy only if the clone failed with an output that says
-- that the file system cannot clone; a copy that is reported as done has issued just these commands.
pub clone_file-Ends :
    (sys : System) (src dst : String) (s : Shell)
    → Ends (λ _ s'. Copied sys src dst s s') (λ c s'. Unit {0}) (clone_file sys src dst s)
unfolding clone_file
clone_file-Ends sys src dst s = elim (Bool-cases (sys.makes_dir (sys.dir dst))) [
  | inl made ↦ rw made (after_reflink-Ends sys src dst s _ _)
  | inr not_made ↦ rw not_made (Ends-err _ _ tt)
]
