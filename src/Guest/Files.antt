-- ===== src/Guest/Files.antt =====
-- cmd/sandboxd/main.go: the file handlers, and parseDim. What the file system and strconv.Atoi answer
-- are arguments.
use web_sandbox.Guest.Exec.{default_cwd}
use web_sandbox.Common.{
  ℕ, Bool, Bool-cases, List, Option, Result, String, [], arith, err, if◌then◌else◌, inl, inr, ltb,
  none, ok, refl, some, ◌&&◌, ◌<◌, ◌==◌, ◌^◌, ◌∷◌, ◌≡◌, ◌⊎◌, ℤ, Eq-String, pos, negsuc,
  Option-cases, ap, false, filter, map, true,
}

-- The kinds of error that statusForFSError tells apart.
pub data FsError : Type 0 where
  not_exist permission other : FsError

unfoldable pub status_for_fs_error : FsError → ℕ
status_for_fs_error not_exist = 404
status_for_fs_error permission = 403
status_for_fs_error other = 500

-- parseDim, with the result of strconv.Atoi.
unfoldable pub parse_dim : Option ℤ → ℕ → ℕ
parse_dim (some (pos n)) def = if ltb 0 n && ltb n (2 ^ 16) then n else def
parse_dim (some (negsuc n)) def = def
parse_dim none def = def

-- An opened file, with what Stat says.
pub record File : Type 0 where
  pub is_dir : Bool
  pub size : ℕ
  pub bytes : List ℕ

pub data ReadReply : Type 0 where
  unread : ℕ → ReadReply
  contents : (length_header : ℕ) → List ℕ → ReadReply

-- What Open gives, and then Stat.
unfoldable pub read_opened : Result FsError (Option File) → ReadReply
read_opened (err e) = unread (status_for_fs_error e)
read_opened (ok none) = unread 500
read_opened (ok (some f)) = if f.is_dir then unread 400 else contents f.size f.bytes

unfoldable pub handle_read_file : (String → Result FsError (Option File)) → String → ReadReply
unfolding read_opened
handle_read_file opens path = if path == "" then unread 400 else read_opened (opens path)

-- The calls that handleWriteFile makes for a path and a body, in order: MkdirAll, OpenFile, Copy with
-- the number of bytes copied, Close.
pub record Target : Type 0 where
  pub made_dir : Bool
  pub opened : Result FsError (Unit {0})
  pub copied : Bool
  pub bytes : ℕ
  pub closed : Bool

pub data WriteReply : Type 0 where
  unwritten : ℕ → WriteReply
  wrote : (path : String) (bytes : ℕ) → WriteReply

unfoldable pub write_opened : String → Target → Result FsError (Unit {0}) → WriteReply
write_opened path t (err e) = unwritten (status_for_fs_error e)
write_opened path t (ok u) = if t.copied && t.closed then wrote path t.bytes else unwritten 500

unfoldable pub handle_write_file : (String → Target) → String → WriteReply
unfolding write_opened
handle_write_file target path =
    let t = target path in
    if path == ""
    then unwritten 400
    else if t.made_dir
    then write_opened path t t.opened
    else unwritten 500

-- agentapi.DirEntry, and the part of it that Info gives.
pub record Info : Type 0 where
  pub size : ℕ
  pub mode : String
  pub mtime : ℕ

pub record DirEntry : Type 0 where
  pub name : String
  pub is_dir : Bool
  pub info : Info

-- An entry that ReadDir gives; Info may fail.
pub record Entry : Type 0 where
  pub name : String
  pub is_dir : Bool
  pub info : Option Info

abbrev entry_of : Entry → Info → DirEntry
entry_of e i = record { name = e.name; is_dir = e.is_dir; info = i }

abbrev add_entry : Entry → Option Info → List DirEntry → List DirEntry
add_entry e none rest = rest
add_entry e (some i) rest = entry_of e i ∷ rest

unfoldable pub dir_entries : List Entry → List DirEntry
dir_entries [] = []
dir_entries (e ∷ es) = add_entry e e.info (dir_entries es)

unfoldable pub handle_list_dir :
    (String → Result FsError (List Entry)) → String → Result ℕ (List DirEntry)
unfolding dir_entries
handle_list_dir read_dir path = elim (read_dir (if path == "" then default_cwd else path)) [
  | ok entries ↦ ok (dir_entries entries)
  | err e ↦ err (status_for_fs_error e)
]

-- A terminal's size is that of the query if it is a positive 16-bit number, and else the default; so, with
-- a default of that kind, it is always between 1 and 65535.
pub parse_dim_bounds :
    (parsed : Option ℤ) (def : ℕ)
    → 0 < def
    → def < 2 ^ 16
    → (0 < parse_dim parsed def)
      × (parse_dim parsed def < 2 ^ 16)
      × ((parsed ≡ some (pos (parse_dim parsed def))) ⊎ (parse_dim parsed def ≡ def))
unfolding parse_dim
parse_dim_bounds none def lo hi = (lo, hi, inr refl)
parse_dim_bounds (some (negsuc n)) def lo hi = (lo, hi, inr refl)
parse_dim_bounds (some (pos n)) def lo hi = elim (Bool-cases (ltb 0 n && ltb n (2 ^ 16))) [
  | inl fits ↦ rw fits (ground arith, ground arith, inl refl)
  | inr not_ ↦ rw not_ (lo, hi, inr refl)
]

pub has_info : Entry → Bool
has_info e = elim e.info [ none ↦ false | some i ↦ true ]

map-filter-dir_entries :
    (es : List Entry) → map (λ d. d.name) (dir_entries es) ≡ map (λ e. e.name) (filter has_info es)
unfolding dir_entries filter has_info
map-filter-dir_entries [] = refl
map-filter-dir_entries (e ∷ es) = elim (Option-cases e.info) [
  | inl none_ ↦ rw none_ (map-filter-dir_entries es)
  | inr (i, some_) ↦ rw some_ (ap (λ ns. e.name ∷ ns) (map-filter-dir_entries es))
]

-- What a listing answers: the entries of the directory that Info could read, in order, or the status of
-- the error.
pub data Listed (path : String) (read_dir : String → Result FsError (List Entry))
    : Result ℕ (List DirEntry) → Type 0 where
  listed :
      (es : List Entry) (ds : List DirEntry)
      → read_dir (if path == "" then default_cwd else path) ≡ ok es
      → map (λ d. d.name) ds ≡ map (λ e. e.name) (filter has_info es)
      → Listed path read_dir (ok ds)
  unreadable :
      (e : FsError) (status : ℕ)
      → read_dir (if path == "" then default_cwd else path) ≡ err e
      → ((e ≡ not_exist) × (status ≡ 404))
        ⊎ ((e ≡ permission) × (status ≡ 403))
        ⊎ ((e ≡ other) × (status ≡ 500))
      → Listed path read_dir (err status)

status_cases :
    (e : FsError)
    → ((e ≡ not_exist) × (status_for_fs_error e ≡ 404))
      ⊎ ((e ≡ permission) × (status_for_fs_error e ≡ 403))
      ⊎ ((e ≡ other) × (status_for_fs_error e ≡ 500))
unfolding status_for_fs_error
status_cases not_exist = inl (refl, refl)
status_cases permission = inr (inl (refl, refl))
status_cases other = inr (inr (refl, refl))

Listed-at :
    (path : String) (read_dir : String → Result FsError (List Entry))
    (r : Result FsError (List Entry))
    → read_dir (if path == "" then default_cwd else path) ≡ r
    → Listed path read_dir
        (elim r [ ok entries ↦ ok (dir_entries entries) | err e ↦ err (status_for_fs_error e) ])
Listed-at path read_dir (ok es) h = listed es (dir_entries es) h (map-filter-dir_entries es)
Listed-at path read_dir (err e) h = unreadable e (status_for_fs_error e) h (status_cases e)

-- A listing has the names of exactly the entries of the directory that Info could read, in order: of the
-- path, or of the default directory where none is given. Where the directory cannot be read the status
-- is 404 if it is not there, 403 if it may not be read, and else 500.
pub handle_list_dir-Listed :
    (read_dir : String → Result FsError (List Entry)) (path : String)
    → Listed path read_dir (handle_list_dir read_dir path)
unfolding handle_list_dir
handle_list_dir-Listed read_dir path = Listed-at path read_dir _ refl
