-- ===== src/Storage.antt =====
-- crates/beater-journal/src/storage.rs: the checks on the journal's files before SQLite opens them.
pub mod Private
pub mod Examples
use temp_js.Prelude.{
  ℕ, ◌%◌, Str, lit, Bool, true, false, not, ◌&&◌, Option, none, some, List, [], ◌∷◌, ◌++◌, find,
  any, update, all, ◌==◌, str_eq, if◌then◌else◌,
}

-- What `symlink_metadata` says of a file.
pub record Metadata : Type 0 where
  pub is_file : Bool
  pub nlink : ℕ
  pub uid : ℕ
  pub mode : ℕ

pub record File : Type 0 where
  pub name : Str
  pub metadata : Metadata

-- `.beater`: a directory, or something else.
pub record Directory : Type 0 where
  pub is_dir : Bool
  pub uid : ℕ
  pub mode : ℕ

-- The application's root, its journal directory, and the files in that.
pub record Disk : Type 0 where
  pub root_found : Bool
  pub root_is_dir : Bool
  pub directory : Option Directory
  pub files : List File

pub data Refusal : Type 0 where
  no_root root_not_directory not_a_directory not_permitted : Refusal
  not_regular many_links other_owner not_private : Refusal

pub data Answer : Type 0 where
  opened : Answer
  refused : Refusal → Answer

abbrev pub members : List Str
members =
    lit "journal.db" ∷ lit "journal.db-wal" ∷ lit "journal.db-shm" ∷ lit "journal.db-journal" ∷ []

unfoldable pub is_named : Str → File → Bool
is_named name file = str_eq file.name name

unfoldable pub metadata_of : Str → List File → Option Metadata
metadata_of name files = elim (find (is_named name) files) [
  | none ↦ none
  | some file ↦ some file.metadata
]

-- `mode & 0o077 == 0`: the last two octal digits are 0.
abbrev pub is_private : ℕ → Bool
is_private mode = (mode % 64) == 0

abbrev pub first_failure : Bool → Refusal → Option Refusal → Option Refusal
first_failure true e rest = rest
first_failure false e rest = some e

-- The closure `validate`; a sidecar may be absent.
unfoldable pub validate : ℕ → Option Metadata → Option Refusal
validate owner none = none
validate owner (some m) = first_failure m.is_file not_regular (
    first_failure (m.nlink == 1) many_links (
      first_failure (m.uid == owner) other_owner
        (first_failure (is_private m.mode) not_private none)))

unfoldable pub validate_all : ℕ → List Str → List File → Option Refusal
unfolding validate metadata_of
validate_all owner [] files = none
validate_all owner (name ∷ names) files = elim (validate owner (metadata_of name files)) [
  | some e ↦ some e
  | none ↦ validate_all owner names files
]

-- `create_new`, for which an existing file is no error: a private file of this process.
unfoldable pub create_database : ℕ → List File → List File
unfolding is_named
create_database self files =
    if any (is_named (lit "journal.db")) files
    then files
    else files
      ++ record {
        name = lit "journal.db";
        metadata = record { is_file = true; nlink = 1; uid = self; mode = 384 };
      }
        ∷ []

-- From the first validation on, in a directory of the given owner.
unfoldable pub open_in : ℕ → ℕ → Disk → Answer × Disk
unfolding validate_all create_database
open_in self owner disk = elim (validate_all owner members disk.files) [
  | some e ↦ (refused e, disk)
  | none ↦
      let created = record disk { files = create_database self disk.files } in
      elim (validate_all owner members created.files) [
        | some e ↦ (refused e, created)
        | none ↦ (opened, created)
      ]
]

-- The directory is created if nothing has its name; its mode is tightened, which only its owner
-- may do (the user is not root).
unfoldable pub open_directory : ℕ → Option Directory → Option Directory
-- 0o700 is 448, 0o600 is 384.
open_directory self none = some (record { is_dir = true; uid = self; mode = 448 })
open_directory self (some d) = if d.is_dir then some (record d { mode = 448 }) else none

-- `open_connection`, run by the user `self`, up to the call of SQLite.
unfoldable pub open_connection : ℕ → Disk → Answer × Disk
unfolding open_in open_directory
open_connection self disk =
    if not disk.root_found
    then (refused no_root, disk)
    else if not disk.root_is_dir
    then (refused root_not_directory, disk)
    else elim (open_directory self disk.directory) [
      | none ↦ (refused not_a_directory, disk)
      | some d ↦
          if d.uid == self
          then open_in self d.uid (record disk { directory = some d })
          else (refused not_permitted, disk)
    ]
