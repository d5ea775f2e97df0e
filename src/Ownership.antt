-- ===== src/Ownership.antt =====
-- crates/beater-agent/src/ownership.rs: exclusive ownership of a run by a lock file.
pub mod Effects
pub mod Exclusion
pub mod Examples
use temp_js.Prelude.{
  ℕ, Str, String, lit, Bool, true, false, not, ◌&&◌, ◌||◌, Option, none, some, List, [], ◌∷◌, ◌++◌,
  find, any, update, length, all, leb, ◌==◌, str_eq, is_ascii_alphanumeric, if◌then◌else◌,
}
use temp_js.Journal.Validate.{is_empty}

-- What a path below the root names, itself and not what it points to. A regular file has a number
-- of links and may be locked by an owner.
pub data Node : Type 0 where
  directory : Node
  regular : ℕ → Bool → Node
  symlink : Node

unfoldable pub path_eq : List Str → List Str → Bool
path_eq [] [] = true
path_eq (a ∷ p) (b ∷ q) = str_eq a b && path_eq p q
path_eq _ _ = false

pub record Entry : Type 0 where
  pub path : List Str
  pub node : Node

-- The application's root, which is a directory if it is found, and what lies below it.
pub record Files : Type 0 where
  pub root_found : Bool
  pub root_is_directory : Bool
  pub entries : List Entry

pub data Refusal : Type 0 where
  invalid_input : String → Refusal
  not_found : Refusal
  unavailable : Refusal

pub data Answer : Type 0 where
  owned : Answer
  refused : Refusal → Answer

-- A call: its answer, and the files that it leaves.
abbrev pub Call : Type 0
Call = Files → Answer × Files

abbrev pub fail : Refusal → Call
fail e files = (refused e, files)

abbrev pub proceed : Answer → Call → Call
proceed owned next files = next files
proceed (refused e) next files = (refused e, files)

-- `first?; second`
infixr 5 ◌then◌
abbrev pub ◌then◌ : Call → Call → Call
◌then◌ first second files = proceed (first files).0 second (first files).1

abbrev pub check : Bool → Refusal → Call
check true e files = (owned, files)
check false e files = (refused e, files)

unfoldable pub names : List Str → Entry → Bool
names path entry = path_eq entry.path path

-- `fs::symlink_metadata`
unfoldable pub node_at : List Str → Files → Option Node
node_at path files = elim (find (names path) files.entries) [
  | none ↦ none
  | some entry ↦ some entry.node
]

unfoldable pub add : List Str → Node → Files → Files
add path node files = record files {
  entries = files.entries ++ (record { path = path; node = node }) ∷ [];
}

-- `fs::create_dir`, for which an existing node is no error; and the opening of a file that is
-- created when it is missing.
unfoldable pub create : List Str → Node → Files → Files
create path node files = if any (names path) files.entries then files else add path node files

abbrev pub is_directory : Option Node → Bool
is_directory (some directory) = true
is_directory _ = false

unfoldable pub ensure_directory : List Str → Call
ensure_directory path files =
    let made = create path directory files in
    check (is_directory (node_at path made)) (invalid_input "run directory must not be a symlink")
      made

abbrev pub may_be_lock : Option Node → Bool
may_be_lock none = true
may_be_lock (some (regular links locked)) = true
may_be_lock (some _) = false

abbrev pub has_one_link : Option Node → Bool
has_one_link (some (regular links locked)) = links == 1
has_one_link _ = false

abbrev pub is_free : Option Node → Bool
is_free (some (regular links locked)) = not locked
is_free _ = false

abbrev pub set_locked : Bool → Node → Node
set_locked locked (regular links old) = regular links locked
set_locked locked directory = directory
set_locked locked symlink = symlink

unfoldable pub mark : List Str → Bool → Files → Files
mark path locked files = record files {
  entries =
      update (names path) (λ entry. record entry { node = set_locked locked entry.node })
        files.entries;
}

-- `try_lock`
unfoldable pub try_lock : List Str → Call
try_lock path files =
    if is_free (node_at path files)
    then (owned, mark path true files)
    else (refused unavailable, files)

-- Opening creates a missing file with one link; then the checks on the handle.
unfoldable pub open_lock : List Str → Call
open_lock path files =
    let opened = create path (regular 1 false) files in
    (check (has_one_link (node_at path opened)) (invalid_input "run lock must have one link")
        then try_lock path)
      opened

unfoldable pub valid_run_id : Str → Bool
valid_run_id run_id =
    not (is_empty run_id)
    && leb (length run_id) 128
    && all (λ b. is_ascii_alphanumeric b || b == b'-' || b == b'_') run_id

abbrev pub journal_dir : List Str
journal_dir = lit ".beater" ∷ []

abbrev pub lock_dir : List Str
lock_dir = lit ".beater" ∷ lit "run-locks" ∷ []

abbrev pub lock_path : Str → List Str
lock_path run_id = lit ".beater" ∷ lit "run-locks" ∷ (run_id ++ lit ".lock") ∷ []

-- `acquire` from its last check on, from the directories on, and from the root on.
abbrev pub take_lock : List Str → Call
take_lock path =
    (λ files.
      check (may_be_lock (node_at path files)) (invalid_input "run lock must be a regular file")
        files)
    then open_lock path

abbrev pub enter_directories : List Str → Call
enter_directories path =
    ensure_directory journal_dir then ensure_directory lock_dir then take_lock path

abbrev pub find_root : Call
find_root = (λ files. check files.root_found not_found files) then (λ files.
    check files.root_is_directory (invalid_input "app root must be a directory") files)

unfoldable pub acquire : Str → Call
acquire run_id =
    check (valid_run_id run_id) (invalid_input "invalid run identity")
    then find_root
    then enter_directories (lock_path run_id)

-- The end of the owner, or its process, releases the lock; the file stays.
unfoldable pub release : Str → Files → Files
release run_id = mark (lock_path run_id) false
