-- ===== src/Ownership/Exclusion.antt =====
-- crates/beater-agent/src/ownership.rs: a run has one owner at a time.
use temp_js.Prelude.{
  Str, lit, Bool, true, false, ◌≡◌, refl, subst, sym, ap, ◌∙◌, inl, inr, Option, none, some, List,
  str_eq, arith, Bool-cases, if◌then◌else◌,
}
use temp_js.Ownership.{
  Node, directory, regular, symlink, path_eq, Files, invalid_input, not_found, unavailable, owned,
  refused, Call, ◌then◌, check, node_at, create, ensure_directory, may_be_lock, has_one_link,
  is_free, mark, try_lock, open_lock, valid_run_id, journal_dir, lock_dir, lock_path, take_lock,
  enter_directories, find_root, acquire, release,
}
use temp_js.Ownership.Effects.{
  then_owned, then-ok, create_again, create-node_at, create-roots, mark-node_at, mark-node_at_other,
  made_directory, ensure_again, passes, checked,
}

-- What an owner leaves.
record IsOwned (run_id : Str) (files : Files) : Type 0 where
  pub root : files.root_found ≡ true
  pub root_directory : files.root_is_directory ≡ true
  pub journal : node_at journal_dir files ≡ some directory
  pub locks : node_at lock_dir files ≡ some directory
  pub lock : node_at (lock_path run_id) files ≡ some (regular 1 true)

open_busy :
    (path : List Str) (files : Files)
    → node_at path files ≡ some (regular 1 true)
    → open_lock path files ≡ (refused unavailable, files)
unfolding open_lock try_lock
open_busy path files e =
    ap
      (λ opened.
        (check (has_one_link (node_at path opened)) (invalid_input "run lock must have one link")
            then try_lock path)
          opened)
      (create_again path (regular 1 false) (regular 1 true) files e)
    ∙ then-ok
        (check (has_one_link (node_at path files)) (invalid_input "run lock must have one link"))
        (try_lock path) files files (passes _ _ files (ap has_one_link e))
    ∙ ap (λ (b : Bool). if b then (owned, mark path true files) else (refused unavailable, files))
        (ap is_free e)

lock_busy :
    (path : List Str) (files : Files)
    → node_at path files ≡ some (regular 1 true)
    → take_lock path files ≡ (refused unavailable, files)
lock_busy path files e =
    then-ok
      (λ files.
        check (may_be_lock (node_at path files)) (invalid_input "run lock must be a regular file")
          files)
      (open_lock path) files files (passes _ _ files (ap may_be_lock e))
    ∙ open_busy path files e

root_passes :
    (files : Files)
    → files.root_found ≡ true
    → files.root_is_directory ≡ true
    → find_root files ≡ (owned, files)
root_passes files h k =
    then-ok (λ files. check files.root_found not_found files) _ files files (passes _ _ files h)
    ∙ passes _ _ files k

busy :
    (run_id : Str) (files : Files)
    → valid_run_id run_id ≡ true
    → IsOwned run_id files
    → acquire run_id files ≡ (refused unavailable, files)
unfolding acquire
busy run_id files valid o =
    let path = lock_path run_id in
    then-ok (check (valid_run_id run_id) (invalid_input "invalid run identity"))
      (find_root then enter_directories path) files files (passes _ _ files valid)
    ∙ then-ok find_root (enter_directories path) files files
        (root_passes files o.root o.root_directory)
    ∙ then-ok (ensure_directory journal_dir) (ensure_directory lock_dir then take_lock path) files
        files (ensure_again journal_dir files o.journal)
    ∙ then-ok (ensure_directory lock_dir) (take_lock path) files files
        (ensure_again lock_dir files o.locks)
    ∙ lock_busy path files o.lock

root_sound :
    (n : Call) (files after : Files)
    → (find_root then n) files ≡ (owned, after)
    → (files.root_found ≡ true) × (files.root_is_directory ≡ true) × (n files ≡ (owned, after))
root_sound n files after e = elim (Bool-cases files.root_found) [
  | inr missing ↦ absurd (ground arith)
  | inl found ↦ elim (Bool-cases files.root_is_directory) [
    | inr other ↦ absurd (ground arith)
    | inl is_dir ↦
        (found, is_dir, sym (then-ok find_root n files files (root_passes files found is_dir)) ∙ e)
  ]
]

ensured :
    (path : List Str) (n : Call) (files after : Files)
    → (ensure_directory path then n) files ≡ (owned, after)
    → (node_at path (create path directory files) ≡ some directory)
      × (n (create path directory files) ≡ (owned, after))
ensured path n files after e =
    let (success, rest) = then_owned (ensure_directory path) n files after e in
    let (made, same) = made_directory path files success in (made, sym (ap n same) ∙ rest)

fresh_lock :
    (node : Option Node)
    → has_one_link node ≡ true
    → is_free node ≡ true
    → node ≡ some (regular 1 false)
fresh_lock none h k = cc
fresh_lock (some directory) h k = cc
fresh_lock (some symlink) h k = cc
fresh_lock (some (regular links true)) h k = cc
fresh_lock (some (regular links false)) h k = ap (λ n. some (regular n false)) (ground arith)

locked_sound :
    (path : List Str) (files after : Files)
    → try_lock path files ≡ (owned, after)
    → (is_free (node_at path files) ≡ true) × (after ≡ mark path true files)
unfolding try_lock
locked_sound path files after e = elim (Bool-cases (is_free (node_at path files))) [
  | inl free ↦ (free, ground arith)
  | inr taken ↦ absurd (ground arith)
]

opened_sound :
    (path : List Str) (files after : Files)
    → open_lock path files ≡ (owned, after)
    → (node_at path (create path (regular 1 false) files) ≡ some (regular 1 false))
      × (after ≡ mark path true (create path (regular 1 false) files))
unfolding open_lock
opened_sound path files after e =
    let opened = create path (regular 1 false) files in
    let (single, rest) =
      checked (has_one_link (node_at path opened)) (invalid_input "run lock must have one link")
        (try_lock path) opened after e in
    let (free, moved) = locked_sound path opened after rest in
    (fresh_lock (node_at path opened) single free, moved)

-- An owner leaves the directories, and the lock file locked.
acquire_sound :
    (run_id : Str) (files after : Files)
    → acquire run_id files ≡ (owned, after)
    → (valid_run_id run_id ≡ true) × IsOwned run_id after
unfolding acquire mark path_eq str_eq lit
acquire_sound run_id files after e =
    let path = lock_path run_id in
    let (valid, e1) =
      checked (valid_run_id run_id) (invalid_input "invalid run identity")
        (find_root then enter_directories path) files after e in
    let (found, is_dir, e2) = root_sound (enter_directories path) files after e1 in
    let (journal, e3) =
      ensured journal_dir (ensure_directory lock_dir then take_lock path) files after e2 in
    let made = create journal_dir directory files in
    let (locks, e4) = ensured lock_dir (take_lock path) made after e3 in
    let both = create lock_dir directory made in
    let (_, e5) =
      checked (may_be_lock (node_at path both)) (invalid_input "run lock must be a regular file")
        (open_lock path) both after e4 in
    let (lock, moved) = opened_sound path both after e5 in
    let opened = create path (regular 1 false) both in
    let roots1 = create-roots journal_dir directory files in
    let roots2 = create-roots lock_dir directory made in
    let roots3 = create-roots path (regular 1 false) both in
    (
      valid,
      subst (IsOwned run_id) (sym moved) (record {
        root = roots3.0 ∙ roots2.0 ∙ roots1.0 ∙ found;
        root_directory = roots3.1 ∙ roots2.1 ∙ roots1.1 ∙ is_dir;
        journal =
            mark-node_at_other path journal_dir true opened refl
            ∙ create-node_at path journal_dir (regular 1 false) both refl
            ∙ create-node_at lock_dir journal_dir directory made refl
            ∙ journal;
        locks =
            mark-node_at_other path lock_dir true opened refl
            ∙ create-node_at path lock_dir (regular 1 false) both refl
            ∙ locks;
        lock = mark-node_at path true (regular 1 false) opened lock;
      }),
    )

-- Ownership is exclusive: while a run is owned, a second attempt to own it fails, and changes no
-- file. The files may be any, and hold any other locks.
pub acquire-excludes :
    (run_id : Str) (files after : Files)
    → acquire run_id files ≡ (owned, after)
    → acquire run_id after ≡ (refused unavailable, after)
acquire-excludes run_id files after e =
    let (valid, held) = acquire_sound run_id files after e in busy run_id after valid held

open_free :
    (path : List Str) (files : Files)
    → node_at path files ≡ some (regular 1 false)
    → open_lock path files ≡ (owned, mark path true files)
unfolding open_lock try_lock
open_free path files e =
    ap
      (λ opened.
        (check (has_one_link (node_at path opened)) (invalid_input "run lock must have one link")
            then try_lock path)
          opened)
      (create_again path (regular 1 false) (regular 1 false) files e)
    ∙ then-ok
        (check (has_one_link (node_at path files)) (invalid_input "run lock must have one link"))
        (try_lock path) files files (passes _ _ files (ap has_one_link e))
    ∙ ap (λ (b : Bool). if b then (owned, mark path true files) else (refused unavailable, files))
        (ap is_free e)

-- When an owner ends, the run can be owned again: the attempt after the release succeeds.
pub acquire-release :
    (run_id : Str) (files after : Files)
    → acquire run_id files ≡ (owned, after)
    → acquire run_id (release run_id after)
      ≡ (owned, mark (lock_path run_id) true (release run_id after))
unfolding acquire release mark path_eq str_eq lit
acquire-release run_id files after e =
    let (valid, o) = acquire_sound run_id files after e in
    let path = lock_path run_id in
    let freed = mark path false after in
    let journal = mark-node_at_other path journal_dir false after refl ∙ o.journal in
    let locks = mark-node_at_other path lock_dir false after refl ∙ o.locks in
    let lock = mark-node_at path false (regular 1 true) after o.lock in
    then-ok (check (valid_run_id run_id) (invalid_input "invalid run identity"))
      (find_root then enter_directories path) freed freed (passes _ _ freed valid)
    ∙ then-ok find_root (enter_directories path) freed freed
        (root_passes freed o.root o.root_directory)
    ∙ then-ok (ensure_directory journal_dir) (ensure_directory lock_dir then take_lock path) freed
        freed (ensure_again journal_dir freed journal)
    ∙ then-ok (ensure_directory lock_dir) (take_lock path) freed freed
        (ensure_again lock_dir freed locks)
    ∙ then-ok
        (λ files.
          check (may_be_lock (node_at path files)) (invalid_input "run lock must be a regular file")
            files)
        (open_lock path) freed freed (passes _ _ freed (ap may_be_lock lock))
    ∙ open_free path freed lock
