-- ===== src/Ownership/Effects.antt =====
-- crates/beater-agent/src/ownership.rs: what each call on a path does to the others.
use temp_js.Prelude.{
  Str, Bool, true, false, ◌≡◌, ◌↔◌, refl, ap, ◌∙◌, inl, inr, Option, none, some, List, [], ◌∷◌,
  find, any, str_eq_iff, any_of_find-some, find-append_other, find-update_other, find-update_self,
  arith, Bool-cases, Option-cases, if◌then◌else◌,
}
use temp_js.Ownership.{
  Node, directory, regular, symlink, path_eq, Entry, Files, Refusal, invalid_input, Answer, owned,
  refused, Call, proceed, ◌then◌, check, names, node_at, add, create, is_directory,
  ensure_directory, set_locked, mark,
}

pub path_eq_iff : (p q : List Str) → (path_eq p q ≡ true) ↔ (p ≡ q)
unfolding path_eq
path_eq_iff [] [] = ground arith
path_eq_iff [] (b ∷ q) = ground arith
path_eq_iff (a ∷ p) [] = ground arith
path_eq_iff (a ∷ p) (b ∷ q) = ground (arith, str_eq_iff a b, path_eq_iff p q)

-- What success says of the two calls in order.
pub then_owned :
    (m n : Call) (files after : Files)
    → (m then n) files ≡ (owned, after)
    → ((m files).0 ≡ owned) × (n (m files).1 ≡ (owned, after))
then_owned m n files after e = by_answer (m files).0 (m files).1 refl e
  where
    by_answer :
        (a : Answer) (next : Files)
        → (m files).0 ≡ a
        → proceed a n next ≡ (owned, after)
        → ((m files).0 ≡ owned) × (n next ≡ (owned, after))
    by_answer owned next h k = (h, k)
    by_answer (refused r) next h k = cc

pub check_owned :
    (b : Bool) (r : Refusal) (files : Files)
    → (check b r files).0 ≡ owned
    → (b ≡ true) × (check b r files ≡ (owned, files))
check_owned true r files e = (refl, refl)
check_owned false r files e = cc

pub check-state : (b : Bool) (r : Refusal) (files : Files) → (check b r files).1 ≡ files
check-state true r files = refl
check-state false r files = refl

pub then-ok :
    (m n : Call) (files after : Files) → m files ≡ (owned, after) → (m then n) files ≡ n after
then-ok m n files after e = ap (λ r. proceed r.0 n r.1) e

pub node_found :
    (path : List Str) (files : Files) (node : Node)
    → node_at path files ≡ some node
    → any (names path) files.entries ≡ true
unfolding node_at
node_found path files node e = elim (Option-cases (find (names path) files.entries)) [
  | inl missing ↦ absurd (ground arith)
  | inr (entry, found) ↦ any_of_find-some (names path) files.entries entry found
]

pub create_again :
    (path : List Str) (new node : Node) (files : Files)
    → node_at path files ≡ some node
    → create path new files ≡ files
unfolding create
create_again path new node files e = rw (node_found path files node e)

pub create-node_at :
    (path other : List Str) (new : Node) (files : Files)
    → path_eq path other ≡ false
    → node_at other (create path new files) ≡ node_at other files
unfolding create add node_at names
create-node_at path other new files differs = elim (Bool-cases (any (names path) files.entries)) [
  | inl there ↦ rw there
  | inr missing ↦
      let e =
        find-append_other (names other) files.entries (record { path = path; node = new })
          differs in
      rw missing
        (ap (λ (o : Option Entry). elim o [ none ↦ none | some entry ↦ some entry.node ]) e)
]

pub create-roots :
    (path : List Str) (new : Node) (files : Files)
    → ((create path new files).root_found ≡ files.root_found)
      × ((create path new files).root_is_directory ≡ files.root_is_directory)
unfolding create add
create-roots path new files = elim (Bool-cases (any (names path) files.entries)) [
  | inl there ↦ rw there (refl, refl)
  | inr missing ↦ rw missing (refl, refl)
]

pub mark-node_at :
    (path : List Str) (locked : Bool) (node : Node) (files : Files)
    → node_at path files ≡ some node
    → node_at path (mark path locked files) ≡ some (set_locked locked node)
unfolding node_at mark names
mark-node_at path locked node files e = elim (Option-cases (find (names path) files.entries)) [
  | inl missing ↦ absurd (ground arith)
  | inr (entry, found) ↦
      let same : entry.node ≡ node = ground arith in
      let e =
        find-update_self (names path)
          (λ entry. record entry { node = set_locked locked entry.node }) files.entries entry
          (λ r. refl) found in
      ap (λ (o : Option Entry). elim o [ none ↦ none | some entry ↦ some entry.node ]) e
      ∙ ap (λ n. some (set_locked locked n)) same
]

pub apart :
    (path other : List Str)
    → path_eq path other ≡ false
    → (entry : Entry) → names path entry ≡ true
    → names other entry ≡ false
unfolding names
apart path other differs entry own =
    ap (λ p. path_eq p other) ((path_eq_iff entry.path path).0 own) ∙ differs

pub mark-node_at_other :
    (path other : List Str) (locked : Bool) (files : Files)
    → path_eq path other ≡ false
    → node_at other (mark path locked files) ≡ node_at other files
unfolding node_at mark names
mark-node_at_other path other locked files differs =
    ap (λ (o : Option Entry). elim o [ none ↦ none | some entry ↦ some entry.node ])
      (find-update_other (names other) (names path)
        (λ entry. record entry { node = set_locked locked entry.node }) files.entries
        (apart path other differs) (apart path other differs))

pub directory_sound : (node : Option Node) → is_directory node ≡ true → node ≡ some directory
directory_sound none h = cc
directory_sound (some directory) h = refl
directory_sound (some (regular links locked)) h = cc
directory_sound (some symlink) h = cc

pub made_directory :
    (path : List Str) (files : Files)
    → (ensure_directory path files).0 ≡ owned
    → (node_at path (create path directory files) ≡ some directory)
      × ((ensure_directory path files).1 ≡ create path directory files)
unfolding ensure_directory
made_directory path files e =
    let made = create path directory files in
    let reason = invalid_input "run directory must not be a symlink" in
    (
      directory_sound (node_at path made)
          (check_owned (is_directory (node_at path made)) reason made e).0,
      check-state (is_directory (node_at path made)) reason made,
    )

pub ensure_again :
    (path : List Str) (files : Files)
    → node_at path files ≡ some directory
    → ensure_directory path files ≡ (owned, files)
unfolding ensure_directory
ensure_again path files e = rw (create_again path directory directory files e, e, ensure_directory)

pub passes : (b : Bool) (r : Refusal) (files : Files) → b ≡ true → check b r files ≡ (owned, files)
passes true r files e = refl
passes false r files e = cc

pub checked :
    (b : Bool) (r : Refusal) (n : Call) (files after : Files)
    → proceed (check b r files).0 n (check b r files).1 ≡ (owned, after)
    → (b ≡ true) × (n files ≡ (owned, after))
checked true r n files after e = (refl, e)
checked false r n files after e = cc
