-- ===== src/Storage/Private.antt =====
-- crates/beater-journal/src/storage.rs: the files of a journal that opens.
use temp_js.Prelude.{
  ℕ, ◌%◌, Str, true, ◌≡◌, sym, subst, ap, ◌∙◌, inl, inr, Option, none, some, List, [], ◌∷◌, All,
  arith, Bool-cases, Option-cases,
}
use temp_js.Storage.{
  Metadata, File, Directory, Disk, opened, members, metadata_of, validate, validate_all,
  create_database, open_in, open_directory, open_connection,
}

-- A regular file of one link and of this owner, closed to others.
pub record IsPrivateFile (owner : ℕ) (m : Metadata) : Type 0 where
  pub regular : m.is_file ≡ true
  pub single : m.nlink ≡ 1
  pub own : m.uid ≡ owner
  pub closed : m.mode % 64 ≡ 0

abbrev pub PrivateAt : ℕ → List File → Str → Type 0
PrivateAt owner files name =
    (m : Metadata) → metadata_of name files ≡ some m → IsPrivateFile owner m

validate_sound : (owner : ℕ) (m : Metadata) → validate owner (some m) ≡ none → IsPrivateFile owner m
unfolding validate
validate_sound owner m e = record {
  regular = ground arith;
  single = ground arith;
  own = ground arith;
  closed = ground arith;
}

validate_all_sound :
    (owner : ℕ) (names : List Str) (files : List File)
    → validate_all owner names files ≡ none
    → All (PrivateAt owner files) names
unfolding validate_all
validate_all_sound owner [] files e = tt
validate_all_sound owner (name ∷ names) files e =
    elim (Option-cases (validate owner (metadata_of name files))) [
      | inr (failure, failed) ↦ absurd (ground arith)
      | inl fine ↦ (
        (λ m there. validate_sound owner m (sym (ap (validate owner) there) ∙ fine)),
        validate_all_sound owner names files (ground arith),
      )
    ]

-- What a journal that opens has: a closed directory of this user, and no member that is not private.
pub record IsPrivate (self : ℕ) (disk : Disk) : Type 0 where
  pub directory : disk.directory ≡ some (record { is_dir = true; uid = self; mode = 448 })
  pub private : All (PrivateAt self disk.files) members

open_in_sound :
    (self owner : ℕ) (disk after : Disk)
    → open_in self owner disk ≡ (opened, after)
    → (after ≡ record disk { files = create_database self disk.files })
      × All (PrivateAt owner after.files) members
unfolding open_in
open_in_sound self owner disk after e =
    elim (Option-cases (validate_all owner members disk.files)) [
      | inr (failure, failed) ↦ absurd (ground arith)
      | inl fine ↦
          elim (Option-cases (validate_all owner members (create_database self disk.files))) [
            | inr (failure, failed) ↦ absurd (ground arith)
            | inl still ↦
                let same : record disk { files = create_database self disk.files } ≡ after =
                  ground arith in
                (
                  sym same,
                  subst (λ d. All (PrivateAt owner d.files) members) same
                      (validate_all_sound owner members (create_database self disk.files) still),
                )
          ]
    ]

open_directory_sound :
    (self : ℕ) (d : Option Directory) (found : Directory)
    → open_directory self d ≡ some found
    → (found.is_dir ≡ true) × (found.mode ≡ 448)
unfolding open_directory
open_directory_sound self none found e = (ground arith, ground arith)
open_directory_sound self (some d) found e = (ground arith, ground arith)

same_directory :
    (d : Directory) (self : ℕ)
    → d.is_dir ≡ true
    → d.uid ≡ self
    → d.mode ≡ 448
    → d ≡ record { is_dir = true; uid = self; mode = 448 }
same_directory d self h k l = rw (h, k, l)

entered :
    (self : ℕ) (disk after : Disk) (d : Directory)
    → open_directory self disk.directory ≡ some d
    → d.uid ≡ self
    → open_in self d.uid (record disk { directory = some d }) ≡ (opened, after)
    → IsPrivate self after × (after.files ≡ create_database self disk.files)
entered self disk after d held own run =
    let (moved, private) =
      open_in_sound self d.uid (record disk { directory = some d }) after run in
    let (kind, mode) = open_directory_sound self disk.directory d held in
    (
      record {
        directory = ap (λ x. x.directory) moved ∙ ap some (same_directory d self kind own mode);
        private = subst (λ u. All (PrivateAt u after.files) members) own private;
      },
      ap (λ x. x.files) moved,
    )

-- A journal that opens: its directory is a real directory of this user with the mode 0o700, and each
-- of the database, its log, its index and its rollback journal that exists is a regular file of one
-- link, of this user, without permissions for others. The files are those of before, and the database
-- where it was missing.
pub open_connection_sound :
    (self : ℕ) (disk after : Disk)
    → open_connection self disk ≡ (opened, after)
    → IsPrivate self after × (after.files ≡ create_database self disk.files)
unfolding open_connection
open_connection_sound self disk after e = elim (Bool-cases disk.root_found) [
  | inr missing ↦ absurd (ground arith)
  | inl found ↦ elim (Bool-cases disk.root_is_dir) [
    | inr other ↦ absurd (ground arith)
    | inl is_dir ↦ elim (Option-cases (open_directory self disk.directory)) [
      | inr (d, held) ↦ entered self disk after d held (ground arith) (ground arith)
      | inl redirected ↦ absurd (ground arith)
    ]
  ]
]
