-- ===== src/Ownership/Examples.antt =====
-- The theorems on ownership at an application that was never run.
use temp_js.Prelude.{lit, true, ◌≡◌, refl, ap, [], str_eq, is_ascii_alphanumeric}
use temp_js.Journal.Validate
use temp_js.Ownership
use temp_js.Ownership.{Files, owned, refused, unavailable, acquire, release, mark, lock_path}
use temp_js.Ownership.Exclusion.{acquire-excludes, acquire-release}

abbrev empty : Files
empty = record { root_found = true; root_is_directory = true; entries = [] }

abbrev held : Files
held = (acquire (lit "r1") empty).1

owns : (acquire (lit "r1") empty).0 ≡ owned
unfolding lit str_eq is_ascii_alphanumeric Validate.is_empty Ownership.path_eq Ownership.names
    Ownership.node_at Ownership.add Ownership.create Ownership.ensure_directory Ownership.mark
    Ownership.try_lock Ownership.open_lock Ownership.valid_run_id Ownership.acquire
owns = refl

acquired : acquire (lit "r1") empty ≡ (owned, held)
acquired = ap (λ a. (a, held)) owns

acquire-excludes_example : acquire (lit "r1") held ≡ (refused unavailable, held)
acquire-excludes_example = acquire-excludes (lit "r1") empty held acquired

acquire-release_example :
    acquire (lit "r1") (release (lit "r1") held)
    ≡ (owned, mark (lock_path (lit "r1")) true (release (lit "r1") held))
acquire-release_example = acquire-release (lit "r1") empty held acquired
