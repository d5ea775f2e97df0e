-- ===== src/Storage/Examples.antt =====
-- The theorem on storage at an application that was never run.
use temp_js.Prelude.{lit, true, none, ◌≡◌, refl, ap, [], str_eq}
use temp_js.Storage
use temp_js.Storage.{Disk, opened, open_connection, create_database}
use temp_js.Storage.Private.{IsPrivate, open_connection_sound}

abbrev empty : Disk
empty = record { root_found = true; root_is_dir = true; directory = none; files = [] }

abbrev after : Disk
after = (open_connection 1000 empty).1

opens : (open_connection 1000 empty).0 ≡ opened
unfolding lit str_eq Storage.is_named Storage.metadata_of Storage.validate Storage.validate_all
    Storage.create_database Storage.open_in Storage.open_directory Storage.open_connection
opens = refl

open_connection_sound_example :
    IsPrivate 1000 after × (after.files ≡ create_database 1000 empty.files)
open_connection_sound_example = open_connection_sound 1000 empty after (ap (λ a. (a, after)) opens)
