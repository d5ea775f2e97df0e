-- ===== src/Router/Examples.antt =====
-- The theorems on routes at a concrete application.
use temp_js.Prelude.{
  ℕ, Bool, true, not, ◌&&◌, leb, ltb, ◌==◌, arith, Str, lit, ◌≡◌, refl, none, some, List, [], ◌∷◌,
  All, IsSorted, str_eq, insert_by, sort_by,
}
use mathlib.Core.List.{Perm}
use temp_js.Router.{Route, RouteTable, static, param, page}
use temp_js.Router.Decode
use temp_js.Router.Encode
use temp_js.Router.Encode.{write_path, IsPart, IsPartByte, decoded_path_segments-write_path}
use temp_js.Router.Decode.{IsSegment, decoded_path_segments, decoded_path_segments-IsSegment}
use temp_js.Router.Matching
use temp_js.Router.Matching.{Params, IsFirst, Fits, match_path_sound, match_path_complete}
use temp_js.Router.Order
use temp_js.Router.Order.{le_by, route_cmp}
use temp_js.Router.Scan
use temp_js.Router.Scan.{Entry, collect_routes, scan}
use temp_js.Router.Scan.Distinct.{Distinct, scan_sound}

abbrev file : List Str → Entry
file components = record {
  file_stem = some (lit "page");
  extension = some (lit "tsx");
  components = components;
  path = components;
}

abbrev user : Route
user = record {
  segments = static (lit "users") ∷ param (lit "id") ∷ [];
  file = lit "users" ∷ lit "[id]" ∷ [];
  kind = page;
  pattern = lit "/users/[id]";
}

abbrev users : Route
users = record {
  segments = static (lit "users") ∷ static (lit "me") ∷ [];
  file = lit "users" ∷ lit "me" ∷ [];
  kind = page;
  pattern = lit "/users/me";
}

abbrev entries : List Entry
entries = file (lit "users" ∷ lit "[id]" ∷ []) ∷ file (lit "users" ∷ lit "me" ∷ []) ∷ []

abbrev found : RouteTable
found = record { routes = users ∷ user ∷ [] }

-- The static segment comes first; an escape is decoded; a path that no route fits.
runs :
    (scan entries ≡ Scan.table found)
    × (decoded_path_segments (lit "/users/a%20b") ≡ some (lit "users" ∷ lit "a b" ∷ []))
    × (Matching.match_path found (lit "/users/a%20b") ≡ some (user, (lit "id", lit "a b") ∷ []))
    × (decoded_path_segments (lit "/x") ≡ some (lit "x" ∷ []))
    × (Matching.match_path found (lit "/x") ≡ none)
    × (decoded_path_segments (lit "/a%2Fb") ≡ none)
unfolding lit str_eq insert_by sort_by Decode.utf8_lead Decode.utf8_from Decode.hex_digit
    Decode.hex_byte Decode.decode_bytes Decode.percent_decode_path_segment Decode.split_from
    Decode.decode_all Decode.decoded_path_segments Matching.insert_param Matching.match_segments
    Matching.match_route Matching.first_match Matching.match_path Order.nat_cmp Order.list_cmp
    Order.segment_rank Order.segment_cmp Order.segments_cmp Order.by_pattern Order.route_cmp
    Scan.ends_with Scan.is_skipped Scan.kind_of Scan.before_bracket Scan.param_name Scan.segment_of
    Scan.read_components Scan.route_of Scan.collect_routes Scan.first_duplicate Scan.scan
runs = (refl, refl, refl, refl, refl, refl)

decoded_path_segments-IsSegment_example : All IsSegment (lit "users" ∷ lit "a b" ∷ [])
decoded_path_segments-IsSegment_example =
    decoded_path_segments-IsSegment (lit "/users/a%20b") (lit "users" ∷ lit "a b" ∷ []) runs.1

match_path_sound_example :
    (parts : List Str) × (decoded_path_segments (lit "/users/a%20b") ≡ some parts)
    × IsFirst found.routes parts user
match_path_sound_example =
    match_path_sound found (lit "/users/a%20b") user ((lit "id", lit "a b") ∷ []) runs.2

match_path_complete_example : All (λ r. ¬ Fits r.segments (lit "x" ∷ [])) found.routes
match_path_complete_example = match_path_complete found (lit "/x") (lit "x" ∷ []) runs.3 runs.4

scan_sound_example :
    Perm found.routes (collect_routes entries)
    × IsSorted (le_by route_cmp) found.routes
    × Distinct found.routes
scan_sound_example = scan_sound entries found runs.0

abbrev clash : List Entry
clash = file (lit "a" ∷ []) ∷ file (lit "a" ∷ lit "index" ∷ []) ∷ []

abbrev at_a : List Str → Route
at_a path = record {
  segments = static (lit "a") ∷ [];
  file = path;
  kind = page;
  pattern = lit "/a";
}

clashes : scan clash ≡ Scan.duplicate (at_a (lit "a" ∷ [])) (at_a (lit "a" ∷ lit "index" ∷ []))
unfolding lit str_eq insert_by sort_by Order.nat_cmp Order.list_cmp Order.by_pattern Scan.ends_with
    Scan.is_skipped Scan.kind_of Scan.before_bracket Scan.param_name Scan.segment_of
    Scan.read_components Scan.route_of Scan.collect_routes Scan.first_duplicate Scan.scan
clashes = refl

-- Letters stand for themselves.
abbrev lower : ℕ → Bool
lower b = leb b'a' b && leb b b'z'

-- The bytes of "a%é", and "u".
abbrev parts : List Str
parts = (b'a' ∷ b'%' ∷ 0xc3 ∷ 0xa9 ∷ []) ∷ (b'u' ∷ []) ∷ []

written : write_path lower parts ≡ lit "/a%25%C3%A9/u"
unfolding lit Encode.upper_hex Encode.percent_encode Encode.write_path
written = refl

part_byte : (b : ℕ) → ltb b 256 && not (b == 0) && not (b == b'/') ≡ true → IsPartByte b
part_byte b h = (ground (arith, h), (λ e. ground (arith, h, e)), (λ e. ground (arith, h, e)))

parts-IsPart : All IsPart parts
unfolding Decode.utf8_lead Decode.utf8_from
parts-IsPart = (
  (
    refl,
    (part_byte b'a' refl, (part_byte b'%' refl, (part_byte 0xc3 refl, (part_byte 0xa9 refl, tt)))),
    refl,
  ),
  ((refl, (part_byte b'u' refl, tt), refl), tt),
)

decoded_path_segments-write_path_example :
    decoded_path_segments (write_path lower parts) ≡ some parts
decoded_path_segments-write_path_example =
    decoded_path_segments-write_path lower parts refl parts-IsPart
