-- ===== src/Router/Scan.antt =====
-- crates/beater-runtime/src/router.rs: `scan`, from the files below `app/routes` to the table.
pub mod Distinct
use temp_js.Prelude.{
  Str, lit, Bool, true, false, ◌||◌, ◌≡◌, ◌≢◌, refl, sym, ap, ◌∙◌, subst, inl, inr, Option, none,
  some, List, [], ◌∷◌, ◌++◌, All, All-imp, any, str_eq, ◌==◌, sort_by, sort_by-IsSorted,
  sort_by-perm, IsSorted, arith, Bool-cases, Option-cases, if◌then◌else◌,
}
use temp_js.Router.{RouteKind, api, page, Segment, static, param, Route, RouteTable}
use temp_js.Router.Order.{
  Ordering, less, equal, greater, str_cmp, path_cmp, by_pattern, by_pattern-Flips, route_cmp,
  route_cmp-Flips, le_by, le_by_total, str_cmp-IsStrict, then_less, then_with,
}

-- A file that `WalkDir` lists: what `file_stem` and `extension` give, where they are UTF-8, and the
-- components of the path below `app/routes` without its extension.
pub record Entry : Type 0 where
  pub file_stem : Option Str
  pub extension : Option Str
  pub components : List Str
  pub path : List Str

-- "duplicate route pattern {} maps to both {} and {}"
pub data Scanned : Type 0 where
  table : RouteTable → Scanned
  duplicate : Route → Route → Scanned

unfoldable pub ends_with : Str → Str → Bool
ends_with suffix [] = str_eq [] suffix
ends_with suffix (b ∷ s) = str_eq (b ∷ s) suffix || ends_with suffix s

unfoldable pub is_skipped : Option Str → Bool
unfolding ends_with
is_skipped none = false
is_skipped (some stem) = ends_with (lit ".client") stem || ends_with (lit ".server") stem

unfoldable pub kind_of : Option Str → Option RouteKind
kind_of none = none
kind_of (some e) =
    if str_eq e (lit "ts") || str_eq e (lit "js") || str_eq e (lit "mjs")
    then some api
    else if str_eq e (lit "tsx") || str_eq e (lit "jsx")
    then some page
    else none

-- `strip_suffix(']')`
unfoldable pub before_bracket : Str → Option Str
before_bracket [] = none
before_bracket (b ∷ []) = if b == b']' then some [] else none
before_bracket (b ∷ c ∷ s) = elim (before_bracket (c ∷ s)) [
  | none ↦ none
  | some name ↦ some (b ∷ name)
]

-- `strip_prefix('[')`, then `strip_suffix(']')`.
unfoldable pub param_name : Str → Option Str
unfolding before_bracket
param_name [] = none
param_name (b ∷ s) = if b == b'[' then before_bracket s else none

unfoldable pub segment_of : Str → Segment
unfolding param_name
segment_of comp = elim (param_name comp) [ some name ↦ param name | none ↦ static comp ]

-- The loop over the components; a trailing `index` maps to the directory.
unfoldable pub read_components : List Str → Str × List Segment
unfolding segment_of
read_components [] = ([], [])
read_components (comp ∷ []) =
    if str_eq comp (lit "index") then ([], []) else (b'/' ∷ comp, segment_of comp ∷ [])
read_components (comp ∷ next ∷ rest) =
    let (pattern, segments) = read_components (next ∷ rest) in
    ((b'/' ∷ comp) ++ pattern, segment_of comp ∷ segments)

abbrev or_root : Str → Str
or_root [] = lit "/"
or_root (b ∷ s) = b ∷ s

abbrev route_at : Entry → RouteKind → Route
route_at entry kind =
    let (pattern, segments) = read_components entry.components in
    record { segments = segments; file = entry.path; kind = kind; pattern = or_root pattern }

unfoldable pub route_of : Entry → Option Route
unfolding is_skipped kind_of read_components
route_of entry =
    if is_skipped entry.file_stem
    then none
    else elim (kind_of entry.extension) [ none ↦ none | some kind ↦ some (route_at entry kind) ]

unfoldable pub collect_routes : List Entry → List Route
unfolding route_of
collect_routes [] = []
collect_routes (entry ∷ entries) =
    let rest = collect_routes entries in
    elim (route_of entry) [ none ↦ rest | some route ↦ route ∷ rest ]

-- The loop over `routes_by_pattern.windows(2)`.
unfoldable pub first_duplicate : List Route → Option (Route × Route)
first_duplicate [] = none
first_duplicate (left ∷ []) = none
first_duplicate (left ∷ right ∷ routes) =
    let rest = first_duplicate (right ∷ routes) in
    if str_eq left.pattern right.pattern then some (left, right) else rest

unfoldable pub scan : List Entry → Scanned
unfolding collect_routes first_duplicate
scan entries =
    let routes = collect_routes entries in
    elim (first_duplicate (sort_by (le_by by_pattern) routes)) [
      | some (left, right) ↦ duplicate left right
      | none ↦ table (record { routes = sort_by (le_by route_cmp) routes })
    ]
