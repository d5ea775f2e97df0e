-- ===== src/Router/Matching.antt =====
-- crates/beater-runtime/src/router.rs: `match_path`, the first route that fits a request path.
use temp_js.Prelude.{
  suc, Str, Bool, ◌≡◌, refl, ap, subst, inl, inr, Option, none, some, List, [], ◌∷◌, ◌++◌, any,
  update, length, All, str_eq, str_eq_iff, ◌==◌, arith, Bool-cases, Option-cases, if◌then◌else◌,
}
use temp_js.Router.{Segment, static, param, Route, RouteTable}
use temp_js.Router.Decode.{decoded_path_segments}

-- A `HashMap<String, String>`, as its entries.
abbrev pub Params : Type 0
Params = List (Str × Str)

abbrev names : Str → Str × Str → Bool
names name entry = str_eq entry.0 name

-- `params.insert(name, value)`
unfoldable pub insert_param : Str → Str → Params → Params
insert_param name value params =
    if any (names name) params
    then update (names name) (λ entry. (name, value)) params
    else params ++ (name, value) ∷ []

-- The loop over `route.segments.iter().zip(&parts)`, which ends with the shorter.
unfoldable pub match_segments : List Segment → List Str → Params → Option Params
unfolding insert_param
match_segments (static s ∷ segments) (part ∷ parts) params =
    let rest = match_segments segments parts params in if str_eq s part then rest else none
match_segments (param name ∷ segments) (part ∷ parts) params =
    match_segments segments parts (insert_param name part params)
match_segments [] parts params = some params
match_segments (segment ∷ segments) [] params = some params

unfoldable pub match_route : Route → List Str → Option Params
unfolding match_segments
match_route route parts =
    if length route.segments == length parts then match_segments route.segments parts [] else none

unfoldable pub first_match : List Route → List Str → Option (Route × Params)
unfolding match_route
first_match [] parts = none
first_match (route ∷ routes) parts =
    let rest = first_match routes parts in
    elim (match_route route parts) [ some params ↦ some (route, params) | none ↦ rest ]

unfoldable pub match_path : RouteTable → Str → Option (Route × Params)
unfolding first_match
match_path table path = elim (decoded_path_segments path) [
  | none ↦ none
  | some parts ↦ first_match table.routes parts
]

-- What a route promises: as many parts as segments, and each static segment is its part.
abbrev pub Fits : List Segment → List Str → Type 0
Fits [] [] = Unit
Fits (static s ∷ segments) (part ∷ parts) = (s ≡ part) × Fits segments parts
Fits (param name ∷ segments) (part ∷ parts) = Fits segments parts
Fits _ _ = ⊥

match_segments_sound :
    (segments : List Segment) (parts : List Str) (params found : Params)
    → length segments ≡ length parts
    → match_segments segments parts params ≡ some found
    → Fits segments parts
unfolding match_segments
match_segments_sound [] [] params found same e = tt
match_segments_sound [] (part ∷ parts) params found same e = ground arith
match_segments_sound (segment ∷ segments) [] params found same e = ground arith
match_segments_sound (param name ∷ segments) (part ∷ parts) params found same e =
    match_segments_sound segments parts (insert_param name part params) found (ground arith) e
match_segments_sound (static s ∷ segments) (part ∷ parts) params found same e =
    elim (Bool-cases (str_eq s part)) [
      | inl equal ↦ (
        (str_eq_iff s part).0 equal,
        match_segments_sound segments parts params found (ground arith) (ground arith),
      )
      | inr differs ↦ absurd (ground arith)
    ]

match_segments_complete :
    (segments : List Segment) (parts : List Str) (params : Params)
    → Fits segments parts
    → (found : Params) × (match_segments segments parts params ≡ some found)
unfolding match_segments
match_segments_complete [] [] params h = (params, refl)
match_segments_complete [] (part ∷ parts) params h = absurd h
match_segments_complete (static s ∷ segments) [] params h = absurd h
match_segments_complete (param name ∷ segments) [] params h = absurd h
match_segments_complete (param name ∷ segments) (part ∷ parts) params h =
    match_segments_complete segments parts (insert_param name part params) h
match_segments_complete (static s ∷ segments) (part ∷ parts) params h =
    let (found, e) = match_segments_complete segments parts params h.1 in
    (found, ground (arith, str_eq_iff s part))

Fits-length :
    (segments : List Segment) (parts : List Str)
    → Fits segments parts
    → length segments ≡ length parts
Fits-length [] [] h = refl
Fits-length [] (part ∷ parts) h = absurd h
Fits-length (static s ∷ segments) [] h = absurd h
Fits-length (param name ∷ segments) [] h = absurd h
Fits-length (static s ∷ segments) (part ∷ parts) h = ap suc (Fits-length segments parts h.1)
Fits-length (param name ∷ segments) (part ∷ parts) h = ap suc (Fits-length segments parts h)

match_route_sound :
    (route : Route) (parts : List Str) (found : Params)
    → match_route route parts ≡ some found
    → Fits route.segments parts
unfolding match_route
match_route_sound route parts found e =
    match_segments_sound route.segments parts [] found (ground arith) (ground arith)

match_route_complete :
    (route : Route) (parts : List Str)
    → Fits route.segments parts
    → (found : Params) × (match_route route parts ≡ some found)
unfolding match_route
match_route_complete route parts h =
    let (found, e) = match_segments_complete route.segments parts [] h in
    let same = Fits-length route.segments parts h in (found, ground arith)

match_route_refuses :
    (route : Route) (parts : List Str)
    → match_route route parts ≡ none
    → ¬ Fits route.segments parts
match_route_refuses route parts e h =
    let (found, hit) = match_route_complete route parts h in cc (e, hit)

-- Where the route stands in the table.
pub record IsFirst (routes : List Route) (parts : List Str) (route : Route) : Type 0 where
  pub before : List Route
  pub after : List Route
  pub split : routes ≡ before ++ route ∷ after
  pub earlier : All (λ r. ¬ Fits r.segments parts) before
  pub fits : Fits route.segments parts

first_match_sound :
    (routes : List Route) (parts : List Str) (route : Route) (params : Params)
    → first_match routes parts ≡ some (route, params)
    → IsFirst routes parts route
unfolding first_match
first_match_sound [] parts route params e = absurd (cc e)
first_match_sound (r ∷ routes) parts route params e = elim (Option-cases (match_route r parts)) [
  | inl refused ↦
      let first = first_match_sound routes parts route params (ground arith) in
      record {
        before = r ∷ first.before;
        after = first.after;
        split = ap (λ rs. r ∷ rs) first.split;
        earlier = (match_route_refuses r parts refused, first.earlier);
        fits = first.fits;
      }
  | inr (found, hit) ↦
      let same : r ≡ route = ground arith in
      record {
        before = [];
        after = routes;
        split = ap (λ x. x ∷ routes) same;
        earlier = tt;
        fits = subst (λ x. Fits x.segments parts) same (match_route_sound r parts found hit);
      }
]

first_match-none :
    (routes : List Route) (parts : List Str)
    → first_match routes parts ≡ none
    → All (λ r. ¬ Fits r.segments parts) routes
unfolding first_match
first_match-none [] parts e = tt
first_match-none (r ∷ routes) parts e = elim (Option-cases (match_route r parts)) [
  | inl refused ↦
      (match_route_refuses r parts refused, first_match-none routes parts (ground arith))
  | inr (found, hit) ↦ absurd (ground arith)
]

-- `match_path` answers with the first route of the table that fits the decoded parts of the path:
-- its static segments are those parts, and no earlier route fits them.
pub match_path_sound :
    (table : RouteTable) (path : Str) (route : Route) (params : Params)
    → match_path table path ≡ some (route, params)
    → (parts : List Str) × (decoded_path_segments path ≡ some parts)
      × IsFirst table.routes parts route
unfolding match_path
match_path_sound table path route params e = elim (Option-cases (decoded_path_segments path)) [
  | inl failed ↦ absurd (ground arith)
  | inr (parts, decoded) ↦
      (parts, decoded, first_match_sound table.routes parts route params (ground arith))
]

-- `match_path` answers nothing for a path that decodes only if no route of the table fits its parts.
pub match_path_complete :
    (table : RouteTable) (path : Str) (parts : List Str)
    → decoded_path_segments path ≡ some parts
    → match_path table path ≡ none
    → All (λ r. ¬ Fits r.segments parts) table.routes
unfolding match_path
match_path_complete table path parts decoded e = first_match-none table.routes parts (ground arith)
