-- ===== src/Router/Scan/Distinct.antt =====
-- crates/beater-runtime/src/router.rs: the table that `scan` returns is ordered, and its patterns differ.
use temp_js.Prelude.{
  Bool, true, false, ◌≡◌, ◌≢◌, refl, sym, subst, inl, inr, none, List, [], ◌∷◌, All, All-imp,
  str_eq, str_eq_iff, sort_by, sort_by-IsSorted, sort_by-perm, insert_by, ◌↔◌, IsSorted, arith,
  Bool-cases, Option-cases,
}
use mathlib.Core.List.{Perm}
use temp_js.Router.{Route, RouteTable}
use temp_js.Router.Order.{
  Ordering, less, equal, greater, str_cmp, by_pattern, by_pattern-Flips, route_cmp, route_cmp-Flips,
  le_by, le_by_total, str_cmp-IsStrict,
}
use temp_js.Router.Scan.{Entry, table, collect_routes, first_duplicate, scan}

abbrev pub Apart : Route → Route → Type 0
Apart a b = a.pattern ≢ b.pattern

-- No two of the routes have the same pattern.
abbrev pub Distinct : List Route → Type 0
Distinct [] = Unit
Distinct (route ∷ routes) = All (Apart route) routes × Distinct routes

module _ (le : Route → Route → Bool) where
  All-insert_by :
      (P : Route → Type 0) (x : Route) (xs : List Route)
      → All P (insert_by le x xs) ↔ (P x × All P xs)
  unfolding insert_by
  All-insert_by P x [] = ((λ h. h), (λ h. h))
  All-insert_by P x (y ∷ ys) = elim (Bool-cases (le x y)) [
    | inl e ↦ rw e ((λ h. h), (λ h. h))
    | inr e ↦
        let (there, back) = All-insert_by P x ys in
        rw e
          ((λ h. let (px, pys) = there h.1 in (px, (h.0, pys))), (λ h. (h.1.0, back (h.0, h.1.1))))
  ]

  Distinct-insert_by :
      (x : Route) (xs : List Route)
      → Distinct (insert_by le x xs) ↔ (All (Apart x) xs × Distinct xs)
  unfolding insert_by
  Distinct-insert_by x [] = ((λ h. h), (λ h. h))
  Distinct-insert_by x (y ∷ ys) = elim (Bool-cases (le x y)) [
    | inl e ↦ rw e ((λ h. h), (λ h. h))
    | inr e ↦
        let (there, back) = Distinct-insert_by x ys in
        let (all_there, all_back) = All-insert_by (Apart y) x ys in
        rw e (
          (λ h.
              let (yx, yys) = all_there h.0 in
              let (xys, ds) = there h.1 in (((λ e. yx (sym e)), xys), (yys, ds))),
          (λ h. (all_back ((λ e. h.0.0 (sym e)), h.1.0), back (h.0.1, h.1.1))),
        )
  ]

  All-sort_by : (P : Route → Type 0) (xs : List Route) → All P (sort_by le xs) ↔ All P xs
  unfolding sort_by
  All-sort_by P [] = ((λ h. h), (λ h. h))
  All-sort_by P (x ∷ xs) =
      let (there, back) = All-insert_by P x (sort_by le xs) in
      let (all_there, all_back) = All-sort_by P xs in
      ((λ h. let (px, pxs) = there h in (px, all_there pxs)), (λ h. back (h.0, all_back h.1)))

  -- Sorting neither makes nor loses a duplicate.
  Distinct-sort_by : (xs : List Route) → Distinct (sort_by le xs) ↔ Distinct xs
  unfolding sort_by
  Distinct-sort_by [] = ((λ h. h), (λ h. h))
  Distinct-sort_by (x ∷ xs) =
      let (there, back) = Distinct-insert_by x (sort_by le xs) in
      let (all_there, all_back) = All-sort_by (Apart x) xs in
      let (d_there, d_back) = Distinct-sort_by xs in
      (
        (λ h. let (px, pxs) = there h in (all_there px, d_there pxs)),
        (λ h. back (all_back h.0, d_back h.1)),
      )

-- Each pattern is below the next one.
abbrev Chain : List Route → Type 0
Chain [] = Unit
Chain (left ∷ []) = Unit
Chain (left ∷ right ∷ routes) = (str_cmp left.pattern right.pattern ≡ less) × Chain (right ∷ routes)

step :
    (left right : Route)
    → le_by by_pattern left right ≡ true
    → str_eq left.pattern right.pattern ≡ false
    → str_cmp left.pattern right.pattern ≡ less
unfolding by_pattern
step left right h k = by_order (str_cmp left.pattern right.pattern) refl
  where
    by_order :
        (o : Ordering)
        → str_cmp left.pattern right.pattern ≡ o
        → str_cmp left.pattern right.pattern ≡ less
    by_order less e = e
    by_order equal e =
        absurd
          (ground (arith, (str_eq_iff left.pattern right.pattern).1 (str_cmp-IsStrict.same _ _ e)))
    by_order greater e = absurd (ground arith)

chain :
    (routes : List Route)
    → IsSorted (le_by by_pattern) routes
    → first_duplicate routes ≡ none
    → Chain routes
unfolding first_duplicate
chain [] h e = tt
chain (left ∷ []) h e = tt
chain (left ∷ right ∷ routes) h e = elim (Bool-cases (str_eq left.pattern right.pattern)) [
  | inl same ↦ absurd (ground arith)
  | inr differs ↦ (step left right h.0 differs, chain (right ∷ routes) h.1 (ground arith))
]

above :
    (left right : Route) (routes : List Route)
    → str_cmp left.pattern right.pattern ≡ less
    → Chain (right ∷ routes)
    → All (λ r. str_cmp left.pattern r.pattern ≡ less) routes
above left right [] h c = tt
above left right (next ∷ routes) h c =
    let further = str_cmp-IsStrict.trans left.pattern right.pattern next.pattern h c.0 in
    (further, above left next routes further c.1)

less-Apart : (left right : Route) → str_cmp left.pattern right.pattern ≡ less → Apart left right
less-Apart left right h same =
    cc (
      h,
      subst (λ s. str_cmp left.pattern s ≡ equal) same (str_cmp-IsStrict.reflexive left.pattern),
    )

Chain-Distinct : (routes : List Route) → Chain routes → Distinct routes
Chain-Distinct [] c = tt
Chain-Distinct (left ∷ []) c = (tt, tt)
Chain-Distinct (left ∷ right ∷ routes) c = (
  (
    less-Apart left right c.0,
    All-imp _ (Apart left) routes (λ r. less-Apart left r) (above left right routes c.0 c.1),
  ),
  Chain-Distinct (right ∷ routes) c.1,
)

-- A table that `scan` returns holds the routes of the listed files, each as often as it was found,
-- in the order by static segments before parameters; no two of them have the same pattern.
pub scan_sound :
    (entries : List Entry) (found : RouteTable)
    → scan entries ≡ table found
    → Perm found.routes (collect_routes entries)
      × IsSorted (le_by route_cmp) found.routes
      × Distinct found.routes
unfolding scan
scan_sound entries found e =
    let routes = collect_routes entries in
    elim (Option-cases (first_duplicate (sort_by (le_by by_pattern) routes))) [
      | inr (pair, clash) ↦ absurd (ground arith)
      | inl fine ↦
          let same : record { routes = sort_by (le_by route_cmp) routes } ≡ found = ground arith in
          let sorted =
            sort_by-IsSorted (le_by by_pattern) (le_by_total by_pattern by_pattern-Flips) routes in
          let distinct = (Distinct-sort_by (le_by by_pattern) routes).0 (
            Chain-Distinct (sort_by (le_by by_pattern) routes)
              (chain (sort_by (le_by by_pattern) routes) sorted fine)) in
          subst
            (λ t. Perm t.routes routes × IsSorted (le_by route_cmp) t.routes × Distinct t.routes)
            same
            (
              sort_by-perm (le_by route_cmp) routes,
              sort_by-IsSorted (le_by route_cmp) (le_by_total route_cmp route_cmp-Flips) routes,
              (Distinct-sort_by (le_by route_cmp) routes).1 distinct,
            )
    ]
