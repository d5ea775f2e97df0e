-- ===== src/Router/Order.antt =====
-- crates/beater-runtime/src/router.rs: the order of the routes in a table.
use temp_js.Prelude.{
  ℕ, Str, Bool, true, false, ◌≡◌, refl, sym, ap₂, ◌⊎◌, inl, inr, List, [], ◌∷◌, length, ltb, ◌==◌,
  arith, if◌then◌else◌,
}
use temp_js.Router.{Segment, static, param, Route}

-- `std::cmp::Ordering`
pub data Ordering : Type 0 where
  less : Ordering
  equal : Ordering
  greater : Ordering

abbrev pub flip : Ordering → Ordering
flip less = greater
flip equal = equal
flip greater = less

-- `then_with`
abbrev pub then_with : Ordering → Ordering → Ordering
then_with equal o = o
then_with less o = less
then_with greater o = greater

unfoldable pub nat_cmp : ℕ → ℕ → Ordering
nat_cmp a b = if ltb a b then less else if a == b then equal else greater

-- The order of slices, strings and paths: by their items, then by their lengths.
unfoldable pub list_cmp {ℓ} : {A : Type ℓ} → (A → A → Ordering) → List A → List A → Ordering
list_cmp cmp [] [] = equal
list_cmp cmp [] (b ∷ t) = less
list_cmp cmp (a ∷ s) [] = greater
list_cmp cmp (a ∷ s) (b ∷ t) = then_with (cmp a b) (list_cmp cmp s t)

abbrev pub str_cmp : Str → Str → Ordering
str_cmp = list_cmp nat_cmp

abbrev pub path_cmp : List Str → List Str → Ordering
path_cmp = list_cmp str_cmp

unfoldable pub segment_rank : Segment → ℕ × Str
segment_rank (static value) = (0, value)
segment_rank (param value) = (1, value)

-- The order of the pairs that `segment_rank` gives.
unfoldable pub segment_cmp : Segment → Segment → Ordering
unfolding segment_rank
segment_cmp left right =
    let (kind, value) = segment_rank left in
    let (kind', value') = segment_rank right in
    then_with (nat_cmp kind kind') (str_cmp value value')

-- The first difference between the segments that both routes have.
unfoldable pub segments_cmp : List Segment → List Segment → Ordering
unfolding segment_cmp
segments_cmp (l ∷ ls) (r ∷ rs) = then_with (segment_cmp l r) (segments_cmp ls rs)
segments_cmp [] rs = equal
segments_cmp (l ∷ ls) [] = equal

unfoldable pub by_pattern : Route → Route → Ordering
by_pattern left right =
    then_with (str_cmp left.pattern right.pattern) (path_cmp left.file right.file)

unfoldable pub route_cmp : Route → Route → Ordering
unfolding segments_cmp by_pattern
route_cmp left right =
    then_with (segments_cmp left.segments right.segments)
      (then_with (nat_cmp (length left.segments) (length right.segments)) (by_pattern left right))

abbrev pub le_by {ℓ} : {A : Type ℓ} → (A → A → Ordering) → A → A → Bool
le_by cmp a b = elim (cmp a b) [ greater ↦ false | _ ↦ true ]

-- An order whose two directions agree.
abbrev pub Flips {ℓ} : {A : Type ℓ} → (A → A → Ordering) → Type ℓ
Flips {A} cmp = (a b : A) → cmp b a ≡ flip (cmp a b)

flip-then_with : (a b : Ordering) → flip (then_with a b) ≡ then_with (flip a) (flip b)
flip-then_with less b = refl
flip-then_with equal b = refl
flip-then_with greater b = refl

nat_cmp-Flips : Flips nat_cmp
unfolding nat_cmp
nat_cmp-Flips a b = ground arith

list_cmp-Flips {ℓ} : {A : Type ℓ} (cmp : A → A → Ordering) → Flips cmp → Flips (list_cmp cmp)
unfolding list_cmp
list_cmp-Flips cmp f [] [] = refl
list_cmp-Flips cmp f [] (b ∷ t) = refl
list_cmp-Flips cmp f (a ∷ s) [] = refl
list_cmp-Flips cmp f (a ∷ s) (b ∷ t) =
    rw (f a b, list_cmp-Flips cmp f s t) (sym (flip-then_with (cmp a b) (list_cmp cmp s t)))

segment_cmp-Flips : Flips segment_cmp
unfolding segment_cmp
segment_cmp-Flips l r =
    rw
      (
        nat_cmp-Flips (segment_rank l).0 (segment_rank r).0,
        list_cmp-Flips nat_cmp nat_cmp-Flips (segment_rank l).1 (segment_rank r).1,
      )
      (sym (flip-then_with (nat_cmp (segment_rank l).0 (segment_rank r).0) _))

segments_cmp-Flips : Flips segments_cmp
unfolding segments_cmp
segments_cmp-Flips [] [] = refl
segments_cmp-Flips [] (r ∷ rs) = refl
segments_cmp-Flips (l ∷ ls) [] = refl
segments_cmp-Flips (l ∷ ls) (r ∷ rs) =
    rw (segment_cmp-Flips l r, segments_cmp-Flips ls rs)
      (sym (flip-then_with (segment_cmp l r) (segments_cmp ls rs)))

pub by_pattern-Flips : Flips by_pattern
unfolding by_pattern
by_pattern-Flips l r =
    rw
      (
        list_cmp-Flips nat_cmp nat_cmp-Flips l.pattern r.pattern,
        list_cmp-Flips str_cmp (list_cmp-Flips nat_cmp nat_cmp-Flips) l.file r.file,
      )
      (sym (flip-then_with (str_cmp l.pattern r.pattern) (path_cmp l.file r.file)))

pub route_cmp-Flips : Flips route_cmp
unfolding route_cmp
route_cmp-Flips l r = rw (
  segments_cmp-Flips l.segments r.segments,
  nat_cmp-Flips (length l.segments) (length r.segments),
  by_pattern-Flips l r,
  flip-then_with (segments_cmp l.segments r.segments)
      (then_with (nat_cmp (length l.segments) (length r.segments)) (by_pattern l r)),
  flip-then_with (nat_cmp (length l.segments) (length r.segments)) (by_pattern l r),
)

pub le_by_total {ℓ} :
    {A : Type ℓ} (cmp : A → A → Ordering)
    → Flips cmp
    → (a b : A) → le_by cmp a b ≡ false
    → le_by cmp b a ≡ true
le_by_total cmp f a b h = rw (f a b, le_by) (turned (cmp a b) h)
  where
    turned :
        (o : Ordering)
        → elim o [ greater ↦ false | _ ↦ true ] ≡ false
        → elim (flip o) [ greater ↦ false | _ ↦ true ] ≡ true
    turned less h = cc
    turned equal h = refl
    turned greater h = refl

-- Orders that say equal of equal items only, and whose strict part is transitive.
pub record IsStrict {ℓ} {A : Type ℓ} (cmp : A → A → Ordering) : Type ℓ where
  pub same : (a b : A) → cmp a b ≡ equal → a ≡ b
  pub reflexive : (a : A) → cmp a a ≡ equal
  pub trans : (a b c : A) → cmp a b ≡ less → cmp b c ≡ less → cmp a c ≡ less

nat_cmp-IsStrict : IsStrict nat_cmp
unfolding nat_cmp
nat_cmp-IsStrict = record {
  same = λ a b h. ground arith;
  reflexive = λ a. ground arith;
  trans = λ a b c h k. ground arith;
}

then_equal : (a b : Ordering) → then_with a b ≡ equal → (a ≡ equal) × (b ≡ equal)
then_equal less b h = cc
then_equal equal b h = (refl, h)
then_equal greater b h = cc

pub then_less : (a b : Ordering) → then_with a b ≡ less → (a ≡ less) ⊎ ((a ≡ equal) × (b ≡ less))
then_less less b h = inl refl
then_less equal b h = inr (refl, h)
then_less greater b h = cc

module _ {ℓ} {A : Type ℓ} (cmp : A → A → Ordering) (strict : IsStrict cmp) where
  list_same : (s t : List A) → list_cmp cmp s t ≡ equal → s ≡ t
  unfolding list_cmp
  list_same [] [] h = refl
  list_same [] (b ∷ t) h = cc
  list_same (a ∷ s) [] h = cc
  list_same (a ∷ s) (b ∷ t) h =
      let (first, rest) = then_equal (cmp a b) (list_cmp cmp s t) h in
      ap₂ (λ x xs. x ∷ xs) (strict.same a b first) (list_same s t rest)

  list_reflexive : (s : List A) → list_cmp cmp s s ≡ equal
  unfolding list_cmp
  list_reflexive [] = refl
  list_reflexive (a ∷ s) = rw (strict.reflexive a) (list_reflexive s)

  list_trans :
      (s t u : List A) → list_cmp cmp s t ≡ less → list_cmp cmp t u ≡ less → list_cmp cmp s u ≡ less
  unfolding list_cmp
  list_trans [] [] u h k = cc
  list_trans [] (b ∷ t) [] h k = cc
  list_trans [] (b ∷ t) (c ∷ u) h k = refl
  list_trans (a ∷ s) [] u h k = cc
  list_trans (a ∷ s) (b ∷ t) [] h k = cc
  list_trans (a ∷ s) (b ∷ t) (c ∷ u) h k = elim (then_less (cmp a b) (list_cmp cmp s t) h) [
    | inl ab ↦ elim (then_less (cmp b c) (list_cmp cmp t u) k) [
      | inl bc ↦ rw (strict.trans a b c ab bc)
      | inr (bc, tu) ↦ rw (sym (strict.same b c bc), ab)
    ]
    | inr (ab, st) ↦ elim (then_less (cmp b c) (list_cmp cmp t u) k) [
      | inl bc ↦ rw (strict.same a b ab, bc)
      | inr (bc, tu) ↦ rw (strict.same a b ab, bc) (list_trans s t u st tu)
    ]
  ]

  list_cmp-IsStrict : IsStrict (list_cmp cmp)
  list_cmp-IsStrict = record { same = list_same; reflexive = list_reflexive; trans = list_trans }

pub str_cmp-IsStrict : IsStrict str_cmp
str_cmp-IsStrict = list_cmp-IsStrict nat_cmp nat_cmp-IsStrict
