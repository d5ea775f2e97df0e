-- ===== src/Prelude/Text.antt =====
-- A Rust string is the list of its UTF-8 bytes.
use Prim.Native.Nat.{ℕ, ◌+◌}
use Prim.Native.Char.{code}
use Prim.Native.String.{String}
use mathlib.Core.Path.{◌≡◌, refl, ap₂}
use mathlib.Core.Logic.{◌↔◌}
use mathlib.Core.Bool.{Bool, true, false, ◌&&◌, ◌||◌}
use mathlib.Core.List.{List, [], ◌∷◌}
use native.Mathlib.Omega.{arith}
use temp_js.Prelude.Tests.{ltb, leb, ◌==◌, if◌then◌else◌}

abbrev pub Str : Type 0
Str = List ℕ

-- A literal of the source, all of which are ASCII.
unfoldable pub lit : String → Str
lit String.[] = []
lit (String.◌∷◌ c s) = code c ∷ lit s

unfoldable pub str_eq : Str → Str → Bool
str_eq [] [] = true
str_eq (a ∷ s) (b ∷ t) = (a == b) && str_eq s t
str_eq _ _ = false

pub str_eq_iff : (s t : Str) → (str_eq s t ≡ true) ↔ (s ≡ t)
unfolding str_eq
str_eq_iff [] [] = ground arith
str_eq_iff [] (b ∷ t) = ground arith
str_eq_iff (a ∷ s) [] = ground arith
str_eq_iff (a ∷ s) (b ∷ t) = ground (arith, str_eq_iff s t)

pub str_eq_refl : (s : Str) → str_eq s s ≡ true
str_eq_refl s = (str_eq_iff s s).1 refl

-- `s.starts_with(prefix)`
unfoldable pub starts_with : Str → Str → Bool
starts_with [] s = true
starts_with (a ∷ p) (b ∷ s) = (a == b) && starts_with p s
starts_with (a ∷ p) [] = false

-- `s.contains(word)`
unfoldable pub contains : Str → Str → Bool
unfolding starts_with
contains word [] = starts_with word []
contains word (b ∷ s) = starts_with word (b ∷ s) || contains word s

abbrev pub is_ascii_digit : ℕ → Bool
is_ascii_digit b = leb b'0' b && leb b b'9'

abbrev pub is_ascii_upper : ℕ → Bool
is_ascii_upper b = leb b'A' b && leb b b'Z'

abbrev pub is_ascii_lower : ℕ → Bool
is_ascii_lower b = leb b'a' b && leb b b'z'

unfoldable pub is_ascii_alphanumeric : ℕ → Bool
is_ascii_alphanumeric b = is_ascii_digit b || is_ascii_upper b || is_ascii_lower b

unfoldable pub to_ascii_lowercase : Str → Str
to_ascii_lowercase [] = []
to_ascii_lowercase (b ∷ s) = (if is_ascii_upper b then b + 32 else b) ∷ to_ascii_lowercase s

-- The order of `String`, that of the bytes.
unfoldable pub str_leb : Str → Str → Bool
str_leb [] t = true
str_leb (a ∷ s) [] = false
str_leb (a ∷ s) (b ∷ t) = ltb a b || (a == b) && str_leb s t

pub str_leb_total : (s t : Str) → str_leb s t ≡ false → str_leb t s ≡ true
unfolding str_leb
str_leb_total [] t h = cc
str_leb_total (a ∷ s) [] h = refl
str_leb_total (a ∷ s) (b ∷ t) h = ground (arith, str_leb_total s t)

pub str_leb_antisym : (s t : Str) → str_leb s t ≡ true → str_leb t s ≡ true → s ≡ t
unfolding str_leb
str_leb_antisym [] [] h k = refl
str_leb_antisym [] (b ∷ t) h k = absurd (cc k)
str_leb_antisym (a ∷ s) [] h k = absurd (cc h)
str_leb_antisym (a ∷ s) (b ∷ t) h k =
    let same : a ≡ b = ground (arith, h, k) in
    let rest : s ≡ t = str_leb_antisym s t (ground (arith, h, k)) (ground (arith, h, k)) in
    ap₂ (λ x xs. x ∷ xs) same rest

pub str_leb_trans : (s t u : Str) → str_leb s t ≡ true → str_leb t u ≡ true → str_leb s u ≡ true
unfolding str_leb
str_leb_trans [] t u h k = refl
str_leb_trans (a ∷ s) [] u h k = absurd (cc h)
str_leb_trans (a ∷ s) (b ∷ t) [] h k = absurd (cc k)
str_leb_trans (a ∷ s) (b ∷ t) (c ∷ u) h k = ground (arith, str_leb_trans s t u)
