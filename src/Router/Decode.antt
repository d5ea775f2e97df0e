-- ===== src/Router/Decode.antt =====
-- crates/beater-runtime/src/router.rs: the segments of a request path.
use temp_js.Prelude.{
  ℕ, zero, suc, ◌+◌, ◌*◌, ◌-◌, Str, Bool, true, false, ◌&&◌, ◌||◌, ◌≡◌, ◌≢◌, refl, sym, subst, ◌∙◌,
  inl, inr, Option, none, some, List, [], ◌∷◌, select, All, All-select, leb, ◌==◌, arith,
  Bool-cases, Option-cases, if◌then◌else◌,
}

-- What may follow a lead byte: how many bytes, and the bounds of the first of them.
unfoldable pub utf8_lead : ℕ → Option (ℕ × ℕ × ℕ)
utf8_lead b =
    if leb b 0x7f
    then some (0, 0, 0)
    else if leb 0xc2 b && leb b 0xdf
    then some (1, 0x80, 0xbf)
    else if b == 0xe0
    then some (2, 0xa0, 0xbf)
    else if b == 0xed
    then some (2, 0x80, 0x9f)
    else if leb 0xe1 b && leb b 0xef
    then some (2, 0x80, 0xbf)
    else if b == 0xf0
    then some (3, 0x90, 0xbf)
    else if leb 0xf1 b && leb b 0xf3
    then some (3, 0x80, 0xbf)
    else if b == 0xf4
    then some (3, 0x80, 0x8f)
    else none

-- `String::from_utf8` accepts the bytes: `pending` bytes of a character are still to come, the next
-- one within the bounds.
unfoldable pub utf8_from : ℕ → ℕ → ℕ → Str → Bool
unfolding utf8_lead
utf8_from zero low high [] = true
utf8_from (suc pending) low high [] = false
utf8_from zero low high (b ∷ s) = elim (utf8_lead b) [
  | none ↦ false
  | some (pending, low, high) ↦ utf8_from pending low high s
]
utf8_from (suc pending) low high (b ∷ s) = leb low b && leb b high && utf8_from pending 0x80 0xbf s

abbrev pub valid_utf8 : Str → Bool
valid_utf8 = utf8_from 0 0 0

unfoldable pub hex_digit : ℕ → Option ℕ
hex_digit byte =
    if leb b'0' byte && leb byte b'9'
    then some (byte - b'0')
    else if leb b'a' byte && leb byte b'f'
    then some (byte - b'a' + 10)
    else if leb b'A' byte && leb byte b'F'
    then some (byte - b'A' + 10)
    else none

-- `e?`
infixl 5 ◌>>=◌
abbrev pub ◌>>=◌ {ℓ κ} : {A : Type ℓ} {B : Type κ} → Option A → (A → Option B) → Option B
none >>= f = none
some a >>= f = f a

unfoldable pub hex_byte : ℕ → ℕ → Option ℕ
unfolding hex_digit
hex_byte high low = do h ← hex_digit high; l ← hex_digit low; some (h * 16 + l)

-- A byte that an escape may not stand for.
abbrev pub forbidden : ℕ → Bool
forbidden byte = byte == b'/' || byte == 0

abbrev pub push : ℕ → Option Str → Option Str
push byte rest = do out ← rest; some (byte ∷ out)

abbrev pub push_escaped : Option ℕ → Option Str → Option Str
push_escaped none rest = none
push_escaped (some byte) rest = if forbidden byte then none else push byte rest

-- The loop of `percent_decode_path_segment`.
unfoldable pub decode_bytes : Str → Option Str
unfolding hex_byte
decode_bytes [] = some []
decode_bytes (a ∷ []) = if a == b'%' then none else some (a ∷ [])
decode_bytes (a ∷ b ∷ []) =
    let rest = decode_bytes (b ∷ []) in if a == b'%' then none else push a rest
decode_bytes (a ∷ b ∷ c ∷ s) =
    let after = decode_bytes s in
    let rest = decode_bytes (b ∷ c ∷ s) in
    if a == b'%' then push_escaped (hex_byte b c) after else push a rest

unfoldable pub percent_decode_path_segment : Str → Option Str
unfolding decode_bytes
percent_decode_path_segment segment = do
  out ← decode_bytes segment
  if utf8_from 0 0 0 out then some out else none

-- `path.split('/')`: the first part, and those after it.
unfoldable pub split_from : Str → Str × List Str
split_from [] = ([], [])
split_from (b ∷ s) =
    let (part, rest) = split_from s in if b == b'/' then ([], part ∷ rest) else (b ∷ part, rest)

abbrev pub non_empty : Str → Bool
non_empty [] = false
non_empty (b ∷ s) = true

abbrev pub split : Str → List Str
split path = let (part, rest) = split_from path in part ∷ rest

unfoldable pub decode_all : List Str → Option (List Str)
decode_all [] = some []
decode_all (part ∷ parts) = do
  decoded ← percent_decode_path_segment part
  rest ← decode_all parts
  some (decoded ∷ rest)

unfoldable pub decoded_path_segments : Str → Option (List Str)
unfolding split_from decode_all
decoded_path_segments path = decode_all (select non_empty (split path))

-- No slash: a segment of a path cannot climb out of its place.
abbrev pub IsSegment : Str → Type 0
IsSegment = All (λ b. b ≢ b'/')

if_true {ℓ} : {A : Type ℓ} (b : Bool) (x y : A) → b ≡ true → x ≡ (if b then x else y)
if_true b x y h = rw h

if_false {ℓ} : {A : Type ℓ} (b : Bool) (x y : A) → b ≡ false → y ≡ (if b then x else y)
if_false b x y h = rw h

push_sound :
    (b : ℕ) (r : Option Str) (out : Str)
    → push b r ≡ some out
    → (rest : Str) × (r ≡ some rest) × (out ≡ b ∷ rest)
push_sound b none out e = absurd (cc e)
push_sound b (some rest) out e = (rest, refl, cc e)

push_escaped_sound :
    (b : Option ℕ) (r : Option Str) (out : Str)
    → push_escaped b r ≡ some out
    → (byte : ℕ) × (rest : Str) × (r ≡ some rest) × (out ≡ byte ∷ rest) × (byte ≢ b'/')
push_escaped_sound none r out e = absurd (cc e)
push_escaped_sound (some byte) none out e = absurd (ground arith)
push_escaped_sound (some byte) (some rest) out e = (byte, rest, refl, ground arith, ground arith)

decode_bytes-IsSegment : (s out : Str) → IsSegment s → decode_bytes s ≡ some out → IsSegment out
unfolding decode_bytes
decode_bytes-IsSegment [] out h e = let same : [] ≡ out = cc e in subst IsSegment same tt
decode_bytes-IsSegment (a ∷ []) out h e = elim (Bool-cases (a == b'%')) [
  | inl escape ↦ absurd (ground arith)
  | inr plain ↦ let same : a ∷ [] ≡ out = ground arith in subst IsSegment same h
]
decode_bytes-IsSegment (a ∷ b ∷ []) out h e = elim (Bool-cases (a == b'%')) [
  | inl escape ↦ absurd (ground arith)
  | inr plain ↦
      let (rest, decoded, same) =
        push_sound a (decode_bytes (b ∷ [])) out (if_false (a == b'%') _ _ plain ∙ e) in
      subst IsSegment (sym same) (h.0, decode_bytes-IsSegment (b ∷ []) rest h.1 decoded)
]
decode_bytes-IsSegment (a ∷ b ∷ c ∷ s) out h e = elim (Bool-cases (a == b'%')) [
  | inl escape ↦
      let (byte, rest, decoded, same, fine) =
        push_escaped_sound (hex_byte b c) (decode_bytes s) out
          (if_true (a == b'%') _ _ escape ∙ e) in
      subst IsSegment (sym same) (fine, decode_bytes-IsSegment s rest h.1.1.1 decoded)
  | inr plain ↦
      let (rest, decoded, same) =
        push_sound a (decode_bytes (b ∷ c ∷ s)) out (if_false (a == b'%') _ _ plain ∙ e) in
      subst IsSegment (sym same) (h.0, decode_bytes-IsSegment (b ∷ c ∷ s) rest h.1 decoded)
]

percent_decode-IsSegment :
    (s out : Str) → IsSegment s → percent_decode_path_segment s ≡ some out → IsSegment out
unfolding percent_decode_path_segment
percent_decode-IsSegment s out h e = elim (Option-cases (decode_bytes s)) [
  | inl failed ↦ absurd (ground arith)
  | inr (bytes, decoded) ↦
      let same : bytes ≡ out = ground arith in
      subst IsSegment same (decode_bytes-IsSegment s bytes h decoded)
]

split_from-IsSegment :
    (path : Str) → IsSegment (split_from path).0 × All IsSegment (split_from path).1
unfolding split_from
split_from-IsSegment [] = (tt, tt)
split_from-IsSegment (b ∷ s) =
    let ih = split_from-IsSegment s in
    elim (Bool-cases (b == b'/')) [
      | inl slash ↦ rw slash (tt, ih)
      | inr other ↦ rw other (((λ e. ground arith), ih.0), ih.1)
    ]

decode_all-IsSegment :
    (parts out : List Str) → All IsSegment parts → decode_all parts ≡ some out → All IsSegment out
unfolding decode_all
decode_all-IsSegment [] out h e = let same : [] ≡ out = cc e in subst (All IsSegment) same tt
decode_all-IsSegment (part ∷ parts) out h e =
    elim (Option-cases (percent_decode_path_segment part)) [
      | inl failed ↦ absurd (ground arith)
      | inr (decoded, first) ↦ elim (Option-cases (decode_all parts)) [
        | inl failed ↦ absurd (ground arith)
        | inr (rest, others) ↦
            let same : decoded ∷ rest ≡ out = ground arith in
            subst (All IsSegment) same (
              percent_decode-IsSegment part decoded h.0 first,
              decode_all-IsSegment parts rest h.1 others,
            )
      ]
    ]

-- No segment of a request path holds a slash, whether written as such or as an escape: a path that
-- decodes does so to parts without one.
pub decoded_path_segments-IsSegment :
    (path : Str) (parts : List Str) → decoded_path_segments path ≡ some parts → All IsSegment parts
unfolding decoded_path_segments
decoded_path_segments-IsSegment path parts e =
    decode_all-IsSegment (select non_empty (split path)) parts
      (All-select IsSegment non_empty (split path) (split_from-IsSegment path)) e
