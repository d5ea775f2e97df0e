-- ===== src/Router/Encode.antt =====
-- crates/beater-runtime/src/router.rs: request paths that are written from their parts.
use temp_js.Prelude.{
  ℕ, ◌+◌, ◌-◌, ◌/◌, ◌%◌, ◌<◌, Str, Bool, true, false, ◌≡◌, ◌≢◌, refl, ap, inl, inr, some, List, [],
  ◌∷◌, ◌++◌, map, select, All, ltb, arith, Bool-cases, if◌then◌else◌,
}
use temp_js.Router.Decode.{
  hex_digit, hex_byte, push, decode_bytes, percent_decode_path_segment, split_from, non_empty,
  decode_all, decoded_path_segments, IsSegment, valid_utf8,
}

unfoldable pub upper_hex : ℕ → ℕ
upper_hex digit = if ltb digit 10 then b'0' + digit else b'A' + (digit - 10)

-- The percent-encoding of a part of a path: the bytes that `keep` names stand for themselves.
unfoldable pub percent_encode : (ℕ → Bool) → Str → Str
unfolding upper_hex
percent_encode keep [] = []
percent_encode keep (b ∷ s) =
    if keep b
    then b ∷ percent_encode keep s
    else b'%' ∷ upper_hex (b / 16) ∷ upper_hex (b % 16) ∷ percent_encode keep s

-- A path from its parts, each behind a slash.
unfoldable pub write_path : (ℕ → Bool) → List Str → Str
unfolding percent_encode
write_path keep [] = []
write_path keep (part ∷ parts) = b'/' ∷ percent_encode keep part ++ write_path keep parts

-- A byte of a part.
abbrev pub IsPartByte : ℕ → Type 0
IsPartByte b = (b < 256) × (b ≢ 0) × (b ≢ b'/')

hex_digit-upper_hex : (digit : ℕ) → digit < 16 → hex_digit (upper_hex digit) ≡ some digit
unfolding hex_digit upper_hex
hex_digit-upper_hex digit h = ground arith

hex_byte-upper_hex : (b : ℕ) → b < 256 → hex_byte (upper_hex (b / 16)) (upper_hex (b % 16)) ≡ some b
unfolding hex_byte
hex_byte-upper_hex b h =
    rw (hex_digit-upper_hex (b / 16) (omega arith), hex_digit-upper_hex (b % 16) (omega arith))
      (ap some (omega arith))

decode_bytes-plain : (b : ℕ) (s : Str) → b ≢ b'%' → decode_bytes (b ∷ s) ≡ push b (decode_bytes s)
unfolding decode_bytes
decode_bytes-plain b [] h = ground arith
decode_bytes-plain b (c ∷ []) h = ground arith
decode_bytes-plain b (c ∷ d ∷ s) h = ground arith

decode_bytes-percent_encode :
    (keep : ℕ → Bool) (s : Str)
    → keep b'%' ≡ false
    → All IsPartByte s
    → decode_bytes (percent_encode keep s) ≡ some s
unfolding decode_bytes percent_encode
decode_bytes-percent_encode keep [] h all = refl
decode_bytes-percent_encode keep (b ∷ s) h (byte, all) = elim (Bool-cases (keep b)) [
  | inl kept ↦
      let plain : b ≢ b'%' = λ e. cc (kept, h, e) in
      rw
        (
          kept,
          decode_bytes-plain b (percent_encode keep s) plain,
          decode_bytes-percent_encode keep s h all,
        )
        refl
  | inr escaped ↦
      rw (escaped, hex_byte-upper_hex b byte.0, decode_bytes-percent_encode keep s h all)
        (ground arith)
]

upper_hex-fine : (digit : ℕ) → digit < 16 → upper_hex digit ≢ b'/'
unfolding upper_hex
upper_hex-fine digit h e = ground arith

percent_encode-IsSegment :
    (keep : ℕ → Bool) (s : Str) → All IsPartByte s → IsSegment (percent_encode keep s)
unfolding percent_encode
percent_encode-IsSegment keep [] all = tt
percent_encode-IsSegment keep (b ∷ s) (byte, all) = elim (Bool-cases (keep b)) [
  | inl kept ↦ rw kept (byte.2, percent_encode-IsSegment keep s all)
  | inr escaped ↦ rw escaped (
    (λ e. ground arith),
    (
      upper_hex-fine (b / 16) (omega (arith, byte.0)),
      (upper_hex-fine (b % 16) (omega arith), percent_encode-IsSegment keep s all),
    ),
  )
]

split_from-append :
    (s rest : Str) (parts : List Str)
    → IsSegment s
    → split_from rest ≡ ([], parts)
    → split_from (s ++ rest) ≡ (s, parts)
unfolding split_from
split_from-append [] rest parts h e = e
split_from-append (b ∷ s) rest parts (fine, h) e =
    rw (split_from-append s rest parts h e) (ground arith)

-- A part that may be written: not empty, and of bytes that stand for themselves or are escaped.
abbrev pub IsPart : Str → Type 0
IsPart part = (non_empty part ≡ true) × All IsPartByte part × (valid_utf8 part ≡ true)

split_from-write_path :
    (keep : ℕ → Bool) (parts : List Str)
    → All IsPart parts
    → split_from (write_path keep parts) ≡ ([], map (percent_encode keep) parts)
unfolding split_from write_path
split_from-write_path keep [] all = refl
split_from-write_path keep (part ∷ parts) (fine, all) =
    rw
      (split_from-append (percent_encode keep part) (write_path keep parts)
        (map (percent_encode keep) parts) (percent_encode-IsSegment keep part fine.1)
        (split_from-write_path keep parts all))
      refl

percent_encode-non_empty :
    (keep : ℕ → Bool) (part : Str)
    → non_empty part ≡ true
    → non_empty (percent_encode keep part) ≡ true
unfolding percent_encode
percent_encode-non_empty keep [] h = absurd (cc h)
percent_encode-non_empty keep (b ∷ s) h = ground arith

select-written :
    (keep : ℕ → Bool) (parts : List Str)
    → All IsPart parts
    → select non_empty (map (percent_encode keep) parts) ≡ map (percent_encode keep) parts
select-written keep [] all = refl
select-written keep (part ∷ parts) (fine, all) =
    rw (percent_encode-non_empty keep part fine.0, select-written keep parts all) refl

decode_all-written :
    (keep : ℕ → Bool) (parts : List Str)
    → keep b'%' ≡ false
    → All IsPart parts
    → decode_all (map (percent_encode keep) parts) ≡ some parts
unfolding decode_all percent_decode_path_segment
decode_all-written keep [] h all = refl
decode_all-written keep (part ∷ parts) h (fine, all) =
    rw (decode_bytes-percent_encode keep part h fine.1, fine.2, decode_all-written keep parts h all)
      refl

-- A request path that is written from parts, each behind a slash and percent-encoded, decodes to those
-- parts, whichever bytes the encoder escapes, as long as it escapes the percent sign. The parts are
-- not empty, valid UTF-8, and hold no slash and no NUL.
pub decoded_path_segments-write_path :
    (keep : ℕ → Bool) (parts : List Str)
    → keep b'%' ≡ false
    → All IsPart parts
    → decoded_path_segments (write_path keep parts) ≡ some parts
unfolding decoded_path_segments
decoded_path_segments-write_path keep parts h all =
    rw
      (
        split_from-write_path keep parts all,
        select-written keep parts all,
        decode_all-written keep parts h all,
      )
      refl
