-- ===== src/Codec/Avc/Nal/RoundTrip.antt =====
-- What is read back from a written unit, and what is written back of a unit that was read.
use mathlib.Core.List.{append_assoc}
use mixlab.Prelude.{
  ℕ, suc, ◌+◌, ◌*◌, ◌/◌, ◌%◌, ◌<◌, bit_and, bit_or, ◌≡◌, refl, ap₂, ◌∙◌, [], ◌∷◌, ◌++◌, length,
  not_lt→ltb, ==_iff, ◌≤◌, ◌≢◌, ◌↔◌, ◌==◌, arith, inl, inr, Bool-cases,
}
use mixlab.Prelude.Bits.{shr, agree, rows_agree, mask2, mask5, or_disjoint}
use mixlab.Prelude.Result.{Result, ok, panic, bind_ok}
use mixlab.Codec.Buf.{Buf, Bytes, IsBytes}
use mixlab.Codec.Avc.{AvcError}
use mixlab.Codec.Avc.Nal.{
  UnitType, NalUnit, to_u8, try_from, parse, parse_header, write_to, header_byte,
}

try_from-to_u8 : (k : UnitType) → try_from (to_u8 k) ≡ ok k
unfolding try_from to_u8
try_from-to_u8 = elim [ UnitType.non_idr_picture ↦ refl | _ ↦ refl ]

to_u8-lt : (k : UnitType) → to_u8 k < 32
unfolding to_u8
to_u8-lt = elim [ UnitType.non_idr_picture ↦ omega arith | _ ↦ omega arith ]

bits_apart : (x y : ℕ) → x < 4 → y < 32 → bit_or (x * 32) y ≡ x * 32 + y
unfolding rows_agree agree
bits_apart = or_disjoint 32 32 4 refl

-- The written header is the fields side by side.
header_byte_lem : (u : NalUnit) → u.ref_idc < 4 → header_byte u ≡ u.ref_idc * 32 + to_u8 u.kind
unfolding header_byte
header_byte_lem u h =
    rw (mask2 u.ref_idc (omega arith), mask5 (to_u8 u.kind) (omega (arith, to_u8-lt u.kind)))
      (ap₂ bit_or {x = u.ref_idc % 4 * 32 % 256} (omega arith) (omega (arith, to_u8-lt u.kind))
        ∙ bits_apart u.ref_idc (to_u8 u.kind) h (to_u8-lt u.kind))

parse_header-byte :
    (r : ℕ) (k : UnitType) (rest : Bytes)
    → r < 4
    → parse_header (r * 32 + to_u8 k) rest ≡ ok (record { ref_idc = r; kind = k; payload = rest })
unfolding parse_header
parse_header-byte r k rest h =
    let below : r * 32 + to_u8 k < 128 = omega (arith, to_u8-lt k) in
    rw (
      (==_iff ((r * 32 + to_u8 k) / 128) 0).1 (omega arith),
      mask5 (r * 32 + to_u8 k) (omega arith),
      mask2 ((r * 32 + to_u8 k) / 32) (omega arith),
      fields.0,
      fields.1,
      try_from-to_u8 k,
    )
  where
    fields : ((r * 32 + to_u8 k) % 32 ≡ to_u8 k) × ((r * 32 + to_u8 k) / 32 % 4 ≡ r)
    fields = omega (arith, to_u8-lt k)

try_from-ne-panic : (v : ℕ) → try_from v ≢ panic
unfolding try_from
try_from-ne-panic v e = ground arith

parse_header-panic : (h : ℕ) (rest : Bytes) → (parse_header h rest ≡ panic) ↔ (128 ≤ h)
unfolding parse_header
parse_header-panic h rest =
    (λ e. ground (arith, try_from-ne-panic (bit_and h 0x1f)), λ le. ground arith)

try_from_sound : (v : ℕ) (k : UnitType) → v < 32 → try_from v ≡ ok k → to_u8 k ≡ v
unfolding try_from to_u8
try_from_sound v k h e = ground arith

parse_header_fields :
    (h : ℕ) (rest : Bytes) (u : NalUnit)
    → h < 256
    → parse_header h rest ≡ ok u
    → (h < 128) × (u.ref_idc ≡ h / 32 % 4) × (to_u8 u.kind ≡ h % 32) × (u.payload ≡ rest)
unfolding parse_header
parse_header_fields h rest u b e = elim (Bool-cases (h / 128 == 0)) [
  | inl low ↦
      let (k, ek, eu) = bind_ok (unit_of h rest) (try_from (bit_and h 0x1f)) (rw low at e) in
      ground (arith, ek, eu, mask5 h, mask2 (h / 32), try_from_sound (bit_and h 0x1f) k)
  | inr high ↦ ground arith
]
  where
    unit_of : ℕ → Bytes → UnitType → Result AvcError NalUnit
    unit_of h rest kind =
        ok (record { ref_idc = bit_and (shr h 5) 0x03; kind = kind; payload = rest })

abbrev pub IsUnit : NalUnit → Type 0
IsUnit u = u.ref_idc < 4

-- The bytes of a unit: its fields side by side in one byte, and the payload.
abbrev pub unit_bytes : NalUnit → Bytes
unit_bytes u = (u.ref_idc * 32 + to_u8 u.kind) ∷ u.payload

module _ (buf : Buf) where
  parse-nil : (u : NalUnit) → ¬ (parse buf [] ≡ ok u)
  unfolding parse
  parse-nil u e = cc

  pub parse-cons : (h : ℕ) (rest : Bytes) → parse buf (h ∷ rest) ≡ parse_header h rest
  unfolding parse
  parse-cons h rest = rw (not_lt→ltb (suc (length rest)) 1 (omega arith), buf.get_u8-cons h rest)

  pub write_to_lem :
      (u : NalUnit) (out : Bytes) → IsUnit u → write_to buf u out ≡ out ++ unit_bytes u
  unfolding write_to
  write_to_lem u out h =
      rw
        (
          header_byte_lem u h,
          buf.put_u8_lem out (u.ref_idc * 32 + to_u8 u.kind) (omega (arith, to_u8-lt u.kind)),
        )
        (append_assoc out _ u.payload)

  pub parse-unit_bytes : (u : NalUnit) → IsUnit u → parse buf (unit_bytes u) ≡ ok u
  parse-unit_bytes u h = rw parse-cons (parse_header-byte u.ref_idc u.kind u.payload h)

  -- A unit with a two-bit `ref_idc` is parsed back from what `write_to` writes into an empty buffer.
  pub nal_round_trip : (u : NalUnit) → IsUnit u → parse buf (write_to buf u []) ≡ ok u
  nal_round_trip u h = rw (write_to_lem u [] h) (parse-unit_bytes u h)

  -- A parsed unit has a two-bit `ref_idc`, and writing it gives back the bytes that were read.
  pub nal_rewritten :
      (bytes : Bytes) (u : NalUnit)
      → IsBytes bytes
      → parse buf bytes ≡ ok u
      → IsUnit u × (write_to buf u [] ≡ bytes)
  nal_rewritten [] u b e = absurd (parse-nil u e)
  nal_rewritten (h ∷ rest) u b e =
      let (low, er, ek, ep) = parse_header_fields h rest u b.0 (rw parse-cons at e) in
      let two_bits : IsUnit u = omega arith in
      (two_bits, write_to_lem u [] two_bits ∙ ap₂ (λ x y. x ∷ y) (omega arith) ep)

  -- Parsing panics exactly at a header with the top bit set, which is the failed assertion.
  pub parse-panic : (h : ℕ) (rest : Bytes) → (parse buf (h ∷ rest) ≡ panic) ↔ (128 ≤ h)
  parse-panic h rest = rw parse-cons (parse_header-panic h rest)
