-- ===== src/Codec/Avc/Bitstream/RoundTrip.antt =====
-- Streams of units with their lengths are read to their end, and well-formed ones give their units.
use mixlab.Prelude.{
  ◌⊎◌, inl, inr, dec_lt, lt→ltb, ℕ, zero, suc, ◌/◌, ◌%◌, ◌^◌, ◌≤◌, ◌<◌, ◌≡◌, refl, ap, List, [],
  ◌∷◌, ◌++◌, map, none, some, length, ◌==◌, arith, not_lt→ltb, length-append, take, drop,
  length-drop, All, false,
}
use mixlab.Prelude.Result.{Result, ok, err}
use mixlab.Codec.Buf.{Buf, Bytes, big_endian}
use mixlab.Codec.Avc.{AvcError, not_enough_data}
use mixlab.Codec.Avc.Nal
use mixlab.Codec.Avc.Nal.{NalUnit, to_u8, byte_size, sequence_parameter_set, picture_parameter_set}
use mixlab.Codec.Avc.Nal.RoundTrip.{IsUnit, unit_bytes, parse-unit_bytes}
use mixlab.Codec.Avc.Dcr
use mixlab.Codec.Avc.Dcr.{DecoderConfigurationRecord}
use mixlab.Codec.Avc.Dcr.RoundTrip.{Fits, split_unit, dcr_round_trip}
use mixlab.Codec.Avc.Bitstream.{next_unit, read, decoder_configuration_record}

take-drop :
    {A : Type 0} (n : ℕ) (xs : List A)
    → n ≤ length xs
    → (take n xs ++ drop n xs ≡ xs) × (length (take n xs) ≡ n)
take-drop zero xs h = (refl, refl)
take-drop (suc n) [] h = absurd (omega arith)
take-drop (suc n) (x ∷ xs) h =
    let (e, l) = take-drop n xs (omega arith) in (ap (λ r. x ∷ r) e, ap suc l)

suc-eq-zero : (n : ℕ) → (suc n == 0) ≡ false
suc-eq-zero n = ground arith

-- A length in four bytes.
abbrev pub length_bytes : ℕ → Bytes
length_bytes n = n / 16777216 ∷ n / 65536 % 256 ∷ n / 256 % 256 ∷ n % 256 ∷ []

-- Units, each after its length, and what follows them.
abbrev pub prefixed : List NalUnit → Bytes → Bytes
prefixed [] rest = rest
prefixed (u ∷ us) rest = length_bytes (byte_size u) ++ (unit_bytes u ++ prefixed us rest)

module _ (buf : Buf) where
  -- What a read of a length and of a unit leave, by the laws of the buffer.
  uint_rest :
      (n : ℕ) (bytes : Bytes)
      → n ≤ 8
      → n ≤ length bytes
      → buf.get_uint n bytes ≡ some (big_endian 0 (take n bytes), drop n bytes)
  uint_rest n bytes h8 h =
      let (e, l) = take-drop n bytes h in
      rw (e, l) at (buf.get_uint-append (take n bytes) (drop n bytes) (omega (arith, l)))

  split_rest :
      (n : ℕ) (bytes : Bytes)
      → n ≤ length bytes
      → buf.split_to n bytes ≡ some (take n bytes, drop n bytes)
  split_rest n bytes h =
      let (e, l) = take-drop n bytes h in
      rw (e, l) at (buf.split_to-append (take n bytes) (drop n bytes))

  -- A call ends the stream, or gives an item and leaves fewer bytes.
  abbrev Ends : ℕ → Bytes → Type 0
  Ends n bytes = next_unit buf n bytes ≡ none

  abbrev Steps : ℕ → Bytes → Type 0
  Steps n bytes =
      (item : Result AvcError NalUnit) × (rest : Bytes) × (next_unit buf n bytes
        ≡ some (item, rest))
      × (length rest < length bytes)

  next_unit-cases : (n : ℕ) (bytes : Bytes) → 1 ≤ n → n ≤ 8 → Ends n bytes ⊎ Steps n bytes
  unfolding next_unit
  next_unit-cases n [] h1 h8 = inl refl
  next_unit-cases n (b ∷ bs) h1 h8 = elim (dec_lt (suc (length bs)) n) [
    | yes short ↦ inr (
      err not_enough_data,
      [],
      rw (next_unit, suc-eq-zero (length bs), lt→ltb _ _ short),
      omega arith,
    )
    | no long ↦
        let size = big_endian 0 (take n (b ∷ bs)) in
        let rest = drop n (b ∷ bs) in
        let fewer : length rest < suc (length bs) = omega (arith, length-drop n (b ∷ bs)) in
        elim (dec_lt (length rest) size) [
          | yes small ↦ inr (
            err not_enough_data,
            rest,
            rw (
              next_unit,
              suc-eq-zero (length bs),
              not_lt→ltb (suc (length bs)) n (omega arith),
              uint_rest n (b ∷ bs) h8 (omega arith),
              lt→ltb _ _ small,
            ),
            fewer,
          )
          | no enough ↦ inr (
            Nal.parse buf (take size rest),
            drop size rest,
            rw (
              next_unit,
              suc-eq-zero (length bs),
              not_lt→ltb (suc (length bs)) n (omega arith),
              uint_rest n (b ∷ bs) h8 (omega arith),
              not_lt→ltb (length rest) size (omega arith),
              split_rest size rest (omega arith),
            ),
            omega (arith, length-drop size rest, fewer),
          )
        ]
  ]

  -- With a length field of one to eight bytes the iterator ends on every input, after no more items
  -- than there are bytes.
  pub read_ends :
      (fuel n : ℕ) (bytes : Bytes)
      → 1 ≤ n
      → n ≤ 8
      → length bytes ≤ fuel
      → (items : List (Result AvcError NalUnit)) × (read buf fuel n bytes ≡ some items)
        × (length items ≤ length bytes)
  unfolding read
  read_ends zero n bytes h1 h8 le = elim (next_unit-cases n bytes h1 h8) [
    | inl e ↦ ([], rw (read, e), omega arith)
    | inr (item, rest, e, lt) ↦ absurd (omega arith)
  ]
  read_ends (suc fuel) n bytes h1 h8 le = elim (next_unit-cases n bytes h1 h8) [
    | inl e ↦ ([], rw (read, e), omega arith)
    | inr (item, rest, e, lt) ↦
        let (items, e', le') = read_ends fuel n rest h1 h8 (omega arith) in
        (item ∷ items, rw (read, e, e'), omega arith)
  ]

  four_bytes : (n : ℕ) → n < 2 ^ 32 → big_endian 0 (length_bytes n) ≡ n
  unfolding big_endian
  four_bytes n h = omega arith

  -- The first of several units is read, and the others are left.
  next_unit-prefixed :
      (u : NalUnit) (rest : Bytes)
      → IsUnit u
      → byte_size u < 2 ^ 32
      → next_unit buf 4 (length_bytes (byte_size u) ++ (unit_bytes u ++ rest)) ≡ some (ok u, rest)
  unfolding next_unit byte_size
  next_unit-prefixed u rest h fits = rw (
    next_unit,
    suc-eq-zero _,
    not_lt→ltb (length (length_bytes (byte_size u) ++ (unit_bytes u ++ rest))) 4 (omega arith),
    buf.get_uint-append (length_bytes (byte_size u)) (unit_bytes u ++ rest) (omega arith),
    four_bytes (byte_size u) fits,
    not_lt→ltb (length (unit_bytes u ++ rest)) (byte_size u)
        (omega (arith, length-append (unit_bytes u) rest)),
    split_unit buf u rest,
    parse-unit_bytes buf u h,
  )

  abbrev pub Fits32 : NalUnit → Type 0
  Fits32 u = IsUnit u × (byte_size u < 2 ^ 32)

  -- Units with their lengths before them in four bytes are read as they are, and then the stream ends.
  pub read-prefixed :
      (us : List NalUnit)
      → All Fits32 us
      → read buf (length us) 4 (prefixed us []) ≡ some (map ok us)
  unfolding read next_unit
  read-prefixed [] h = refl
  read-prefixed (u ∷ us) h =
      rw (read, next_unit-prefixed u (prefixed us []) h.0.0 h.0.1, read-prefixed us h.1)

  -- The header of an encoder that starts with a sequence parameter set of at least three bytes and a
  -- picture parameter set gives a record, and the record is read back from the bytes that it is
  -- written to.
  pub encoder_record :
      (sps pps : NalUnit) (profile compatibility level : ℕ) (data' rest tail : Bytes)
      → sps.kind ≡ sequence_parameter_set
      → pps.kind ≡ picture_parameter_set
      → sps.payload ≡ profile ∷ compatibility ∷ level ∷ data'
      → (profile < 256) × (compatibility < 256) × (level < 256)
      → Fits sps
      → Fits pps
      → (d : DecoderConfigurationRecord) × (decoder_configuration_record buf
            (prefixed (sps ∷ pps ∷ []) rest)
          ≡ ok d)
        × (d.sps ≡ sps ∷ [])
        × (d.pps ≡ pps ∷ [])
        × (Dcr.parse buf (Dcr.write_to buf d [] ++ tail) ≡ ok (d, tail))
  unfolding decoder_configuration_record to_u8
  encoder_record sps pps profile compatibility level data' rest tail ks kp e (hp, hc, hl) fs fp =
      let d : DecoderConfigurationRecord = record {
        version = 1;
        profile_indication = profile;
        profile_compatibility = compatibility;
        level_indication = level;
        nalu_size = 4;
        sps = sps ∷ [];
        pps = pps ∷ [];
      } in
      (
        d,
        rw (
          decoder_configuration_record,
          next_unit-prefixed sps (prefixed (pps ∷ []) rest) fs.0 (omega (arith, fs.1)),
          ks,
          next_unit-prefixed pps rest fp.0 (omega (arith, fp.1)),
          kp,
          e,
        ),
        refl,
        refl,
        dcr_round_trip buf d tail (record {
          version = refl;
          profile_indication = hp;
          profile_compatibility = hc;
          level_indication = hl;
          nalu_size = (omega arith, omega arith);
          sps_count = omega arith;
          sps = (fs, tt);
          pps_count = omega arith;
          pps = (fp, tt);
        }),
      )
