-- ===== src/Codec/Avc/Dcr/RoundTrip.antt =====
-- A written configuration record is read back.
use mathlib.Core.List.{append_assoc, append-nil}
use mixlab.Prelude.{
  ℕ, suc, ◌+◌, ◌-◌, ◌*◌, ◌/◌, ◌%◌, ◌≤◌, ◌<◌, bit_and, bit_or, ◌≡◌, refl, sym, ap, ◌∙◌, List, [],
  ◌∷◌, ◌++◌, some, length, All, length-append, not_lt→ltb, ==_iff, arith,
}
use mixlab.Prelude.Bits.{agree, table, mask2, mask5}
use mixlab.Prelude.Result.{ok}
use mixlab.Codec.Buf.{Buf, Bytes}
use mixlab.Codec.Avc.Nal.{NalUnit, byte_size}
use mixlab.Codec.Avc.Nal.RoundTrip.{IsUnit, unit_bytes, write_to_lem, parse-unit_bytes}
use mixlab.Codec.Avc.Dcr.{
  DecoderConfigurationRecord, parse_unit, parse_units, parse, write_units, write_to,
}

-- A unit that a record can hold: its length goes in two bytes.
abbrev pub Fits : NalUnit → Type 0
Fits u = IsUnit u × (byte_size u < 65536)

pub record IsValid (d : DecoderConfigurationRecord) : Type 0 where
  pub version : d.version ≡ 1
  pub profile_indication : d.profile_indication < 256
  pub profile_compatibility : d.profile_compatibility < 256
  pub level_indication : d.level_indication < 256
  pub nalu_size : (1 ≤ d.nalu_size) × (d.nalu_size ≤ 4)
  pub sps_count : length d.sps ≤ 31
  pub sps : All Fits d.sps
  pub pps_count : length d.pps ≤ 255
  pub pps : All Fits d.pps

-- The bytes of units with their lengths.
abbrev units_bytes : List NalUnit → Bytes
units_bytes [] = []
units_bytes (u ∷ us) = byte_size u / 256 ∷ byte_size u % 256 ∷ (unit_bytes u ++ units_bytes us)

mod_word : (x : ℕ) → x < 65536 → x % 65536 ≡ x
mod_word x h = omega arith

word_parts : (x : ℕ) → x / 256 * 256 + x % 256 ≡ x
word_parts x = omega arith

byte_size_lem : (u : NalUnit) → byte_size u ≡ length (unit_bytes u)
unfolding byte_size
byte_size_lem u = omega arith

size_bits : (m : ℕ) → m < 4 → bit_or 0xfc m ≡ 252 + m
unfolding agree
size_bits = table _ _ 4 refl

nalu_size_byte :
    (n : ℕ) → 1 ≤ n → n ≤ 4 → bit_or 0xfc (bit_and ((n + 256 - 1) % 256) 0x03) ≡ 251 + n
nalu_size_byte n h k =
    ap (λ (m : ℕ). bit_or 0xfc m) (mask2 ((n + 256 - 1) % 256) (omega arith) ∙ omega arith)
    ∙ size_bits (n - 1) (omega arith)
    ∙ omega arith

sps_count_byte : (n : ℕ) → n < 32 → bit_or 0xe0 (bit_and (n % 256) 0x1f) ≡ 224 + n
unfolding agree
sps_count_byte = table _ _ 32 refl

low_byte : (n : ℕ) → n < 256 → n % 256 ≡ n
low_byte n h = omega arith

read_count : (n : ℕ) → n ≤ 31 → bit_and (224 + n) 0x1f ≡ n
read_count n h = mask5 (224 + n) (omega arith) ∙ omega arith

read_size : (n : ℕ) → 1 ≤ n → n ≤ 4 → bit_and (251 + n) 0x03 + 1 ≡ n
read_size n h k = ap (λ (m : ℕ). m + 1) (mask2 (251 + n) (omega arith)) ∙ omega arith

module _ (buf : Buf) where
  pub split_unit :
      (u : NalUnit) (rest : Bytes)
      → buf.split_to (byte_size u) (unit_bytes u ++ rest) ≡ some (unit_bytes u, rest)
  split_unit u rest = rw byte_size_lem (buf.split_to-append (unit_bytes u) rest)

  write_units_lem :
      (us : List NalUnit) (out : Bytes)
      → All Fits us
      → write_units buf us out ≡ out ++ units_bytes us
  unfolding write_units
  write_units_lem [] out h = sym (append-nil out)
  write_units_lem (u ∷ us) out h =
      write_units_lem us _ h.1
      ∙ rw
          (
            write_to_lem buf u (buf.put_u16 out (byte_size u % 65536)) h.0.0,
            mod_word (byte_size u) h.0.1,
            buf.put_u16_lem out (byte_size u) h.0.1,
          )
          (simp append_assoc)

  parse_unit-bytes :
      (u : NalUnit) (rest : Bytes)
      → Fits u
      → parse_unit buf (byte_size u / 256 ∷ byte_size u % 256 ∷ (unit_bytes u ++ rest))
        ≡ ok (u, rest)
  unfolding parse_unit
  parse_unit-bytes u rest h = rw (
    not_lt→ltb (length (byte_size u / 256 ∷ byte_size u % 256 ∷ (unit_bytes u ++ rest))) 2
        (omega arith),
    buf.get_u16-cons (byte_size u / 256) (byte_size u % 256) (unit_bytes u ++ rest),
    word_parts (byte_size u),
    not_lt→ltb (length (unit_bytes u ++ rest)) (byte_size u)
        (omega (arith, length-append (unit_bytes u) rest, byte_size_lem u)),
    split_unit u rest,
    parse-unit_bytes buf u h.0,
  )

  parse_units-bytes :
      (us done : List NalUnit) (rest : Bytes)
      → All Fits us
      → parse_units buf (length us) done (units_bytes us ++ rest) ≡ ok (done ++ us, rest)
  unfolding parse_units
  parse_units-bytes [] done rest h =
      ap (λ (us : List NalUnit). ok (us, rest)) (sym (append-nil done))
  parse_units-bytes (u ∷ us) done rest h =
      rw
        (
          append_assoc (unit_bytes u) (units_bytes us) rest,
          parse_unit-bytes u (units_bytes us ++ rest) h.0,
        )
        (parse_units-bytes us (done ++ u ∷ []) rest h.1
          ∙ ap (λ (vs : List NalUnit). ok (vs, rest)) (append_assoc done (u ∷ []) us))

  -- The whole record.
  abbrev dcr_bytes : DecoderConfigurationRecord → Bytes
  dcr_bytes d =
      d.version
      ∷ d.profile_indication
      ∷ d.profile_compatibility
      ∷ d.level_indication
      ∷ (251 + d.nalu_size)
      ∷ (224 + length d.sps)
      ∷ (units_bytes d.sps ++ length d.pps ∷ units_bytes d.pps)

  abbrev bytes_before : DecoderConfigurationRecord → Bytes → Bytes
  bytes_before d rest =
      d.version
      ∷ d.profile_indication
      ∷ d.profile_compatibility
      ∷ d.level_indication
      ∷ (251 + d.nalu_size)
      ∷ (224 + length d.sps)
      ∷ (units_bytes d.sps ++ length d.pps ∷ (units_bytes d.pps ++ rest))

  write_to-eq-bytes :
      (d : DecoderConfigurationRecord) (out : Bytes)
      → IsValid d
      → write_to buf d out ≡ out ++ dcr_bytes d
  unfolding write_to
  write_to-eq-bytes d out v =
      rw
        (
          nalu_size_byte d.nalu_size v.nalu_size.0 v.nalu_size.1,
          sps_count_byte (length d.sps) (omega (arith, v.sps_count)),
          low_byte (length d.pps) (omega (arith, v.pps_count)),
          buf.put_u8_lem out d.version (omega (arith, v.version)),
          buf.put_u8_lem _ d.profile_indication v.profile_indication,
          buf.put_u8_lem _ d.profile_compatibility v.profile_compatibility,
          buf.put_u8_lem _ d.level_indication v.level_indication,
          buf.put_u8_lem _ (251 + d.nalu_size) (omega (arith, v.nalu_size.1)),
          buf.put_u8_lem _ (224 + length d.sps) (omega (arith, v.sps_count)),
          write_units_lem d.sps _ v.sps,
          buf.put_u8_lem _ (length d.pps) (omega (arith, v.pps_count)),
          write_units_lem d.pps _ v.pps,
        )
        (simp append_assoc)

  parse-bytes :
      (d : DecoderConfigurationRecord) (rest : Bytes)
      → IsValid d
      → parse buf (dcr_bytes d ++ rest) ≡ ok (d, rest)
  unfolding parse
  parse-bytes d rest v = rw (
    append_assoc (units_bytes d.sps) (length d.pps ∷ units_bytes d.pps) rest,
    not_lt→ltb (length (bytes_before d rest)) 6 (omega arith),
    buf.get_u8-cons,
    (==_iff d.version 1).1 v.version,
    buf.get_u8-cons,
    buf.get_u8-cons,
    buf.get_u8-cons,
    buf.get_u8-cons,
    buf.get_u8-cons,
    read_count (length d.sps) v.sps_count,
    parse_units-bytes d.sps [] _ v.sps,
    read_size d.nalu_size v.nalu_size.0 v.nalu_size.1,
    not_lt→ltb (suc (length (units_bytes d.pps ++ rest))) 1 (omega arith),
    buf.get_u8-cons,
    parse_units-bytes d.pps [] rest v.pps,
  )

  -- A valid record is read back from what `write_to` writes into an empty buffer, and the bytes that
  -- follow it are left in the buffer.
  pub dcr_round_trip :
      (d : DecoderConfigurationRecord) (rest : Bytes)
      → IsValid d
      → parse buf (write_to buf d [] ++ rest) ≡ ok (d, rest)
  dcr_round_trip d rest v = rw (write_to-eq-bytes d [] v) (parse-bytes d rest v)
