-- ===== src/Codec/Aac/Fields.antt =====
-- The bit fields of the AAC configuration and of the ADTS header, described by division, against the
-- masks and shifts of codec/src/aac/config.rs and codec/src/aac/adts.rs.
use mixlab.Prelude.{
  not_lt→ltb, ℕ, ◌+◌, ◌*◌, ◌/◌, ◌%◌, ◌≤◌, ◌<◌, ◌≡◌, refl, ap, ◌∙◌, bit_and, bit_or, Bool, true,
  false, ◌∷◌, length, ◌==◌, arith,
}
use mixlab.Prelude.Bits.{shr, shl8, agree, rows_agree, table, or_disjoint, mask3, mask4, mask_top5}
use mixlab.Prelude.Result.{ok}
use mixlab.Codec.Buf.{Bytes, Buf}
use mixlab.Codec.Aac.{
  AudioObjectType, AudioSpecificConfiguration, object_type_to_u8, try_from_u8, parse_config,
}

abbrev pub bit : Bool → ℕ
bit true = 1
bit false = 0

-- The two bytes of a configuration, from the table in its comment: 5 bits of object type, 4 of
-- sampling frequency index, 4 of channel configuration and 3 flags.
abbrev pub config_bits : AudioSpecificConfiguration → ℕ
config_bits c =
    object_type_to_u8 c.object_type * 2048
    + c.sampling_frequency_index * 128
    + c.channel_configuration * 8
    + bit c.frame_length_flag * 4
    + bit c.depends_on_core_coder * 2
    + bit c.extension_flag

pub record IsConfig (c : AudioSpecificConfiguration) : Type 0 where
  pub index_bits : c.sampling_frequency_index < 16
  pub channel_bits : c.channel_configuration < 16

bit_lt : (b : Bool) → bit b < 2
bit_lt true = omega arith
bit_lt false = omega arith

flag4 : (y : ℕ) → y < 256 → bit_and y 0x04 ≡ y / 4 % 2 * 4
unfolding agree
flag4 = table _ _ 256 refl

flag2 : (y : ℕ) → y < 256 → bit_and y 0x02 ≡ y / 2 % 2 * 2
unfolding agree
flag2 = table _ _ 256 refl

flag1 : (y : ℕ) → y < 256 → bit_and y 0x01 ≡ y % 2
unfolding agree
flag1 = table _ _ 256 refl

index_apart : (x y : ℕ) → x < 8 → y < 2 → bit_or (x * 2) y ≡ x * 2 + y
unfolding rows_agree agree
index_apart = or_disjoint 2 2 8 refl

try_from_u8-object_type_to_u8 : (t : AudioObjectType) → try_from_u8 (object_type_to_u8 t) ≡ ok t
unfolding try_from_u8 object_type_to_u8
try_from_u8-object_type_to_u8 = elim [ AudioObjectType.aac_main ↦ refl | _ ↦ refl ]

pub object_type_le : (t : AudioObjectType) → object_type_to_u8 t ≤ 4
unfolding object_type_to_u8
object_type_le = elim [ AudioObjectType.aac_main ↦ omega arith | _ ↦ omega arith ]

is_set4 : (b : Bool) → (bit b * 4 == 4) ≡ b
is_set4 true = refl
is_set4 false = refl

is_set2 : (b : Bool) → (bit b * 2 == 2) ≡ b
is_set2 true = refl
is_set2 false = refl

is_set1 : (b : Bool) → (bit b == 1) ≡ b
is_set1 true = refl
is_set1 false = refl

object_read : (x : ℕ) → x < 256 → shr (bit_and x 0xf8) 3 ≡ x / 8
object_read x h = omega (arith, mask_top5 x h)

shifted : (x : ℕ) → x < 256 → shl8 (bit_and x 0x07) 1 ≡ x % 8 * 2
shifted x h = omega (arith, mask3 x h)

index_read :
    (x y : ℕ) → x < 256 → y < 256 → bit_or (shl8 (bit_and x 0x07) 1) (shr y 7) ≡ x % 8 * 2 + y / 128
index_read x y hx hy =
    ap (λ z. bit_or z (shr y 7)) (shifted x hx)
    ∙ index_apart (x % 8) (y / 128) (omega arith) (omega arith)

channel_read : (y : ℕ) → y < 256 → bit_and (shr y 3) 0x0f ≡ y / 8 % 16
channel_read y h = mask4 (y / 8) (omega arith)

-- What the masks and shifts of `parse` read from two bytes.
parse_fields :
    (buf : Buf) (c : AudioSpecificConfiguration) (x y : ℕ) (rest : Bytes)
    → x < 256
    → y < 256
    → x / 8 ≡ object_type_to_u8 c.object_type
    → x % 8 * 2 + y / 128 ≡ c.sampling_frequency_index
    → y / 8 % 16 ≡ c.channel_configuration
    → y / 4 % 2 ≡ bit c.frame_length_flag
    → y / 2 % 2 ≡ bit c.depends_on_core_coder
    → y % 2 ≡ bit c.extension_flag
    → parse_config buf (x ∷ y ∷ rest) ≡ ok c
unfolding parse_config
parse_fields buf c x y rest hx hy object index channel f d e = rw (
  not_lt→ltb (length (x ∷ y ∷ rest)) 2 (omega arith),
  buf.get_u8-cons,
  buf.get_u8-cons,
  object_read x hx,
  object,
  try_from_u8-object_type_to_u8 c.object_type,
  index_read x y hx hy,
  index,
  channel_read y hy,
  channel,
  flag4 y hy,
  f,
  is_set4 c.frame_length_flag,
  flag2 y hy,
  d,
  is_set2 c.depends_on_core_coder,
  flag1 y hy,
  e,
  is_set1 c.extension_flag,
)

module _ (c : AudioSpecificConfiguration) (valid : IsConfig c) where
  bits :
      (bit c.frame_length_flag < 2)
      × (bit c.depends_on_core_coder < 2)
      × (bit c.extension_flag < 2)
      × (c.sampling_frequency_index < 16)
      × (c.channel_configuration < 16)
  bits = (
    bit_lt c.frame_length_flag,
    bit_lt c.depends_on_core_coder,
    bit_lt c.extension_flag,
    valid.index_bits,
    valid.channel_bits,
  )

  -- The two bytes as sums of their fields.
  first_byte :
      config_bits c / 256 ≡ object_type_to_u8 c.object_type * 8 + c.sampling_frequency_index / 2
  first_byte = omega (
    arith,
    bit_lt c.frame_length_flag,
    bit_lt c.depends_on_core_coder,
    bit_lt c.extension_flag,
    valid.index_bits,
    valid.channel_bits,
  )

  second_byte :
      config_bits c % 256
      ≡ c.sampling_frequency_index % 2 * 128
        + c.channel_configuration * 8
        + bit c.frame_length_flag * 4
        + bit c.depends_on_core_coder * 2
        + bit c.extension_flag
  second_byte = omega (
    arith,
    bit_lt c.frame_length_flag,
    bit_lt c.depends_on_core_coder,
    bit_lt c.extension_flag,
    valid.index_bits,
    valid.channel_bits,
  )

  -- A configuration is read back from its two bytes.
  pub config_round_trip :
      (buf : Buf) (rest : Bytes)
      → parse_config buf (config_bits c / 256 ∷ config_bits c % 256 ∷ rest) ≡ ok c
  config_round_trip buf rest =
      parse_fields buf c (config_bits c / 256) (config_bits c % 256) rest
        (omega (arith, first_byte, object_type_le c.object_type, valid.index_bits)) (omega arith)
        (omega (arith, first_byte, valid.index_bits)) (omega (arith, first_byte, second_byte, bits))
        (omega (arith, second_byte, bits)) (omega (arith, second_byte, bits))
        (omega (arith, second_byte, bits)) (omega (arith, second_byte, bits))
