-- ===== src/Codec/Aac/Header.antt =====
-- The ADTS header that codec/src/aac/adts.rs writes, against a reader of its fields by their places.
use mixlab.Prelude.{
  le→leb, ℕ, ◌+◌, ◌-◌, ◌*◌, ◌/◌, ◌%◌, ◌^◌, ◌≤◌, ◌<◌, ◌≡◌, refl, ap, ap₂, ◌∙◌, bit_and, bit_or,
  false, none, some, [], ◌∷◌, ◌++◌, length, ◌==◌, arith,
}
use mixlab.Prelude.Bits.{shr, shl8, shl16, agree, rows_agree, table, or_disjoint, mask2, mask3}
use mixlab.Codec.Buf.{Bytes, Buf, big_endian}
use mixlab.Codec.Aac.{
  mpeg4, AudioSpecificConfiguration, AudioDataTransportStream, object_type_to_u8, new_stream,
  into_bytes,
}
use mixlab.Codec.Aac.Fields.{object_type_le}

-- The fields of a header without checksum, from the table in the source's comment; `private`,
-- `originality` to `start` and the like are in `zeros`.
pub record AdtsHeader : Type 0 where
  pub sync_word : ℕ
  pub version_bit : ℕ
  pub layer : ℕ
  pub protection : ℕ
  pub profile : ℕ
  pub sampling_frequency_index : ℕ
  pub private_bit : ℕ
  pub channel_configuration : ℕ
  pub zeros : ℕ
  pub frame_length : ℕ
  pub fullness : ℕ
  pub frames_less_one : ℕ

-- The 56 bits of the header as a number, cut at the widths of the table.
abbrev pub read_header : ℕ → AdtsHeader
read_header n = record {
  sync_word = n / 2 ^ 44;
  version_bit = n / 2 ^ 43 % 2;
  layer = n / 2 ^ 41 % 4;
  protection = n / 2 ^ 40 % 2;
  profile = n / 2 ^ 38 % 4;
  sampling_frequency_index = n / 2 ^ 34 % 16;
  private_bit = n / 2 ^ 33 % 2;
  channel_configuration = n / 2 ^ 30 % 8;
  zeros = n / 2 ^ 26 % 16;
  frame_length = n / 2 ^ 13 % 2 ^ 13;
  fullness = n / 4 % 2 ^ 11;
  frames_less_one = n % 4;
}

mask13 : (x : ℕ) → x < 8200 → bit_and x 0x1fff ≡ x % 8192
unfolding agree
mask13 = table _ _ 8200 refl

mask11 : (x : ℕ) → x < 8200 → bit_and x 0x7ff ≡ x % 2048
unfolding agree
mask11 = table _ _ 8200 refl

with_fullness : (x : ℕ) → x < 2048 → bit_or (x * 32) 0x1f ≡ x * 32 + 31
unfolding agree
with_fullness = table _ _ 2048 refl

profile_apart : (x y : ℕ) → x < 4 → y < 64 → bit_or (x * 64) y ≡ x * 64 + y
unfolding rows_agree agree
profile_apart = or_disjoint 64 64 4 refl

channel_apart : (x y : ℕ) → x < 64 → y < 2 → bit_or (x * 4) y ≡ x * 4 + y
unfolding rows_agree agree
channel_apart = or_disjoint 2 4 64 refl

-- The bytes of the header, with a frame of length `n`.
abbrev header_bytes : ℕ → ℕ → ℕ → ℕ → Bytes
header_bytes profile index channel n =
    255
    ∷ 241
    ∷ (profile * 64 + index * 4 + channel / 4)
    ∷ (channel % 4 * 64 + n / 2048)
    ∷ (n % 2048 * 32 + 31) / 256
    ∷ (n % 2048 * 32 + 31) % 256
    ∷ 252
    ∷ []

second :
    (p i c : ℕ)
    → p < 4
    → i < 16
    → c < 8
    → bit_or (bit_or (shl8 p 6) (shl8 i 2)) (shr (bit_and c 0x07) 2) ≡ p * 64 + i * 4 + c / 4
second p i c hp hi hc =
    let e1 : shl8 p 6 ≡ p * 64 = omega arith in
    let e2 : shl8 i 2 ≡ i * 4 = omega arith in
    let e3 : shr (bit_and c 0x07) 2 ≡ c % 8 / 4 = omega (arith, mask3 c (omega arith)) in
    let e4 : p * 64 + i * 4 ≡ (p * 16 + i) * 4 = omega arith in
    ap₂ bit_or (ap₂ bit_or e1 e2 ∙ profile_apart p (i * 4) hp (omega arith) ∙ e4) e3
    ∙ channel_apart (p * 16 + i) (c % 8 / 4) (omega arith) (omega arith)
    ∙ omega arith

third :
    (c n : ℕ)
    → c < 8
    → n < 8200
    → bit_or (shl8 (bit_and c 0x03) 6) (shr (bit_and n 0x1fff) 11 % 256)
      ≡ c % 4 * 64 + n % 8192 / 2048
third c n hc hn =
    let e1 : shl8 (bit_and c 0x03) 6 ≡ c % 4 * 64 = omega (arith, mask2 c (omega arith)) in
    let e2 : shr (bit_and n 0x1fff) 11 % 256 ≡ n % 8192 / 2048 = omega (arith, mask13 n hn) in
    ap₂ bit_or e1 e2 ∙ profile_apart (c % 4) (n % 8192 / 2048) (omega arith) (omega arith)

fourth : (n : ℕ) → n < 8200 → bit_or (shl16 (bit_and n 0x7ff) 5) 0x1f ≡ n % 8192 % 2048 * 32 + 31
fourth n hn =
    let e : shl16 (bit_and n 0x7ff) 5 ≡ n % 2048 * 32 = omega (arith, mask11 n hn) in
    ap (λ a. bit_or a 0x1f) e ∙ with_fullness (n % 2048) (omega arith) ∙ omega arith

fields :
    (p i c n : ℕ)
    → p < 4
    → i < 16
    → c < 8
    → n < 8192
    → read_header (big_endian 0 (header_bytes p i c n)) ≡ record {
      sync_word = 0xfff;
      version_bit = 0;
      layer = 0;
      protection = 1;
      profile = p;
      sampling_frequency_index = i;
      private_bit = 0;
      channel_configuration = c;
      zeros = 0;
      frame_length = n;
      fullness = 0x7ff;
      frames_less_one = 0;
    }
unfolding big_endian
fields p i c n hp hi hc hn =
    let whole : ℕ = big_endian 0 (header_bytes p i c n) in
    let packed : ℕ =
      0xfff * 2 ^ 44 + 2 ^ 40 + p * 2 ^ 38 + i * 2 ^ 34 + c * 2 ^ 30 + n * 2 ^ 13 + 0x7ff * 4 in
    let e : whole ≡ packed = omega arith in
    let e0 : packed / 2 ^ 44 ≡ 0xfff = omega arith in
    let e1 : packed / 2 ^ 43 % 2 ≡ 0 = omega arith in
    let e2 : packed / 2 ^ 41 % 4 ≡ 0 = omega arith in
    let e3 : packed / 2 ^ 40 % 2 ≡ 1 = omega arith in
    let e4 : packed / 2 ^ 38 % 4 ≡ p = omega arith in
    let e5 : packed / 2 ^ 34 % 16 ≡ i = omega arith in
    let e6 : packed / 2 ^ 33 % 2 ≡ 0 = omega arith in
    let e7 : packed / 2 ^ 30 % 8 ≡ c = omega arith in
    let e8 : packed / 2 ^ 26 % 16 ≡ 0 = omega arith in
    let e9 : packed / 2 ^ 13 % 2 ^ 13 ≡ n = omega arith in
    let e10 : packed / 4 % 2 ^ 11 ≡ 0x7ff = omega arith in
    let e11 : packed % 4 ≡ 0 = omega arith in
    ap read_header e ∙ (λ k. record {
      sync_word = e0 k;
      version_bit = e1 k;
      layer = e2 k;
      protection = e3 k;
      profile = e4 k;
      sampling_frequency_index = e5 k;
      private_bit = e6 k;
      channel_configuration = e7 k;
      zeros = e8 k;
      frame_length = e9 k;
      fullness = e10 k;
      frames_less_one = e11 k;
    })

not_fifteen : (i : ℕ) → i < 16 → (shl8 i 2 == 0x0f) ≡ false
not_fifteen i h = ground arith

stream_bytes :
    (buf : Buf) (s : AudioDataTransportStream)
    → s.version ≡ mpeg4
    → s.crc ≡ none
    → s.profile < 4
    → s.sampling_frequency_index < 16
    → s.channel_configuration < 8
    → length s.payload ≤ 8191
    → into_bytes buf s
      ≡ some (
          header_bytes s.profile s.sampling_frequency_index s.channel_configuration
            ((length s.payload + 7) % 8192)
          ++ s.payload)
unfolding into_bytes
stream_bytes buf s v crc hp hi hc hl =
    let n = length s.payload + 7 in
    let small : n % 65536 ≡ n = omega arith in
    let b2 = s.profile * 64 + s.sampling_frequency_index * 4 + s.channel_configuration / 4 in
    let b3 = s.channel_configuration % 4 * 64 + n % 8192 / 2048 in
    let word = n % 8192 % 2048 * 32 + 31 in
    rw (
      v,
      crc,
      small,
      not_fifteen s.sampling_frequency_index hi,
      second s.profile s.sampling_frequency_index s.channel_configuration hp hi hc,
      third s.channel_configuration n hc (omega arith),
      fourth n (omega arith),
      buf.put_u16_lem [] 0xfff1 (omega arith),
      buf.put_u8_lem _ b2 (omega arith),
      buf.put_u8_lem _ b3 (omega arith),
      buf.put_u16_lem _ word (omega arith),
      buf.put_u8_lem _ 0xfc (omega arith),
    )

-- For a configuration whose channel configuration fits in three bits and a payload of 8184 bytes at
-- most, the header that is put before the payload is seven bytes long, and its fields are those of
-- the configuration, with the length of the whole frame, for a payload of 8184 bytes at most; the
-- lengths from 8185 to 8191, which `new` also takes, are written less 8192. The sampling frequency
-- index is any of four bits: the assertion that forbids 15 does not fail for it, and 15 is written.
pub adts_header :
    (buf : Buf) (asc : AudioSpecificConfiguration) (payload : Bytes)
    → asc.sampling_frequency_index < 16
    → asc.channel_configuration < 8
    → length payload ≤ 8191
    → (s : AudioDataTransportStream) × (header : Bytes) × (new_stream payload asc ≡ some s)
      × (into_bytes buf s ≡ some (header ++ payload))
      × (length header ≡ 7)
      × (read_header (big_endian 0 header) ≡ record {
        sync_word = 0xfff;
        version_bit = 0;
        layer = 0;
        protection = 1;
        profile = object_type_to_u8 asc.object_type - 1;
        sampling_frequency_index = asc.sampling_frequency_index;
        private_bit = 0;
        channel_configuration = asc.channel_configuration;
        zeros = 0;
        frame_length = (length payload + 7) % 8192;
        fullness = 0x7ff;
        frames_less_one = 0;
      })
      × (asc.sampling_frequency_index ≡ 15
          → (read_header (big_endian 0 header)).sampling_frequency_index ≡ 15)
unfolding new_stream
adts_header buf asc payload hi hc hl =
    let p = object_type_to_u8 asc.object_type - 1 in
    let i = asc.sampling_frequency_index in
    let c = asc.channel_configuration in
    let n = (length payload + 7) % 8192 in
    let written =
      fields p i c n (omega (arith, object_type_le asc.object_type)) hi hc (omega arith) in
    (
      record {
        version = mpeg4;
        profile = p;
        sampling_frequency_index = i;
        channel_configuration = c;
        crc = none;
        payload = payload;
      },
      header_bytes p i c n,
      rw (new_stream, le→leb (length payload) 8191 hl),
      stream_bytes buf _ refl refl (omega (arith, object_type_le asc.object_type)) hi hc hl,
      refl,
      written,
      λ forbidden. ap (λ (h : AdtsHeader). h.sampling_frequency_index) written ∙ forbidden,
    )
