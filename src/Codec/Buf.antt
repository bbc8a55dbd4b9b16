-- ===== src/Codec/Buf.antt =====
-- The `Buf` and `BufMut` traits of the crate `bytes`, which the codecs read and write through. The
-- crate is not part of the repository: its operations are parameters, with the documented laws.
use mathlib.Core.List.{append_assoc}
use mixlab.Prelude.{
  le→leb, ℕ, ◌+◌, ◌*◌, ◌/◌, ◌%◌, ◌^◌, ◌≤◌, ◌<◌, ◌≡◌, refl, Option, none, some, List, [], ◌∷◌, ◌++◌,
  ◌∙◌, zero, suc, arith, length, take, drop, All, take-length, drop-length, length-append, leb, ltb,
  if◌then◌else◌, not_lt→ltb, ap, false,
}
use mixlab.Prelude.Result.{Result, ok, panic}

-- A value of `Bytes` by its contents, each below 256.
abbrev pub Bytes : Type 0
Bytes = List ℕ

abbrev pub IsByte : ℕ → Type 0
IsByte b = b < 256

abbrev pub IsBytes : Bytes → Type 0
IsBytes = All IsByte

-- The number that bytes in network order stand for.
unfoldable pub big_endian : ℕ → Bytes → ℕ
big_endian acc [] = acc
big_endian acc (b ∷ bs) = big_endian (acc * 256 + b) bs

-- `none` is a panic: fewer bytes remain than the read takes.
pub record Buf : Type 0 where
  pub get_u8 : Bytes → Option (ℕ × Bytes)
  pub get_u16 : Bytes → Option (ℕ × Bytes)
  pub get_uint : ℕ → Bytes → Option (ℕ × Bytes)
  pub split_to : ℕ → Bytes → Option (Bytes × Bytes)
  pub put_u8 : Bytes → ℕ → Bytes
  pub put_u16 : Bytes → ℕ → Bytes
  pub put_uint : ℕ → Bytes → ℕ → Bytes
  pub get_u8-cons : (b : ℕ) (bs : Bytes) → get_u8 (b ∷ bs) ≡ some (b, bs)
  pub get_u16-cons : (b c : ℕ) (bs : Bytes) → get_u16 (b ∷ c ∷ bs) ≡ some (b * 256 + c, bs)
  pub get_uint-append :
      (bs rest : Bytes)
      → length bs ≤ 8
      → get_uint (length bs) (bs ++ rest) ≡ some (big_endian 0 bs, rest)
  pub split_to-append : (bs rest : Bytes) → split_to (length bs) (bs ++ rest) ≡ some (bs, rest)
  pub put_u8_lem : (out : Bytes) (x : ℕ) → x < 256 → put_u8 out x ≡ out ++ x ∷ []
  pub put_u16_lem :
      (out : Bytes) (x : ℕ) → x < 65536 → put_u16 out x ≡ out ++ x / 256 ∷ x % 256 ∷ []
  pub put_u24_lem :
      (out : Bytes) (x : ℕ)
      → x < 2 ^ 24
      → put_uint 3 out x ≡ out ++ x / 65536 ∷ x / 256 % 256 ∷ x % 256 ∷ []

abbrev pub or_panic {ℓ} : {E A : Type ℓ} → Option A → Result E A
or_panic none = panic
or_panic (some a) = ok a

-- A buffer with these laws: reads from the front of a list, writes at its end.
pub read_u8 : Bytes → Option (ℕ × Bytes)
read_u8 [] = none
read_u8 (b ∷ bs) = some (b, bs)

pub read_u16 : Bytes → Option (ℕ × Bytes)
read_u16 (b ∷ c ∷ bs) = some (b * 256 + c, bs)
read_u16 [] = none
read_u16 (b ∷ []) = none

pub read_uint : ℕ → Bytes → Option (ℕ × Bytes)
unfolding big_endian
read_uint n bs =
    if leb n 8
    then (if ltb (length bs) n then none else some (big_endian 0 (take n bs), drop n bs))
    else none

pub read_exact : ℕ → Bytes → Option (Bytes × Bytes)
read_exact n bs = if ltb (length bs) n then none else some (take n bs, drop n bs)

enough : (bs rest : Bytes) → ltb (length (bs ++ rest)) (length bs) ≡ false
enough bs rest = not_lt→ltb _ _ (omega (arith, length-append bs rest))

pub read_uint-append :
    (bs rest : Bytes)
    → length bs ≤ 8
    → read_uint (length bs) (bs ++ rest) ≡ some (big_endian 0 bs, rest)
unfolding read_uint
read_uint-append bs rest h =
    rw (le→leb (length bs) 8 h, enough bs rest, take-length bs rest, drop-length bs rest)

pub read_exact-append : (bs rest : Bytes) → read_exact (length bs) (bs ++ rest) ≡ some (bs, rest)
unfolding read_exact
read_exact-append bs rest = rw (enough bs rest, take-length bs rest, drop-length bs rest)

pub write_u8 : Bytes → ℕ → Bytes
write_u8 out x = out ++ x % 256 ∷ []

pub write_u16 : Bytes → ℕ → Bytes
write_u16 out x = out ++ x / 256 % 256 ∷ x % 256 ∷ []

pub write_uint : ℕ → Bytes → ℕ → Bytes
write_uint zero out x = out
write_uint (suc n) out x = write_uint n out (x / 256) ++ x % 256 ∷ []

pub write_u8_lem : (out : Bytes) (x : ℕ) → x < 256 → write_u8 out x ≡ out ++ x ∷ []
unfolding write_u8
write_u8_lem out x h = ap (λ (y : ℕ). out ++ y ∷ []) (omega arith)

pub write_u16_lem :
    (out : Bytes) (x : ℕ) → x < 65536 → write_u16 out x ≡ out ++ x / 256 ∷ x % 256 ∷ []
unfolding write_u16
write_u16_lem out x h = ap (λ (y : ℕ). out ++ y ∷ x % 256 ∷ []) (omega arith)

pub write_u24_lem :
    (out : Bytes) (x : ℕ)
    → x < 2 ^ 24
    → write_uint 3 out x ≡ out ++ x / 65536 ∷ x / 256 % 256 ∷ x % 256 ∷ []
unfolding write_uint
write_u24_lem out x h =
    append_assoc (out ++ x / 256 / 256 % 256 ∷ []) (x / 256 % 256 ∷ []) (x % 256 ∷ [])
    ∙ append_assoc out (x / 256 / 256 % 256 ∷ []) (x / 256 % 256 ∷ x % 256 ∷ [])
    ∙ ap (λ (y : ℕ). out ++ y ∷ x / 256 % 256 ∷ x % 256 ∷ []) (omega arith)

unfoldable pub list_buf : Buf
unfolding read_u8 read_u16 read_uint read_exact write_u8 write_u16 write_uint
list_buf = record {
  get_u8 = read_u8;
  get_u16 = read_u16;
  get_uint = read_uint;
  split_to = read_exact;
  put_u8 = write_u8;
  put_u16 = write_u16;
  put_uint = write_uint;
  get_u8-cons = λ b bs. refl;
  get_u16-cons = λ b c bs. refl;
  get_uint-append = read_uint-append;
  split_to-append = read_exact-append;
  put_u8_lem = write_u8_lem;
  put_u16_lem = write_u16_lem;
  put_u24_lem = write_u24_lem;
}
