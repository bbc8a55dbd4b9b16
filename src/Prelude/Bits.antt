-- ===== src/Prelude/Bits.antt =====
-- Shifts and masks on machine words. The laws of masks are tables, checked by evaluation.
use Prim.Native.Nat.{ℕ, zero, suc, ◌+◌, ◌*◌, ◌/◌, ◌%◌, ◌^◌, ◌<◌, bit_and, bit_or}
use mathlib.Core.Path.{◌≡◌, refl, sym, subst}
use mathlib.Core.Bool.{Bool, true, false, ◌&&◌}
use native.Mathlib.Omega.{arith}
use native.Mathlib.Decide.{ℕ_discrete}
use mixlab.Prelude.Tests.{◌==◌, ==_iff}

abbrev pub shr : ℕ → ℕ → ℕ
shr x k = x / 2 ^ k

-- What is shifted out of the word is lost.
abbrev pub shl8 : ℕ → ℕ → ℕ
shl8 x k = x * 2 ^ k % 256

abbrev pub shl16 : ℕ → ℕ → ℕ
shl16 x k = x * 2 ^ k % 65536

both : (a b : Bool) → (a && b) ≡ true → (a ≡ true) × (b ≡ true)
both true b e = (refl, e)
both false b e = cc

module _ (f g : ℕ → ℕ) where
  -- The table of two functions: they have the same value at each number that is below the bound.
  unfoldable pub agree : ℕ → Bool
  agree zero = true
  agree (suc bound) = f bound == g bound && agree bound

  pub table : (bound : ℕ) → agree bound ≡ true → (x : ℕ) → x < bound → f x ≡ g x
  unfolding agree
  table zero e x h = absurd (omega arith)
  table (suc bound) e x h =
      let (here, below) = both (f bound == g bound) (agree bound) e in
      elim (ℕ_discrete x bound) [
        | yes p ↦ subst (λ n. f n ≡ g n) (sym p) ((==_iff (f bound) (g bound)).0 here)
        | no differ ↦ table bound below x (omega arith)
      ]

pub mask2 : (x : ℕ) → x < 256 → bit_and x 0x03 ≡ x % 4
unfolding agree
mask2 = table _ _ 256 refl

pub mask3 : (x : ℕ) → x < 256 → bit_and x 0x07 ≡ x % 8
unfolding agree
mask3 = table _ _ 256 refl

pub mask4 : (x : ℕ) → x < 256 → bit_and x 0x0f ≡ x % 16
unfolding agree
mask4 = table _ _ 256 refl

pub mask5 : (x : ℕ) → x < 256 → bit_and x 0x1f ≡ x % 32
unfolding agree
mask5 = table _ _ 256 refl

pub mask_top5 : (x : ℕ) → x < 256 → bit_and x 0xf8 ≡ x / 8 * 8
unfolding agree
mask_top5 = table _ _ 256 refl

-- Words whose bits do not meet are joined by adding: the table of the sums of x * k with x below m
-- and y below n.
unfoldable pub rows_agree : ℕ → ℕ → ℕ → Bool
unfolding agree
rows_agree n k zero = true
rows_agree n k (suc m) = rows_agree n k m && agree (bit_or (m * k)) (λ y. m * k + y) n

pub or_disjoint :
    (n k m : ℕ) → rows_agree n k m ≡ true → (x y : ℕ) → x < m → y < n → bit_or (x * k) y ≡ x * k + y
unfolding rows_agree
or_disjoint n k zero e x y hx hy = absurd (omega arith)
or_disjoint n k (suc m) e x y hx hy =
    let (below, here) = both (rows_agree n k m) _ e in
    elim (ℕ_discrete x m) [
      | yes p ↦
          subst (λ i. bit_or (i * k) y ≡ i * k + y) (sym p)
            (table (bit_or (m * k)) (λ y. m * k + y) n here y hy)
      | no differ ↦ or_disjoint n k m below x y (omega arith) hy
    ]
