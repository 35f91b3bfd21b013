-- ===== src/Base/Bits.antt =====
-- `|` of fields that do not overlap, as a sum.
use Prim.Native.Nat.{
  ℕ, zero, suc, ◌+◌, ◌*◌, ◌/◌, ◌^◌, ◌≤◌, ◌<◌, max, digits, bit_or, bit_or-bitwise,
}
use mathlib.Core.Path.{◌≡◌, refl, ap, ◌∙◌}
use native.Mathlib.Nat.{pow-suc, le_refl}
use native.Mathlib.Omega.{arith}

or_digits-zero : (n a : ℕ) → a ≤ n → digits (λ x. x) max n a 0 ≡ a
or_digits-zero zero a h = omega (arith, h)
or_digits-zero (suc n) zero h = refl
or_digits-zero (suc n) (suc a) h = omega (arith, or_digits-zero n (suc a / 2) (omega arith))

-- With fuel for the number with the high field, whose low k digits are 0.
or_digits : (k n a q b : ℕ) → a ≤ n → a ≡ q * 2 ^ k → b < 2 ^ k → digits (λ x. x) max n a b ≡ a + b
or_digits zero n a q zero h e l = or_digits-zero n a h ∙ omega arith
or_digits zero n a q (suc b) h e l = absurd (omega arith)
or_digits (suc k) zero zero q b h e l = omega arith
or_digits (suc k) (suc n) zero q b h e l = omega arith
or_digits (suc k) zero (suc a) q b h e l = absurd (omega arith)
or_digits (suc k) (suc n) (suc a) q b h e l =
    let p = pow-suc 2 k in
    let d : q * 2 ^ suc k ≡ 2 * (q * 2 ^ k) = omega (arith, ap (λ (t : ℕ). q * t) p) in
    omega (
      arith,
      d,
      or_digits k n (suc a / 2) q (b / 2) (omega arith) (omega (arith, d)) (omega (arith, p)),
    )

pub bit_or-fields : (k q b : ℕ) → b < 2 ^ k → bit_or (q * 2 ^ k) b ≡ q * 2 ^ k + b
bit_or-fields k q b l =
    simp bit_or-bitwise (or_digits k (q * 2 ^ k) (q * 2 ^ k) q b (le_refl _) refl l)

-- With fuel for the number below 2 ^ k, where the other's low k digits are 0.
or_digits_low :
    (k n b q a : ℕ) → b ≤ n → a ≡ q * 2 ^ k → b < 2 ^ k → digits (λ x. x) max n b a ≡ b + a
or_digits_low k zero zero q a h e l = omega arith
or_digits_low k (suc n) zero q a h e l = omega arith
or_digits_low k zero (suc b) q a h e l = absurd (omega arith)
or_digits_low zero (suc n) (suc b) q a h e l = absurd (omega arith)
or_digits_low (suc k) (suc n) (suc b) q a h e l =
    let p = pow-suc 2 k in
    let d : q * 2 ^ suc k ≡ 2 * (q * 2 ^ k) = omega (arith, ap (λ (t : ℕ). q * t) p) in
    omega (
      arith,
      d,
      or_digits_low k n (suc b / 2) q (a / 2) (omega arith) (omega (arith, d)) (omega (arith, p)),
    )

pub bit_or-above : (k b q : ℕ) → b < 2 ^ k → bit_or b (q * 2 ^ k) ≡ b + q * 2 ^ k
bit_or-above k b q l = simp bit_or-bitwise (or_digits_low k b b q (q * 2 ^ k) (le_refl _) refl l)
