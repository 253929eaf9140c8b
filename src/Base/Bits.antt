-- ===== src/Base/Bits.antt =====
-- Shifts and masks of one byte as arithmetic: `(q << 8) | r` for a byte `r`, and `a & 0xFF`.
use Prim.Native.Nat.{
  ℕ, zero, suc, ◌+◌, ◌*◌, ◌/◌, ◌%◌, ◌≤◌, ◌<◌, min, max, bit_and, bit_or, digits, bit_and-bitwise,
  bit_or-bitwise,
}
use mathlib.Core.Path.{◌≡◌, refl, sym, ap, ◌∙◌}
use native.Mathlib.Omega.{arith}

-- An operation on binary digits, with `z` for the digits that are left when the first number ends.
module _ (z : ℕ → ℕ) (f : ℕ → ℕ → ℕ) where
  ended : (count y : ℕ) → digits z f count zero y ≡ z y
  ended zero y = refl
  ended (suc count) y = refl

  -- The count of digits does not matter, where it is enough.
  count_lem : (k l x y : ℕ) → x ≤ k → x ≤ l → digits z f k x y ≡ digits z f l x y
  count_lem k l zero y hk hl = ended k y ∙ sym (ended l y)
  count_lem (suc k) (suc l) (suc x) y hk hl =
      ap (λ v. v * 2 + f (suc x % 2) (y % 2))
        (count_lem k l (suc x / 2) (y / 2) (omega arith) (omega arith))
  count_lem _ _ (suc x) y hk hl = absurd (omega arith)

  lowest :
      (op : ℕ → ℕ → ℕ)
      → ((x y : ℕ) → op x y ≡ digits z f x x y)
      → (x y : ℕ) → op (suc x) y ≡ op (suc x / 2) (y / 2) * 2 + f (suc x % 2) (y % 2)
  lowest op law x y =
      let half = suc x / 2 in
      law (suc x) y
      ∙ ap (λ v. v * 2 + f (suc x % 2) (y % 2))
          (count_lem x half half (y / 2) (omega arith) (omega arith) ∙ sym (law half (y / 2)))

-- Both operations, digit by digit.
digit_and : (x y : ℕ) → bit_and x y ≡ bit_and (x / 2) (y / 2) * 2 + min (x % 2) (y % 2)
digit_and zero y = omega (arith, bit_and-bitwise 0 y, bit_and-bitwise 0 (y / 2))
digit_and (suc x) y = lowest (λ _. zero) min bit_and (λ u v. bit_and-bitwise u v) x y

digit_or : (x y : ℕ) → bit_or x y ≡ bit_or (x / 2) (y / 2) * 2 + max (x % 2) (y % 2)
digit_or zero y = omega (arith, bit_or-bitwise 0 y, bit_or-bitwise 0 (y / 2))
digit_or (suc x) y = lowest (λ v. v) max bit_or (λ u v. bit_or-bitwise u v) x y

-- With 0 on the right, by a bound on the number on the left.
bit_zero : (bound x : ℕ) → x ≤ bound → (bit_and x 0 ≡ 0) × (bit_or x 0 ≡ x)
bit_zero bound zero h = (bit_and-bitwise 0 0, bit_or-bitwise 0 0)
bit_zero zero (suc x) h = absurd (omega arith)
bit_zero (suc bound) (suc x) h =
    let (no_and, same_or) = bit_zero bound (suc x / 2) (omega arith) in
    (omega (arith, digit_and (suc x) 0, no_and), omega (arith, digit_or (suc x) 0, same_or))

half_byte : (a : ℕ) → bit_and a 0xF ≡ a % 16
half_byte a =
    let (no_and, _) = bit_zero (a / 2 / 2 / 2 / 2) (a / 2 / 2 / 2 / 2) (omega arith) in
    omega (
      arith,
      digit_and a 15,
      digit_and (a / 2) 7,
      digit_and (a / 2 / 2) 3,
      digit_and (a / 2 / 2 / 2) 1,
      no_and,
    )

-- `a & 0xFF`
pub bit_and-byte : (a : ℕ) → bit_and a 0xFF ≡ a % 256
bit_and-byte a = omega (
  arith,
  digit_and a 255,
  digit_and (a / 2) 127,
  digit_and (a / 2 / 2) 63,
  digit_and (a / 2 / 2 / 2) 31,
  half_byte (a / 2 / 2 / 2 / 2),
)

-- `q << n`
abbrev double : ℕ → ℕ → ℕ
double zero q = q
double (suc n) q = double n q * 2

or_double : (n q r : ℕ) → r < double n 1 → bit_or (double n q) r ≡ double n q + r
or_double zero q r h = ground (arith, bit_zero q q)
or_double (suc n) q r h =
    ground (arith, digit_or (double n q * 2) r, or_double n q (r / 2) (omega arith))

-- `(q << 8) | r`
pub bit_or-byte : (q r : ℕ) → r < 256 → bit_or (q * 256) r ≡ q * 256 + r
bit_or-byte q r h =
    let shifted : q * 256 ≡ double 8 q = omega arith in rw shifted (or_double 8 q r (omega arith))
