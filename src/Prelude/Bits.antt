-- ===== src/Prelude/Bits.antt =====
-- `(a << 8) | b` for two bytes, checked value by value.
use Prim.Native.Nat.{
  ℕ, zero, suc, ◌+◌, ◌-◌, ◌*◌, ◌/◌, ◌%◌, ◌^◌, ◌<◌, ◌≤◌, min, max, bit_or, bit_and, bit_or-bitwise,
  bit_and-bitwise, digits,
}
use mathlib.Core.Path.{◌≡◌, refl, ap, ap₂, ◌∙◌, subst₂}
use mathlib.Core.Bool.{Bool, true, ◌&&◌}
use native.Mathlib.Omega.{arith}
use cryptodev.Prelude.Tests.{◌==◌, ==_iff}

-- The test holds at every number below the bound.
holds_below : ℕ → (ℕ → Bool) → Bool
holds_below zero test = true
holds_below (suc n) test = test n && holds_below n test

holds_below-at :
    (n : ℕ) (test : ℕ → Bool) (i : ℕ) → i < n → holds_below n test ≡ true → test i ≡ true
unfolding holds_below
holds_below-at zero test i lt all = elim lt [ ]
holds_below-at (suc n) test i lt all = ground (arith, holds_below-at n test i)

byte_pairs : holds_below 256 (λ a. holds_below 256 (λ b. bit_or (a * 256) b == a * 256 + b)) ≡ true
unfolding holds_below
byte_pairs = refl

-- The low byte and the shifted high byte do not overlap.
pub bit_or_bytes : (a b : ℕ) → a < 256 → b < 256 → bit_or (a * 256) b ≡ a * 256 + b
bit_or_bytes a b ha hb = (==_iff _ _).0 (
    holds_below-at 256 _ b hb (
      holds_below-at 256 (λ i. holds_below 256 (λ j. bit_or (i * 256) j == i * 256 + j)) a ha
        byte_pairs))

-- A bitwise operation takes no more steps than its first argument.
digits-enough :
    (tail : ℕ → ℕ) (op : ℕ → ℕ → ℕ) (n m a b : ℕ)
    → a ≤ n
    → a ≤ m
    → digits tail op n a b ≡ digits tail op m a b
digits-enough tail op zero zero a b p q = refl
digits-enough tail op zero (suc m) zero b p q = refl
digits-enough tail op zero (suc m) (suc a) b p q = elim p [ ]
digits-enough tail op (suc n) zero zero b p q = refl
digits-enough tail op (suc n) zero (suc a) b p q = elim q [ ]
digits-enough tail op (suc n) (suc m) zero b p q = refl
digits-enough tail op (suc n) (suc m) (suc a) b p q =
    ap (λ d. d * 2 + op (suc a % 2) (b % 2))
      (digits-enough tail op n m (suc a / 2) (b / 2) (omega arith) (omega arith))

bit_or-zero_left : (b : ℕ) → bit_or 0 b ≡ b
bit_or-zero_left b = bit_or-bitwise 0 b

bit_or_step : (a b : ℕ) → bit_or a b ≡ bit_or (a / 2) (b / 2) * 2 + max (a % 2) (b % 2)
bit_or_step zero b = omega (arith, bit_or-zero_left b, bit_or-zero_left (b / 2))
bit_or_step (suc a) b = omega (
  arith,
  bit_or-bitwise (suc a) b,
  bit_or-bitwise (suc a / 2) (b / 2),
  digits-enough (λ b. b) max a (suc a / 2) (suc a / 2) (b / 2) (omega arith) (omega arith),
)

bit_and-zero_left : (b : ℕ) → bit_and 0 b ≡ 0
bit_and-zero_left b = bit_and-bitwise 0 b

bit_and_step : (a b : ℕ) → bit_and a b ≡ bit_and (a / 2) (b / 2) * 2 + min (a % 2) (b % 2)
bit_and_step zero b = omega (arith, bit_and-zero_left b, bit_and-zero_left (b / 2))
bit_and_step (suc a) b = omega (
  arith,
  bit_and-bitwise (suc a) b,
  bit_and-bitwise (suc a / 2) (b / 2),
  digits-enough (λ b. 0) min a (suc a / 2) (suc a / 2) (b / 2) (omega arith) (omega arith),
)

bit_or-zero_fuel : (n a : ℕ) → a ≤ n → bit_or a 0 ≡ a
bit_or-zero_fuel n zero h = bit_or-zero_left 0
bit_or-zero_fuel zero (suc a) h = absurd (omega arith)
bit_or-zero_fuel (suc n) (suc a) h =
    omega (arith, bit_or_step (suc a) 0, bit_or-zero_fuel n (suc a / 2) (omega arith))

-- Both operations, a bit at a time.
bit_and-double :
    (x y r s : ℕ) → r < 2 → s < 2 → bit_and (x * 2 + r) (y * 2 + s) ≡ bit_and x y * 2 + min r s
bit_and-double x y r s hr hs =
    let halves : bit_and ((x * 2 + r) / 2) ((y * 2 + s) / 2) ≡ bit_and x y =
      ap₂ bit_and (omega arith) (omega arith) in
    omega (arith, bit_and_step (x * 2 + r) (y * 2 + s), halves)

bit_or-double :
    (x y r s : ℕ) → r < 2 → s < 2 → bit_or (x * 2 + r) (y * 2 + s) ≡ bit_or x y * 2 + max r s
bit_or-double x y r s hr hs =
    let halves : bit_or ((x * 2 + r) / 2) ((y * 2 + s) / 2) ≡ bit_or x y =
      ap₂ bit_or (omega arith) (omega arith) in
    omega (arith, bit_or_step (x * 2 + r) (y * 2 + s), halves)

-- All `w` bits set.
bit_and-ones : (w a : ℕ) → a < 2 ^ w → bit_and a (2 ^ w - 1) ≡ a
bit_and-ones zero zero h = bit_and-zero_left (2 ^ 0 - 1)
bit_and-ones zero (suc a) h = absurd (omega arith)
bit_and-ones (suc w) a h =
    subst₂ (λ x y. bit_and x y ≡ x) (omega arith) (omega arith)
      (bit_and-double (a / 2) (2 ^ w - 1) (a % 2) 1 (omega arith) (omega arith)
        ∙ omega (arith, bit_and-ones w (a / 2) (omega arith)))

-- `w` bits, all set but bit `k`.
unfoldable pub all_but : ℕ → ℕ → ℕ
all_but zero k = 0
all_but (suc w) zero = (2 ^ w - 1) * 2
all_but (suc w) (suc k) = all_but w k * 2 + 1

-- Bit `k` of a number.
unfoldable pub bit_at : ℕ → ℕ → ℕ
bit_at zero a = a % 2
bit_at (suc k) a = bit_at k (a / 2)

-- On a number in its halves.
set_clear-double :
    (q r k u m s : ℕ)
    → r < 2
    → u < 2
    → s < 2
    → bit_and (bit_or q k) m ≡ q
    → min (max r u) s ≡ r
    → bit_and (bit_or (q * 2 + r) (k * 2 + u)) (m * 2 + s) ≡ q * 2 + r
set_clear-double q r k u m s hr hu hs e f =
    ap (λ x. bit_and x (m * 2 + s)) (bit_or-double q k r u hr hu)
    ∙ bit_and-double (bit_or q k) m (max r u) s (omega arith) hs
    ∙ omega (arith, e, f)

-- A bit that is set and then cleared is as before if it was clear.
pub bit_and-bit_or :
    (w k a : ℕ) → a < 2 ^ w → k < w → bit_at k a ≡ 0 → bit_and (bit_or a (2 ^ k)) (all_but w k) ≡ a
unfolding all_but bit_at
bit_and-bit_or zero k a h lt e = absurd (omega arith)
bit_and-bit_or (suc w) zero a h lt e =
    let halves : bit_and (bit_or (a / 2) 0) (2 ^ w - 1) ≡ a / 2 =
      ap (λ x. bit_and x (2 ^ w - 1)) (bit_or-zero_fuel (a / 2) (a / 2) (omega arith))
      ∙ bit_and-ones w (a / 2) (omega arith) in
    subst₂ (λ x y. bit_and (bit_or x 1) y ≡ x) (omega arith) (omega arith)
      (set_clear-double (a / 2) 0 0 1 (2 ^ w - 1) 0 (omega arith) (omega arith) (omega arith) halves
        refl)
bit_and-bit_or (suc w) (suc k) a h lt e =
    subst₂ (λ x y. bit_and (bit_or x y) (all_but w k * 2 + 1) ≡ x) (omega arith) (omega arith)
      (set_clear-double (a / 2) (a % 2) (2 ^ k) 0 (all_but w k) 1 (omega arith) (omega arith)
        (omega arith) (bit_and-bit_or w k (a / 2) (omega arith) (omega arith) e) (omega arith))

-- A bit that is set is 1.
pub bit_at-bit_or : (k a : ℕ) → bit_at k (bit_or a (2 ^ k)) ≡ 1
unfolding bit_at
bit_at-bit_or zero a = omega (arith, bit_or_step a (2 ^ 0))
bit_at-bit_or (suc k) a =
    let halves : bit_or (a / 2) (2 ^ suc k / 2) ≡ bit_or (a / 2) (2 ^ k) =
      ap (bit_or (a / 2)) (omega arith) in
    let half : bit_or a (2 ^ suc k) / 2 ≡ bit_or (a / 2) (2 ^ k) =
      omega (arith, bit_or_step a (2 ^ suc k), halves) in
    ap (bit_at k) half ∙ bit_at-bit_or k (a / 2)

-- To clear a bit that is clear changes nothing.
pub bit_and-all_but : (w k a : ℕ) → a < 2 ^ w → k < w → bit_at k a ≡ 0 → bit_and a (all_but w k) ≡ a
unfolding all_but bit_at
bit_and-all_but zero k a h lt e = absurd (omega arith)
bit_and-all_but (suc w) zero a h lt e =
    subst₂ (λ x y. bit_and x y ≡ x) (omega arith) (omega arith)
      (bit_and-double (a / 2) (2 ^ w - 1) 0 0 (omega arith) (omega arith)
        ∙ omega (arith, bit_and-ones w (a / 2) (omega arith)))
bit_and-all_but (suc w) (suc k) a h lt e =
    subst₂ (λ x y. bit_and x y ≡ x) (omega arith) (omega arith)
      (bit_and-double (a / 2) (all_but w k) (a % 2) 1 (omega arith) (omega arith)
        ∙ omega (arith, bit_and-all_but w k (a / 2) (omega arith) (omega arith) e))
