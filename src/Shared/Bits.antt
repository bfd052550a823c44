-- ===== src/Shared/Bits.antt =====
-- `bit_and` with a block of ones, at every width.
use Prim.Native.Nat.{
  ℕ, zero, suc, ◌+◌, ◌-◌, ◌*◌, ◌/◌, ◌%◌, ◌^◌, ◌≤◌, ◌<◌, min, bit_and, digits, bit_and-bitwise,
}
use native.Mathlib.Nat.{pow-suc, zero-add, suc-add}
use mathlib.Core.Path.{sym, ap₂, ◌∙◌, ◌≡◌, refl, ap}
use native.Mathlib.Omega.{arith}

-- The recursion on halves that `bit_and` stands for, with the number of rounds apart.
abbrev rounds : ℕ → ℕ → ℕ → ℕ
rounds = digits (λ b. zero) min

-- Rounds past the last digit add nothing.
rounds-add : (n more x y : ℕ) → x ≤ n → rounds (n + more) x y ≡ rounds n x y
rounds-add n more zero y h = no_digits (n + more) y ∙ sym (no_digits n y)
  where
    no_digits : (k y : ℕ) → rounds k 0 y ≡ 0
    no_digits zero y = refl
    no_digits (suc k) y = refl
rounds-add zero more (suc x) y h = absurd (omega arith)
rounds-add (suc n) more (suc x) y h = rw (suc-add n more) (
    ap (λ t. t * 2 + min (suc x % 2) (y % 2)) (rounds-add n more (suc x / 2) (y / 2) (omega arith)))

rounds-exact : (n x y : ℕ) → x ≤ n → rounds n x y ≡ bit_and x y
rounds-exact n x y h =
    ap (λ k. rounds k x y) (omega arith)
    ∙ rounds-add x (n - x) x y (omega arith)
    ∙ sym (bit_and-bitwise x y)

-- One digit is taken off both numbers.
halves : (x y : ℕ) → bit_and x y ≡ 2 * bit_and (x / 2) (y / 2) + min (x % 2) (y % 2)
halves zero y = omega (arith, bit_and-bitwise 0 y, bit_and-bitwise 0 (y / 2))
halves (suc x) y =
    omega (arith, bit_and-bitwise (suc x) y, rounds-exact x (suc x / 2) (y / 2) (omega arith))

pub bit_and-zero : (x : ℕ) → bit_and x 0 ≡ 0
bit_and-zero x = bit_and-bitwise x 0 ∙ cleared x x
  where
    cleared : (k x : ℕ) → rounds k x 0 ≡ 0
    cleared zero x = refl
    cleared (suc k) zero = refl
    cleared (suc k) (suc x) = omega (arith, cleared k (suc x / 2))

pub two-pow-pos : (k : ℕ) → 0 < 2 ^ k
two-pow-pos zero = omega arith
two-pow-pos (suc k) = omega (arith, pow-suc 2 k, two-pow-pos k)

pub two-pow-add : (a b : ℕ) → 2 ^ (a + b) ≡ 2 ^ a * 2 ^ b
two-pow-add zero b = rw zero-add (omega arith)
two-pow-add (suc a) b = rw (suc-add a b) (
    omega (
      arith,
      pow-suc 2 (a + b),
      pow-suc 2 a,
      two-pow-add a b,
      ap (λ (t : ℕ). t * 2 ^ b) (pow-suc 2 a),
    ))

-- The `j` lowest bits, where there are no others.
bit_and_ones : (j q : ℕ) → q < 2 ^ j → bit_and q (2 ^ j - 1) ≡ q
bit_and_ones zero q h = rw bit_and-zero (omega arith)
bit_and_ones (suc j) q h =
    let halved : (2 ^ suc j - 1) / 2 ≡ 2 ^ j - 1 = omega (arith, pow-suc 2 j, two-pow-pos j) in
    omega (
      arith,
      halves q (2 ^ suc j - 1),
      ap (bit_and (q / 2)) halved,
      pow-suc 2 j,
      two-pow-pos j,
      bit_and_ones j (q / 2) (omega (arith, pow-suc 2 j)),
    )

-- One block of `j` ones above `k` zeros keeps these bits and clears the rest.
pub bit_and_block :
    (k j q r : ℕ)
    → r < 2 ^ k
    → q < 2 ^ j
    → bit_and (q * 2 ^ k + r) ((2 ^ j - 1) * 2 ^ k) ≡ q * 2 ^ k
bit_and_block zero j q r hr hq =
    let low : q * 2 ^ 0 + r ≡ q = omega arith in
    let ones : (2 ^ j - 1) * 2 ^ 0 ≡ 2 ^ j - 1 = omega arith in
    ap₂ bit_and low ones ∙ bit_and_ones j q hq ∙ omega arith
bit_and_block (suc k) j q r hr hq =
    let low : (q * 2 ^ suc k + r) / 2 ≡ q * 2 ^ k + r / 2 =
      omega (arith, ap (λ (t : ℕ). q * t) (pow-suc 2 k)) in
    let ones : (2 ^ j - 1) * 2 ^ suc k ≡ 2 * ((2 ^ j - 1) * 2 ^ k) =
      omega (arith, ap (λ (t : ℕ). (2 ^ j - 1) * t) (pow-suc 2 k)) in
    let halved : (2 ^ j - 1) * 2 ^ suc k / 2 ≡ (2 ^ j - 1) * 2 ^ k = omega arith in
    omega (
      arith,
      halves (q * 2 ^ suc k + r) ((2 ^ j - 1) * 2 ^ suc k),
      ap₂ bit_and low halved,
      ap (λ (t : ℕ). q * t) (pow-suc 2 k),
      bit_and_block k j q (r / 2) (omega (arith, pow-suc 2 k)) hq,
    )
