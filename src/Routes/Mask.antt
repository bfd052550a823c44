-- ===== src/Routes/Mask.antt =====
-- The mask test of `find_subnet_match` in src/peer.rs, against networks as blocks of addresses.
use Prim.Native.Nat.{bit_and}
use native.Mathlib.Nat.{div-add-mod', mod-lt, div-lt_iff_lt-mul}
use native.Mathlib.Decide.{ℕ_discrete}
use mathlib.Core.Logic.{if_pos, if_neg}
use wolf_net.Shared.Bits.{bit_and_block, two-pow-add, two-pow-pos}
use wolf_net.Shared.{
  ℕ, ◌+◌, ◌-◌, ◌*◌, ◌/◌, ◌%◌, ◌^◌, ◌≤◌, ◌<◌, ◌≡◌, ◌↔◌, refl, sym, ap, ◌∙◌, arith, leb, Bool-cases,
  inl, inr, nat_eq,
}
use wolf_net.Routes.{mask}

-- `(t + 1) * s` for `t = n - 1`.
pred-mul : (n s : ℕ) → 0 < n → (n - 1) * s + s ≡ n * s
pred-mul n s h = let back : n - 1 + 1 ≡ n = omega arith in omega (arith, ap (λ (t : ℕ). t * s) back)

mod_block : (k m r : ℕ) → r < m → (k * m + r) % m ≡ r
mod_block k m r h = div-unique (k * m + r) m k r refl h
  where
    div-unique : (n m k r : ℕ) → n ≡ k * m + r → r < m → n % m ≡ r
    div-unique n m k r e h = grind arith

-- The shifted ones, cut to the word.
shifted_ones : (w p s : ℕ) → p + s ≡ w → (2 ^ w - 1) * 2 ^ s % 2 ^ w ≡ (2 ^ p - 1) * 2 ^ s
shifted_ones w p s e =
    let whole : 2 ^ p * 2 ^ s ≡ 2 ^ w = sym (two-pow-add p s) ∙ ap (λ (t : ℕ). 2 ^ t) e in
    let sum : (2 ^ w - 1) * 2 ^ s ≡ (2 ^ s - 1) * 2 ^ w + (2 ^ p - 1) * 2 ^ s = omega (
      arith,
      whole,
      pred-mul (2 ^ w) (2 ^ s) (two-pow-pos w),
      pred-mul (2 ^ s) (2 ^ w) (two-pow-pos s),
      pred-mul (2 ^ p) (2 ^ s) (two-pow-pos p),
    ) in
    ap (λ (t : ℕ). t % 2 ^ w) sum
    ∙ mod_block (2 ^ s - 1) (2 ^ w) ((2 ^ p - 1) * 2 ^ s)
        (omega (arith, whole, pred-mul (2 ^ p) (2 ^ s) (two-pow-pos p), two-pow-pos s))

-- A mask is a block of ones at the top of the word.
pub mask_block : (w prefix : ℕ) → prefix ≤ w → mask w prefix ≡ (2 ^ prefix - 1) * 2 ^ (w - prefix)
unfolding mask
mask_block w prefix h = elim (ℕ_discrete prefix 0) [
  | yes z ↦ rw (if_pos _ z, z) (omega arith)
  | no n ↦ elim (Bool-cases (leb w prefix)) [
    | inl top ↦
        let full : w ≡ prefix = ground arith in
        let none_left : w - prefix ≡ 0 = omega arith in
        rw (if_neg _ n, top, none_left, full) (omega arith)
    | inr low ↦
        let part : prefix + (w - prefix) ≡ w = omega arith in
        rw (if_neg _ n, low) (shifted_ones w prefix (w - prefix) part)
  ]
]

-- The addresses that a network of this prefix holds: those that agree in the first bits.
abbrev pub SameNetwork : ℕ → ℕ → ℕ → ℕ → Type 0
SameNetwork w prefix dest net = dest / 2 ^ (w - prefix) ≡ net / 2 ^ (w - prefix)

bit_and-mask :
    (w prefix a : ℕ)
    → prefix ≤ w
    → a < 2 ^ w
    → bit_and a (mask w prefix) ≡ a / 2 ^ (w - prefix) * 2 ^ (w - prefix)
bit_and-mask w prefix a h fits =
    let s = w - prefix in
    let whole : 2 ^ prefix * 2 ^ s ≡ 2 ^ w =
      sym (two-pow-add prefix s) ∙ ap (λ (t : ℕ). 2 ^ t) (omega arith) in
    let split : a / 2 ^ s * 2 ^ s + a % 2 ^ s ≡ a = div-add-mod' a (2 ^ s) in
    rw (mask_block w prefix h) (
      ap (λ (t : ℕ). bit_and t ((2 ^ prefix - 1) * 2 ^ s)) (sym split)
      ∙ bit_and_block s prefix (a / 2 ^ s) (a % 2 ^ s) (mod-lt a (two-pow-pos s))
          ((div-lt_iff_lt-mul (two-pow-pos s)).1 (rw whole fits)))

-- Two addresses of `w` bits pass the mask test of a prefix of at most `w` exactly when they lie in
-- one network of that prefix.
pub mask_test_iff :
    (w prefix dest net : ℕ)
    → prefix ≤ w
    → dest < 2 ^ w
    → net < 2 ^ w
    → (bit_and dest (mask w prefix) ≡ bit_and net (mask w prefix)) ↔ SameNetwork w prefix dest net
mask_test_iff w prefix dest net h hd hn =
    let s = w - prefix in
    rw (bit_and-mask w prefix dest h hd, bit_and-mask w prefix net h hn)
      (
        λ e. cancel (2 ^ s) (dest / 2 ^ s) (net / 2 ^ s) (two-pow-pos s) e,
        ap (λ (t : ℕ). t * 2 ^ s),
      )
  where
    cancel : (c a b : ℕ) → 0 < c → a * c ≡ b * c → a ≡ b
    cancel c a b pos e = grind arith
