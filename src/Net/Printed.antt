-- ===== src/Net/Printed.antt =====
-- What the parsers of `Decimal` read is what its printers wrote.
use native.Mathlib.Nat.{pow-suc}
use mathlib.Core.Logic.{if_pos, if_neg}
use wolf_net.Shared.{
  ==-eq, ℕ, zero, suc, ◌+◌, ◌-◌, ◌*◌, ◌/◌, ◌%◌, ◌^◌, ◌<◌, ◌≤◌, ◌≡◌, refl, ◌∙◌, ap, arith, Bool,
  true, false, ◌&&◌, [], ◌∷◌, ◌++◌, some, leb, ltb, Bool-cases, inl, inr, ◌==◌, nat_eq, ◌≢◌,
  option_eq,
}
use wolf_net.Net.Address.{Text, Ipv4Addr, IsIpv4}
use wolf_net.Net.Decimal.{
  decimal_on, decimal, digits_value, parse_uint, parse_octet, split, extend_head, parse_ipv4,
  ipv4_to_text, ipv4_of_parts,
}

abbrev is_digit : ℕ → Bool
is_digit c = leb b'0' c && leb c b'9'

-- One more digit at the end.
digits_value-append :
    (acc : ℕ) (s : Text) (v c : ℕ)
    → digits_value acc s ≡ some v
    → c < 10
    → digits_value acc (s ++ (c + b'0') ∷ []) ≡ some (v * 10 + c)
unfolding digits_value
digits_value-append acc [] v c h small = ground arith
digits_value-append acc (d ∷ s) v c h small =
    ground (arith, digits_value-append (acc * 10 + (d - b'0')) s v c)

digits_value-decimal_on : (fuel n : ℕ) → n < 10 ^ fuel → digits_value 0 (decimal_on fuel n) ≡ some n
unfolding decimal_on digits_value
digits_value-decimal_on zero n h = ap some (omega arith)
digits_value-decimal_on (suc fuel) n h = elim (Bool-cases (ltb n 10)) [
  | inl e ↦ rw e (ground arith)
  | inr e ↦ rw e (
      digits_value-append 0 (decimal_on fuel (n / 10)) (n / 10) (n % 10)
        (digits_value-decimal_on fuel (n / 10) (omega (arith, pow-suc 10 fuel))) (omega arith)
      ∙ ap some (omega arith))
]

-- Text that starts with a digit and has none but digits.
abbrev AllDigits : Text → Type 0
AllDigits [] = Unit
AllDigits (c ∷ s) = (is_digit c ≡ true) × AllDigits s

AllDigits-append : (s : Text) (c : ℕ) → AllDigits s → c < 10 → AllDigits (s ++ (c + b'0') ∷ [])
AllDigits-append [] c all small = (ground arith, tt)
AllDigits-append (d ∷ s) c all small = (all.0, AllDigits-append s c all.1 small)

decimal_on-AllDigits : (fuel n : ℕ) → AllDigits (decimal_on fuel n)
unfolding decimal_on
decimal_on-AllDigits zero n = tt
decimal_on-AllDigits (suc fuel) n = elim (Bool-cases (ltb n 10)) [
  | inl e ↦ rw e (ground arith, tt)
  | inr e ↦ rw e (AllDigits-append _ (n % 10) (decimal_on-AllDigits fuel (n / 10)) (omega arith))
]

decimal_on-ne-nil : (fuel n : ℕ) → decimal_on (suc fuel) n ≢ []
unfolding decimal_on
decimal_on-ne-nil fuel n h = elim (Bool-cases (ltb n 10)) [
  | inl e ↦ absurd (ground arith)
  | inr e ↦ last_stays (decimal_on fuel (n / 10)) (n % 10 + b'0') (rw e at h)
]
  where
    last_stays : (s : Text) (c : ℕ) → s ++ c ∷ [] ≢ []
    last_stays [] c h = cc
    last_stays (d ∷ s) c h = cc

parse_uint-AllDigits :
    (limit : ℕ) (s : Text) (n : ℕ)
    → AllDigits s
    → s ≢ []
    → digits_value 0 s ≡ some n
    → n ≤ limit
    → parse_uint limit s ≡ some n
unfolding parse_uint
parse_uint-AllDigits limit [] n all full value small = absurd (full refl)
parse_uint-AllDigits limit (c ∷ []) n all full value small = rw value (ground arith)
parse_uint-AllDigits limit (c ∷ d ∷ s) n all full value small =
    let digit : c ≢ b'+' = λ e. ground (arith, all.0) in rw (if_neg _ digit, value) (ground arith)

-- Every number up to the limit is read back.
pub parse_uint-decimal :
    (limit n : ℕ) → n ≤ limit → limit < 10 ^ 20 → parse_uint limit (decimal n) ≡ some n
unfolding decimal
parse_uint-decimal limit n small wide =
    parse_uint-AllDigits limit (decimal_on 20 n) n (decimal_on-AllDigits 20 n)
      (decimal_on-ne-nil 19 n) (digits_value-decimal_on 20 n (omega arith)) small

-- The separator does not occur.
abbrev pub Lacks : ℕ → Text → Type 0
Lacks sep [] = Unit
Lacks sep (c ∷ s) = (c ≢ sep) × Lacks sep s

pub split-append :
    (sep : ℕ) (s rest : Text) → Lacks sep s → split sep (s ++ sep ∷ rest) ≡ s ∷ split sep rest
unfolding split
split-append sep [] rest h = let same : sep ≡ sep = refl in rw (if_pos _ same) refl
split-append sep (c ∷ s) rest h =
    rw (if_neg _ h.0) (ap (extend_head c) (split-append sep s rest h.1))

pub split-Lacks : (sep : ℕ) (s : Text) → Lacks sep s → split sep s ≡ s ∷ []
unfolding split
split-Lacks sep [] h = refl
split-Lacks sep (c ∷ s) h = rw (if_neg _ h.0) (ap (extend_head c) (split-Lacks sep s h.1))

AllDigits-Lacks : (sep : ℕ) (s : Text) → is_digit sep ≡ false → AllDigits s → Lacks sep s
AllDigits-Lacks sep [] other all = tt
AllDigits-Lacks sep (c ∷ s) other all =
    (λ e. ground (arith, all.0), AllDigits-Lacks sep s other all.1)

pub decimal-Lacks : (sep n : ℕ) → is_digit sep ≡ false → Lacks sep (decimal n)
unfolding decimal
decimal-Lacks sep n other = AllDigits-Lacks sep (decimal_on 20 n) other (decimal_on-AllDigits 20 n)

-- Every number below `n` passes the test.
all_below : ℕ → (ℕ → Bool) → Bool
all_below zero test = true
all_below (suc n) test = test n && all_below n test

all_below-lt :
    (limit : ℕ) (test : ℕ → Bool) (n : ℕ) → all_below limit test ≡ true → n < limit → test n ≡ true
unfolding all_below
all_below-lt zero test n all h = absurd (omega arith)
all_below-lt (suc limit) test n all h = ground (arith, all_below-lt limit test n)

is_read : ℕ → Bool
unfolding parse_octet decimal nat_eq option_eq
is_read n = parse_octet (decimal n) == some n

octets_read : all_below 256 is_read ≡ true
unfolding all_below is_read
octets_read = refl

of_is_read : (n : ℕ) → is_read n ≡ true → parse_octet (decimal n) ≡ some n
unfolding is_read
of_is_read n h = ==-eq (parse_octet (decimal n)) (some n) h

parse_octet-decimal : (n : ℕ) → n < 256 → parse_octet (decimal n) ≡ some n
parse_octet-decimal n h = of_is_read n (all_below-lt 256 is_read n octets_read h)

-- An address is read back from its text.
pub parse_ipv4-ipv4_to_text : (ip : Ipv4Addr) → IsIpv4 ip → parse_ipv4 (ipv4_to_text ip) ≡ some ip
unfolding parse_ipv4 ipv4_to_text ipv4_of_parts
parse_ipv4-ipv4_to_text ip h =
    let dotless : (n : ℕ) → Lacks b'.' (decimal n) = λ n. decimal-Lacks b'.' n refl in
    rw
      (
        split-append b'.' (decimal ip.a) _ (dotless ip.a),
        split-append b'.' (decimal ip.b) _ (dotless ip.b),
        split-append b'.' (decimal ip.c) _ (dotless ip.c),
        split-Lacks b'.' (decimal ip.d) (dotless ip.d),
        ipv4_of_parts,
        parse_octet-decimal ip.a h.0,
        parse_octet-decimal ip.b h.1,
        parse_octet-decimal ip.c h.2,
        parse_octet-decimal ip.d h.3,
      )
      refl
