-- ===== src/Net/Parsed.antt =====
-- The range of what the parsers of `Decimal` return.
use wolf_net.Shared.{ℕ, ◌≤◌, ◌<◌, ◌≡◌, refl, arith, List, [], ◌∷◌, Option, none, some}
use wolf_net.Net.Address.{Text, Ipv4Addr, IsIpv4}
use wolf_net.Net.Decimal.{
  parse_octet, parse_uint, digits_value, ipv4_of_parts, parse_ipv4, split, ◌>>=◌, at_most,
}

at_most-le : (limit n : ℕ) (o : Option ℕ) → at_most limit o ≡ some n → n ≤ limit
at_most-le limit n none h = absurd (ground arith)
at_most-le limit n (some k) h = ground arith

pub parse_uint-le : (limit : ℕ) (s : Text) (n : ℕ) → parse_uint limit s ≡ some n → n ≤ limit
unfolding parse_uint
parse_uint-le limit [] n h = absurd (ground arith)
parse_uint-le limit (c ∷ []) n h = at_most-le limit n _ h
parse_uint-le limit (c ∷ d ∷ s) n h = at_most-le limit n _ h

pub parse_octet-lt : (s : Text) (n : ℕ) → parse_octet s ≡ some n → n < 256
unfolding parse_octet
parse_octet-lt [] n h = absurd (ground arith)
parse_octet-lt (c ∷ []) n h = ground arith
parse_octet-lt (c ∷ d ∷ s) n h = ground (arith, at_most-le 255 n (digits_value 0 (c ∷ d ∷ s)))

-- Inversion of a successful bind.
pub bind-some {ℓ κ} :
    {A : Type ℓ} {B : Type κ} (o : Option A) (f : A → Option B) (b : B)
    → (o >>= f) ≡ some b
    → (a : A) × (o ≡ some a) × (f a ≡ some b)
bind-some none f b h = cc
bind-some (some a) f b h = (a, refl, h)

ipv4_of_parts-IsIpv4 :
    (parts : List Text) (ip : Ipv4Addr) → ipv4_of_parts parts ≡ some ip → IsIpv4 ip
unfolding ipv4_of_parts
ipv4_of_parts-IsIpv4 (a ∷ b ∷ c ∷ d ∷ []) ip h =
    let (a', ea, ha) = bind-some (parse_octet a) _ ip h in
    let (b', eb, hb) = bind-some (parse_octet b) _ ip ha in
    let (c', ec, hc) = bind-some (parse_octet c) _ ip hb in
    let (d', ed, hd) = bind-some (parse_octet d) _ ip hc in
    ground (
      arith,
      parse_octet-lt a a' ea,
      parse_octet-lt b b' eb,
      parse_octet-lt c c' ec,
      parse_octet-lt d d' ed,
    )
ipv4_of_parts-IsIpv4 _ ip h = absurd (ground arith)

-- A parsed address has four bytes.
pub parse_ipv4-IsIpv4 : (s : Text) (ip : Ipv4Addr) → parse_ipv4 s ≡ some ip → IsIpv4 ip
unfolding parse_ipv4
parse_ipv4-IsIpv4 s ip h = ipv4_of_parts-IsIpv4 (split b'.' s) ip h
