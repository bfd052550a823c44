-- ===== src/Net/Decimal.antt =====
-- Decimal text as the standard library prints and reads it: `Display` of the unsigned integers,
-- of `Ipv4Addr` and of a v4 socket address, and their `FromStr`.
use wolf_net.Shared.{
  ℕ, zero, suc, ◌+◌, ◌-◌, ◌*◌, ◌/◌, ◌%◌, ◌&&◌, ◌||◌, List, [], ◌∷◌, ◌++◌, Option, none, some, leb,
  ltb, if◌then◌else◌, ◌==◌, nat_eq, length,
}
use wolf_net.Net.Address.{Text, Ipv4Addr, ipv4, SocketAddr, v4}

-- The digits of a number; twenty suffice below 2 ^ 64.
unfoldable pub decimal_on : ℕ → ℕ → Text
decimal_on zero n = []
decimal_on (suc fuel) n =
    let front = decimal_on fuel (n / 10) in
    if ltb n 10 then (n + b'0') ∷ [] else front ++ (n % 10 + b'0') ∷ []

unfoldable pub decimal : ℕ → Text
unfolding decimal_on
decimal n = decimal_on 20 n

unfoldable pub digits_value : ℕ → Text → Option ℕ
digits_value acc [] = some acc
digits_value acc (c ∷ s) =
    let rest = digits_value (acc * 10 + (c - b'0')) s in
    if leb b'0' c && leb c b'9' then rest else none

abbrev pub at_most : ℕ → Option ℕ → Option ℕ
at_most limit none = none
at_most limit (some n) = if leb n limit then some n else none

-- `u8::from_str` and `u16::from_str`: one leading `+` is allowed.
unfoldable pub parse_uint : ℕ → Text → Option ℕ
unfolding digits_value nat_eq
parse_uint limit [] = none
parse_uint limit (c ∷ []) = at_most limit (digits_value 0 (c ∷ []))
parse_uint limit (c ∷ d ∷ s) =
    at_most limit (digits_value 0 (if c == b'+' then d ∷ s else c ∷ d ∷ s))

-- An octet has at most three digits and no leading zero.
unfoldable pub parse_octet : Text → Option ℕ
unfolding digits_value nat_eq
parse_octet [] = none
parse_octet (c ∷ []) = digits_value 0 (c ∷ [])
parse_octet (c ∷ d ∷ s) =
    if c == b'0' || ltb 1 (length s) then none else at_most 255 (digits_value 0 (c ∷ d ∷ s))

-- The port of a socket address: digits alone.
unfoldable pub parse_port : Text → Option ℕ
unfolding digits_value
parse_port [] = none
parse_port (c ∷ s) = at_most 65535 (digits_value 0 (c ∷ s))

abbrev pub extend_head : ℕ → List Text → List Text
extend_head c [] = (c ∷ []) ∷ []
extend_head c (p ∷ ps) = (c ∷ p) ∷ ps

-- `str::split`
unfoldable pub split : ℕ → Text → List Text
unfolding nat_eq
split sep [] = [] ∷ []
split sep (c ∷ s) = let rest = split sep s in if c == sep then [] ∷ rest else extend_head c rest

-- `str::split_once`
unfoldable pub split_once : ℕ → Text → Option (Text × Text)
unfolding nat_eq
split_once sep [] = none
split_once sep (c ∷ s) =
    let rest = split_once sep s in
    if c == sep
    then some ([], s)
    else elim rest [ none ↦ none | some (front, back) ↦ some (c ∷ front, back) ]

abbrev pub ◌>>=◌ {ℓ κ} : {A : Type ℓ} {B : Type κ} → Option A → (A → Option B) → Option B
none >>= f = none
some a >>= f = f a

infixl 5 ◌>>=◌
unfoldable pub ipv4_of_parts : List Text → Option Ipv4Addr
unfolding parse_octet
ipv4_of_parts (a ∷ b ∷ c ∷ d ∷ []) = do
  a' ← parse_octet a
  b' ← parse_octet b
  c' ← parse_octet c
  d' ← parse_octet d
  some (ipv4 a' b' c' d')
ipv4_of_parts _ = none

unfoldable pub parse_ipv4 : Text → Option Ipv4Addr
unfolding split
parse_ipv4 s = ipv4_of_parts (split b'.' s)

unfoldable pub ipv4_to_text : Ipv4Addr → Text
unfolding decimal
ipv4_to_text ip =
    decimal ip.a ++ (b'.' ∷ (decimal ip.b ++ (b'.' ∷ (decimal ip.c ++ (b'.' ∷ decimal ip.d)))))

unfoldable pub parse_socket_v4 : Text → Option SocketAddr
unfolding parse_ipv4 parse_port split_once
parse_socket_v4 s = do
  (host, port) ← split_once b':' s
  ip ← parse_ipv4 host
  n ← parse_port port
  some (v4 ip n)

unfoldable pub socket_v4_to_text : Ipv4Addr → ℕ → Text
unfolding ipv4_to_text
socket_v4_to_text ip port = ipv4_to_text ip ++ b':' ∷ decimal port
