-- ===== src/External/Sample.antt =====
-- One concrete set of the external functions, simple enough to compute with: a tag of zeros, the
-- secret for the public key, no encoding. The tests run on it.
use mathlib.Core.Option.{none-ne-some, some-injective}
use mathlib.Core.Logic.{if_pos, if_neg}
use wolf_net.Shared.{
  codes, ◌==◌, bytes_eq, subst, ◌-◌, ◌≡◌, refl, ap, sym, ◌∙◌, arith, List, [], ◌∷◌, ◌++◌, Option,
  none, some, true, false, ltb, if◌then◌else◌, length, take, replicate, length-append, length-take,
  take-append,
}
use wolf_net.Net.{Bytes, Text, Ipv6Addr, IsIpv6}
use wolf_net.External.{External, IsLawful, PexEntry}

abbrev tag : Bytes
tag = replicate 16 0

abbrev sample_unseal : Bytes → Option Bytes
sample_unseal c = if ltb (length c) 16 then none else some (take (length c - 16) c)

abbrev sample_json : List PexEntry → Option Bytes
sample_json [] = some []
sample_json (e ∷ es) = none

-- The text of the gateway of the one route in a sample file
abbrev pub sample_gateway : Text
sample_gateway = b'1' ∷ b'0' ∷ b'.' ∷ b'0' ∷ b'.' ∷ b'0' ∷ b'.' ∷ b'2' ∷ []

-- The one v6 address that is read: `fd00::`
abbrev pub sample_net : Text
sample_net = codes "fd00::"

abbrev sample_parse : Text → Option Ipv6Addr
sample_parse t = if t == sample_net then some (253 ∷ replicate 15 0) else none

abbrev pub sample : External
sample = record {
  sha256 = λ b. take 32 (b ++ replicate 32 0);
  public_of = λ b. b;
  diffie_hellman = λ s t. replicate 32 7;
  seal = λ k n p. some (p ++ tag);
  unseal = λ k n c. sample_unseal c;
  seal_detached = λ k n p. some (p, tag);
  unseal_detached = λ k n c t. some c;
  base64_encode = λ b. b;
  base64_decode = λ t. some t;
  trim = λ t. t;
  from_utf8_lossy = λ b. b;
  is_utf8 = λ b. true;
  parse_ipv6 = sample_parse;
  parse_socket_v6 = λ t. none;
  socket_v6_to_text = λ ip port. [];
  resolve = λ t. none;
  entries_to_json = sample_json;
  entries_of_json = λ b. some [];
  map_of_json = λ t. some ((t, sample_gateway) ∷ []);
}

unseal_tagged : (c t : Bytes) → length t ≡ 16 → sample_unseal (c ++ t) ≡ some c
unseal_tagged c t h = rw (long_enough, counted) (ap some (take-append (length c) c t refl))
  where
    long_enough : ltb (length (c ++ t)) 16 ≡ false
    long_enough = ground (arith, length-append c t)

    counted : length (c ++ t) - 16 ≡ length c
    counted = omega (arith, length-append c t)

sample_json_read : (es : List PexEntry) (b : Bytes) → sample_json es ≡ some b → some [] ≡ some es
sample_json_read [] b h = refl
sample_json_read (e ∷ es) b h = cc

some_is : {A : Type 0} (a b : A) → some a ≡ some b → a ≡ b
some_is a b h = cc

sample_parse-IsIpv6 : (t : Text) (ip : Ipv6Addr) → sample_parse t ≡ some ip → IsIpv6 ip
sample_parse-IsIpv6 t ip h = elim (bytes_eq.dec t sample_net) [
  | yes same ↦ let e = some-injective _ _ (rw (if_pos _ same) at h) in subst IsIpv6 e (omega arith)
  | no apart ↦ let e = rw (if_neg _ apart) at h in absurd (none-ne-some ip e)
]

pub sample-IsLawful : IsLawful sample
sample-IsLawful = record {
  length-sha256 =
      λ b. omega (arith, length-take 32 (b ++ replicate 32 0), length-append b (replicate 32 0));
  dh_comm = λ s t. refl;
  unseal-seal =
      λ k n p c h. ap sample_unseal (sym (some_is (p ++ tag) c h)) ∙ unseal_tagged p tag refl;
  length-seal = λ k n p c h. ap length (sym (some_is (p ++ tag) c h)) ∙ length-append p tag;
  seal_split = λ k n p c t h. ap (λ q. some (q.0 ++ q.1)) (some_is (p, tag) (c, t) h);
  seal_none = λ k n p h. cc;
  length-seal_detached = λ k n p c t h. (
    ap (λ q. length q.0) (sym (some_is (p, tag) (c, t) h)),
    ap (λ q. length q.1) (sym (some_is (p, tag) (c, t) h)),
  );
  unseal_split = λ k n c t h. unseal_tagged c t h;
  unseal_short = λ k n c h. ground arith;
  length-unseal_detached = λ k n c t p h. ap length (sym (some_is c p h));
  base64_decode-encode = λ b. refl;
  trim-encode = λ b. refl;
  lossy_valid = λ t h. refl;
  parse_ipv6-IsIpv6 = sample_parse-IsIpv6;
  entries_round_trip = λ es b h. sample_json_read es b h;
}
