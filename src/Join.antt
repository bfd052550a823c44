-- ===== src/Join.antt =====
-- `cmd_join` of src/main.rs: what an invite token makes of the configuration. The key file, the
-- reverse token and the messages are left out; `none` is an exit with an error. `u8` arithmetic
-- wraps around, as in the release build.
pub mod Address
pub mod Merge
pub mod Token
use wolf_net.Shared.{
  ℕ, zero, suc, ◌+◌, ◌%◌, Bool, true, false, not, ◌&&◌, ◌||◌, List, [], ◌∷◌, ◌++◌, map, Option,
  none, some, if◌then◌else◌, ◌==◌, bytes_eq, leb, ltb, take, codes,
}
use wolf_net.Net.{Text, Ipv4Addr, ipv4, parse_ipv4, ipv4_to_text, ◌>>=◌}
use wolf_net.External.{External}
use wolf_net.Peer.{is_some}
use wolf_net.Manager.{contains}
use wolf_net.Config.{Config, PeerConfig, default_config}

-- The fields of the token, where they have their type.
pub record Invite : Type 0 where
  pub pk : Option Text
  pub ep : Option Text
  pub ip : Option Text
  pub sn : Option ℕ
  pub hn : Option Text

abbrev pub is_alphanumeric : ℕ → Bool
is_alphanumeric c = leb b'0' c && leb c b'9' || leb b'A' c && leb c b'Z' || leb b'a' c && leb c b'z'

unfoldable pub alphanumerics : Text → Text
alphanumerics [] = []
alphanumerics (c ∷ s) = let rest = alphanumerics s in if is_alphanumeric c then c ∷ rest else rest

unfoldable pub derive_peer_name : External → Option Text → Text → Text
unfolding alphanumerics bytes_eq
derive_peer_name x none pubkey = codes "invited-" ++ take 8 (alphanumerics pubkey)
derive_peer_name x (some hostname) pubkey =
    if x.trim hostname == []
    then codes "invited-" ++ take 8 (alphanumerics pubkey)
    else x.trim hostname

abbrev pub default_addresses : List Text
default_addresses = codes "10.0.10.1" ∷ codes "0.0.0.0" ∷ []

-- What the address must differ from.
pub record Taken : Type 0 where
  pub peer_ip : Text
  pub used_ips : List Text
  pub current : Text

unfoldable pub candidate : Ipv4Addr → ℕ → Text
unfolding ipv4_to_text
candidate peer_addr last = ipv4_to_text (ipv4 peer_addr.a peer_addr.b peer_addr.c last)

unfoldable pub is_free : Taken → Text → Bool
unfolding bytes_eq contains
is_free taken c =
    not (c == taken.peer_ip) && not (contains taken.used_ips c) && not (c == taken.current)

-- The loop: a free last octet, or `some none` where it gives up; `none` is out of fuel.
unfoldable pub search : ℕ → Taken → Ipv4Addr → ℕ → Option (Option ℕ)
unfolding candidate is_free
search zero taken peer_addr last = none
search (suc fuel) taken peer_addr last =
    let next = (last + 1) % 256 in
    let rest = search fuel taken peer_addr next in
    if is_free taken (candidate peer_addr last)
    then some (some last)
    else if ltb 254 next
    then some none
    else rest

unfoldable pub next_octet : Taken → Ipv4Addr → Option (Option ℕ)
unfolding search
next_octet taken peer_addr = search 257 taken peer_addr ((peer_addr.d + 1) % 256)

-- The address of this node after the join.
unfoldable pub join_address : Bool → Text → Config → Option Text
unfolding parse_ipv4 next_octet candidate bytes_eq contains
join_address exists peer_ip config =
    if exists && not (contains default_addresses config.network.address)
    then some config.network.address
    else elim (parse_ipv4 peer_ip) [
      | none ↦ none
      | some peer_addr ↦
          elim (next_octet
            (record {
              peer_ip = peer_ip;
              used_ips = map (λ (p : PeerConfig). p.allowed_ip) config.peers;
              current = config.network.address;
            })
            peer_addr) [ some (some last) ↦ some (candidate peer_addr last) | _ ↦ none ]
    ]

abbrev pub or_name : Option Text → Text → Option Text
or_name none name = some name
or_name (some given) name = some given

-- The inviter in the list: the first entry of its key is updated, or a new entry is added.
unfoldable pub merge_inviter : Text → Text → Text → Text → List PeerConfig → List PeerConfig
unfolding bytes_eq
merge_inviter pk ep ip name [] =
    (record { public_key = pk; endpoint = some ep; allowed_ip = ip; name = some name }) ∷ []
merge_inviter pk ep ip name (p ∷ ps) =
    let rest = merge_inviter pk ep ip name ps in
    if p.public_key == pk
    then (record p { endpoint = some ep; allowed_ip = ip; name = or_name p.name name }) ∷ ps
    else p ∷ rest

abbrev pub or_24 : Option ℕ → ℕ
or_24 none = 24
or_24 (some n) = n

abbrev pub or_default : Option Config → Config
or_default none = default_config
or_default (some config) = config

abbrev pub joined : External → Invite → Text → Text → Text → Config → Text → Config
joined x invite pk ep ip config address = record {
  network = record config.network { address = address; subnet = or_24 invite.sn % 256 };
  security = config.security;
  peers = merge_inviter pk ep ip (derive_peer_name x invite.hn pk) config.peers;
}

-- The configuration that is saved. `loaded` is the one of an existing file.
unfoldable pub join : External → Invite → Option Config → Option Config
unfolding derive_peer_name join_address merge_inviter
join x invite loaded = do
  pk ← invite.pk
  ep ← invite.ep
  ip ← invite.ip
  address ← join_address (is_some loaded) ip (or_default loaded)
  some (joined x invite pk ep ip (or_default loaded) address)
