-- ===== src/Join/Token.antt =====
-- The invite tokens of src/main.rs: `detect_public_ip`, `cmd_invite`, and the two ends of `cmd_join`,
-- which reads a token and prints one for the way back. JSON is a parameter, and so are the answers
-- of the address services. The messages are left out; `none` is an exit with an error.
pub mod Exchange
use wolf_net.Shared.{
  ℕ, Bool, List, [], ◌∷◌, ◌++◌, Option, none, some, if◌then◌else◌, take, drop, length, ◌==◌,
  bytes_eq, ◌≡◌,
}
use wolf_net.Net.{Bytes, Text, parse_ipv4, decimal, ◌>>=◌}
use wolf_net.External.{External}
use wolf_net.Crypto.{KeyPair}
use wolf_net.Peer.{is_some}
use wolf_net.Config.{Config}
use wolf_net.Join.{Invite, join}

-- The object that is encoded.
pub record Token : Type 0 where
  pub pk : Text
  pub ep : Text
  pub ip : Text
  pub sn : ℕ
  pub pt : ℕ
  pub hn : Text

-- `serde_json` on this object; `none` is no JSON.
pub record TokenJson : Type 0 where
  pub to_string : Token → Bytes
  pub from_slice : Bytes → Option Invite

-- The fields of an object are read back with their types.
abbrev pub ReadsTokens : TokenJson → Type 0
ReadsTokens json =
    (t : Token)
    → json.from_slice (json.to_string t)
      ≡ some (record {
        pk = some t.pk;
        ep = some t.ep;
        ip = some t.ip;
        sn = some t.sn;
        hn = some t.hn;
      })

-- The text behind the first occurrence of the separator.
unfoldable pub behind : Text → Text → Option Text
unfolding bytes_eq
behind sep [] = none
behind sep (c ∷ s) =
    let rest = behind sep s in
    if take (length sep) (c ∷ s) == sep then some (drop (length sep) (c ∷ s)) else rest

-- The text in front of it, or all.
unfoldable pub in_front : Text → Text → Text
unfolding bytes_eq
in_front sep [] = []
in_front sep (c ∷ s) =
    let rest = in_front sep s in if take (length sep) (c ∷ s) == sep then [] else c ∷ rest

abbrev blank_line : Text
blank_line = 13 ∷ 10 ∷ 13 ∷ 10 ∷ []

-- `split("\\r\\n\\r\\n").nth(1)`, trimmed, where it is an address.
unfoldable pub address_in : External → Text → Option Text
unfolding behind in_front parse_ipv4
address_in x response = do
  rest ← behind blank_line response
  let ip = x.trim (in_front blank_line rest)
  if is_some (parse_ipv4 ip) then some ip else none

-- What each service answered, in order, where it answered.
unfoldable pub detect_public_ip : External → List (Option Text) → Option Text
unfolding address_in
detect_public_ip x [] = none
detect_public_ip x (none ∷ answers) = detect_public_ip x answers
detect_public_ip x (some response ∷ answers) =
    let rest = detect_public_ip x answers in
    elim (address_in x response) [ none ↦ rest | some ip ↦ some ip ]

unfoldable pub public_endpoint : Option Text → Config → Text
unfolding decimal
public_endpoint none config = config.network.address ++ b':' ∷ decimal config.network.listen_port
public_endpoint (some ip) config = ip ++ b':' ∷ decimal config.network.listen_port

-- A node that invites: its keys, the address that it found, and its host name.
pub record Inviter : Type 0 where
  pub keys : KeyPair
  pub public_ip : Option Text
  pub hostname : Text

unfoldable pub token_of : External → Inviter → Config → Token
unfolding public_endpoint
token_of x node config = record {
  pk = x.base64_encode node.keys.public;
  ep = public_endpoint node.public_ip config;
  ip = config.network.address;
  sn = config.network.subnet;
  pt = config.network.listen_port;
  hn = node.hostname;
}

-- The token of `cmd_invite`, and the reverse token of `cmd_join`.
unfoldable pub invite : External → TokenJson → Inviter → Config → Text
unfolding token_of
invite x json node config = x.base64_encode (json.to_string (token_of x node config))

unfoldable pub decode_token : External → TokenJson → Text → Option Invite
decode_token x json token = do bytes ← x.base64_decode (x.trim token); json.from_slice bytes

-- The configuration that is saved, and the reverse token.
unfoldable pub cmd_join :
    External → TokenJson → Inviter → Text → Option Config → Option (Config × Text)
unfolding decode_token join invite
cmd_join x json node token loaded = do
  sent ← decode_token x json token
  config ← join x sent loaded
  some (config, invite x json node config)
