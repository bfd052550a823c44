-- ===== src/Join/Token/Exchange.antt =====
-- Two nodes that exchange tokens, by `cmd_invite` and two runs of `cmd_join` of src/main.rs.
use mathlib.Core.Logic.{if_pos}
use mathlib.Core.Option.{some-injective, none-ne-some}
use wolf_net.Shared.{
  arith, ◌≡◌, ◌≢◌, refl, ◌∙◌, sym, ap, inl, inr, true, false, List, Option, none, some,
  if◌then◌else◌, ◌==◌, bytes_eq, Option-cases, map, ℕ,
}
use wolf_net.Net.{Text, parse_ipv4, Ipv4Addr}
use wolf_net.Net.Parsed.{bind-some}
use wolf_net.External.{External, IsLawful}
use wolf_net.Manager.{contains}
use wolf_net.Config.{Config, PeerConfig}
use wolf_net.Config.Dedup.Best.{entry_of}
use wolf_net.Join.{
  Invite, join, join_address, default_addresses, derive_peer_name, or_default, joined, candidate,
  is_free, Taken,
}
use wolf_net.Join.Address.{next_octet_ends}
use wolf_net.Join.Merge.{inviter_entry, join_entries}
use wolf_net.Join.Token.{
  Token, TokenJson, ReadsTokens, Inviter, token_of, invite, decode_token, cmd_join, public_endpoint,
}

-- The fields of a token.
abbrev pub fields : Token → Invite
fields t = record { pk = some t.pk; ep = some t.ep; ip = some t.ip; sn = some t.sn; hn = some t.hn }

-- The list has an entry of this key with this endpoint and address.
abbrev pub HasPeer : Text → Text → Text → List PeerConfig → Type 0
HasPeer key ep ip peers =
    (e : PeerConfig) × (entry_of key peers ≡ some e) × (e.endpoint ≡ some ep) × (e.allowed_ip ≡ ip)

entry_HasPeer :
    (pk ep ip name : Text) (old : Option PeerConfig) (peers : List PeerConfig)
    → entry_of pk peers ≡ some (inviter_entry pk ep ip name old)
    → HasPeer pk ep ip peers
entry_HasPeer pk ep ip name none peers h = (_, h, refl, refl)
entry_HasPeer pk ep ip name (some p) peers h = (_, h, refl, refl)

if_self : {A : Type 0} (k : Text) (p q : A) → (if k == k then p else q) ≡ p
if_self k p q = let same : k ≡ k = refl in rw (if_pos _ same) refl

-- A token is decoded to its fields.
pub decode_token-invite :
    (x : External) (law : IsLawful x) (json : TokenJson) (node : Inviter) (config : Config)
    → ReadsTokens json
    → decode_token x json (invite x json node config) ≡ some (fields (token_of x node config))
unfolding decode_token invite
decode_token-invite x law json node config reads =
    let bytes = json.to_string (token_of x node config) in
    rw (law.trim-encode bytes, law.base64_decode-encode bytes) (reads (token_of x node config))

-- What a join with the token of a node has done.
module _ (x : External) (law : IsLawful x) (json : TokenJson) (reads : ReadsTokens json)
    (a b : Inviter) (ca cb : Config) (loaded : Option Config) (back : Text)
    (done : cmd_join x json b (invite x json a ca) loaded ≡ some (cb, back)) where
  join_done : (join x (fields (token_of x a ca)) loaded ≡ some cb) × (back ≡ invite x json b cb)
  unfolding cmd_join
  join_done =
      let (sent, decoded, h) =
        bind-some (decode_token x json (invite x json a ca)) _ (cb, back) done in
      let (config, merged, h') = bind-some (join x sent loaded) _ (cb, back) h in
      let same = some-injective _ _ h' in
      let fields_sent =
        some-injective _ _ (sym decoded ∙ decode_token-invite x law json a ca reads) in
      let config_same : config ≡ cb = ap (λ p. p.0) same in
      (
        ap (λ i. join x i loaded) (sym fields_sent) ∙ merged ∙ ap some config_same,
        sym (ap (λ p. p.1) same) ∙ ap (invite x json b) config_same,
      )

  pub joined_HasPeer :
      HasPeer
        (x.base64_encode a.keys.public)
        (public_endpoint a.public_ip ca)
        ca.network.address
        cb.peers
  unfolding token_of
  joined_HasPeer =
      let t = token_of x a ca in
      let old = entry_of t.pk (or_default loaded).peers in
      let name = derive_peer_name x (some t.hn) t.pk in
      entry_HasPeer t.pk t.ep t.ip name old cb.peers (
        join_entries x (fields t) loaded cb t.pk t.ep t.ip t.pk refl refl refl join_done.0
        ∙ if_self t.pk _ _)

-- A node that has an address of its own keeps it in a join, which succeeds.
address_kept :
    (x : External) (t : Token) (config : Config)
    → contains default_addresses config.network.address ≡ false
    → join x (fields t) (some config)
      ≡ some (joined x (fields t) t.pk t.ep t.ip config config.network.address)
unfolding join join_address
address_kept x t config own = rw (own, join, join_address) refl

-- An exchange of tokens links two nodes both ways: when the other node has joined with the token of
-- the inviter, the inviter's join with the reverse token succeeds and keeps its address; and then
-- the configuration of each has an entry of the other's key, with the address and the public
-- endpoint of the other. This is for an inviter whose address is none of the default ones.
pub exchange_links :
    (x : External) (law : IsLawful x) (json : TokenJson) (a b : Inviter) (ca cb : Config)
    (loaded : Option Config) (back : Text)
    → ReadsTokens json
    → contains default_addresses ca.network.address ≡ false
    → cmd_join x json b (invite x json a ca) loaded ≡ some (cb, back)
    → (ca' : Config) × (again : Text) × (cmd_join x json a back (some ca) ≡ some (ca', again))
      × (ca'.network.address ≡ ca.network.address)
      × HasPeer
          (x.base64_encode a.keys.public)
          (public_endpoint a.public_ip ca)
          ca'.network.address
          cb.peers
      × HasPeer
          (x.base64_encode b.keys.public)
          (public_endpoint b.public_ip cb)
          cb.network.address
          ca'.peers
unfolding cmd_join
exchange_links x law json a b ca cb loaded back reads own done =
    let t = token_of x b cb in
    let ca' = joined x (fields t) t.pk t.ep t.ip ca ca.network.address in
    let (merged, same) = join_done x law json reads a b ca cb loaded back done in
    let joins : cmd_join x json a (invite x json b cb) (some ca) ≡ some (ca', invite x json a ca') =
      rw (decode_token-invite x law json b cb reads, cmd_join, address_kept x t ca own) refl in
    (
      ca',
      invite x json a ca',
      ap (λ s. cmd_join x json a s (some ca)) same ∙ joins,
      refl,
      joined_HasPeer x law json reads a b ca cb loaded back done,
      joined_HasPeer x law json reads b a cb ca' (some ca) (invite x json a ca') joins,
    )

found_differs :
    (taken : Taken) (peer : Ipv4Addr) (last : ℕ)
    → is_free taken (candidate peer last) ≡ true
    → candidate peer last ≢ taken.current
unfolding is_free
found_differs taken peer last free same =
    let here : (candidate peer last == taken.current) ≡ true = rw (if_pos _ same) refl in
    ground (arith, here)

address_moved :
    (peer_ip address : Text) (config : Config)
    → contains default_addresses config.network.address ≡ true
    → join_address true peer_ip config ≡ some address
    → address ≢ config.network.address
unfolding join_address
address_moved peer_ip address config fresh h =
    let taken : Taken = record {
      peer_ip = peer_ip;
      used_ips = map (λ (p : PeerConfig). p.allowed_ip) config.peers;
      current = config.network.address;
    } in
    elim (Option-cases (parse_ipv4 peer_ip)) [
      | inl none_read ↦
          let e = rw (fresh, join_address, none_read) at h in absurd (none-ne-some _ e)
      | inr (peer, read) ↦ elim (next_octet_ends taken peer) [
        | inl gave_up ↦
            let e = rw (fresh, join_address, read, gave_up) at h in absurd (none-ne-some _ e)
        | inr (last, found, free) ↦
            let e = rw (fresh, join_address, read, found) at h in
            λ same. found_differs taken peer last free (some-injective _ _ e ∙ same)
      ]
    ]

-- But an inviter with a default address moves when it joins with the reverse token: it takes another
-- address, and the entry that the other node has for it keeps the old one.
pub default_inviter_moves :
    (x : External) (law : IsLawful x) (json : TokenJson) (a b : Inviter) (ca cb ca' : Config)
    (loaded : Option Config) (back again : Text)
    → ReadsTokens json
    → contains default_addresses ca.network.address ≡ true
    → cmd_join x json b (invite x json a ca) loaded ≡ some (cb, back)
    → cmd_join x json a back (some ca) ≡ some (ca', again)
    → (e : PeerConfig) × (entry_of (x.base64_encode a.keys.public) cb.peers ≡ some e)
      × (e.allowed_ip ≡ ca.network.address)
      × (ca'.network.address ≢ ca.network.address)
unfolding join
default_inviter_moves x law json a b ca cb ca' loaded back again reads fresh done returned =
    let t = token_of x b cb in
    let (merged, same) = join_done x law json reads a b ca cb loaded back done in
    let (e, has, there, old) = joined_HasPeer x law json reads a b ca cb loaded back done in
    let returned' = sym (ap (λ s. cmd_join x json a s (some ca)) same) ∙ returned in
    let (merged', same') = join_done x law json reads b a cb ca' (some ca) again returned' in
    let (address, chosen, made) = bind-some (join_address true t.ip ca) _ ca' merged' in
    (
      e,
      has,
      old,
      λ kept.
          address_moved t.ip address ca fresh chosen
            (ap (λ (c : Config). c.network.address) (some-injective _ _ made) ∙ kept),
    )
