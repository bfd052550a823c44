-- ===== src/Daemon/Boot/Joined.antt =====
-- A fresh node that joins a network by a token and then boots, in src/main.rs.
use mathlib.Core.Option.{some-injective, none-ne-some}
use wolf_net.Shared.{
  ℕ, ◌≡◌, refl, ◌∙◌, sym, ap, subst, true, false, List, [], ◌∷◌, Option, none, some, length, lookup,
  lookup-insert_self, Option-cases, inl, inr, Bool-cases,
}
use wolf_net.Net.{Bytes, Text, Ipv4Addr, ip_eq, parse_ipv4}
use wolf_net.Net.Parsed.{bind-some}
use wolf_net.External.{External, IsLawful}
use wolf_net.Crypto.{KeyPair}
use wolf_net.Crypto.Direction.{session}
use wolf_net.Crypto.KeyFile.{load_or_generate}
use wolf_net.Crypto.KeyFile.Stable.{identity_is_stable}
use wolf_net.Transport.Announcing.{parse_public_key-encode}
use wolf_net.Peer.{Peer, new_peer, establish_session}
use wolf_net.Manager.{PeerManager, new_manager, add_peer}
use wolf_net.Config.{Config, PeerConfig, ip_addr, default_config}
use wolf_net.Config.Files.{Toml, Files, save_content, save}
use wolf_net.Config.Files.RoundTrip.{load-save, saved_primary}
use wolf_net.Config.Dedup.Best.{HasDistinctKeys}
use wolf_net.Config.Migration.{migrate}
use wolf_net.Routes.{load_routes, load_subnet_routes}
use wolf_net.Join.{join, join_address, merge_inviter, derive_peer_name}
use wolf_net.Join.Token.{
  Token, Inviter, TokenJson, ReadsTokens, token_of, invite, cmd_join, public_endpoint,
}
use wolf_net.Join.Token.Exchange.{fields, decode_token-invite}
use wolf_net.Cli.{Disk, Supply, Place, at, load_config, join_node}
use wolf_net.Daemon.Reload.{add_configured, configured_peer, peer_of_config}
use wolf_net.Daemon.{Node}
use wolf_net.Daemon.Run.{start}
use wolf_net.Daemon.Boot.{Host, Running, running, node_of, interface_of, bring_online, boot}
use wolf_net.Tun.Device.{configure}

-- The tables of routes are no part of the peer table.
load_routes-peers :
    (x : External) (file : Option Text) (m : PeerManager)
    → (load_routes x file m).peers_by_ip ≡ m.peers_by_ip
unfolding load_routes
load_routes-peers x none m = refl
load_routes-peers x (some content) m = elim (Option-cases (x.map_of_json content)) [
  | inl e ↦ rw (e, load_routes) refl
  | inr (map, e) ↦ rw (e, load_routes) refl
]

load_subnet_routes-peers :
    (x : External) (file : Option Text) (m : PeerManager)
    → (load_subnet_routes x file m).peers_by_ip ≡ m.peers_by_ip
unfolding load_subnet_routes
load_subnet_routes-peers x none m = refl
load_subnet_routes-peers x (some content) m = elim (Option-cases (x.map_of_json content)) [
  | inl e ↦ rw (e, load_subnet_routes) refl
  | inr (map, e) ↦ rw (e, load_subnet_routes) refl
]

-- The one entry of a configuration, in the table.
abbrev pub Knows : External → KeyPair → Text → Ipv4Addr → Bytes → PeerManager → Type 0
Knows x me endpoint ip key m =
    (p : Peer) × (lookup ip m.peers_by_ip ≡ some p)
    × (p.public_key ≡ key)
    × (p.cipher ≡ some (session x me key))
    × (p.configured_endpoint ≡ some endpoint)

one_configured :
    (x : External) (law : IsLawful x) (now : ℕ) (me : KeyPair) (key : Bytes) (ip : Ipv4Addr)
    (endpoint ip_text name : Text)
    → length key ≡ 32
    → parse_ipv4 ip_text ≡ some ip
    → let pc : PeerConfig = record {
      public_key = x.base64_encode key;
      endpoint = some endpoint;
      allowed_ip = ip_text;
      name = some name;
    } in
      Knows x me endpoint ip key (add_configured x now me (pc ∷ []) new_manager)
unfolding add_configured peer_of_config configured_peer add_peer new_peer establish_session
one_configured x law now me key ip endpoint ip_text name whole reads =
    rw (parse_public_key-encode x law key whole, add_configured, peer_of_config, reads)
      (_, lookup-insert_self ip _ new_manager.peers_by_ip, refl, refl, refl)

start_one :
    (x : External) (law : IsLawful x) (host : Host) (me : Node) (key : Bytes) (ip : Ipv4Addr)
    (endpoint ip_text name : Text) (peers : List PeerConfig)
    → length key ≡ 32
    → parse_ipv4 ip_text ≡ some ip
    → peers
      ≡ (record {
        public_key = x.base64_encode key;
        endpoint = some endpoint;
        allowed_ip = ip_text;
        name = some name;
      })
        ∷ []
    → Knows x me.keys endpoint ip key
        (start x me host.now peers host.routes host.send_buf).world.manager
unfolding start
start_one x law host me key ip endpoint ip_text name peers whole reads one =
    let m = add_configured x host.now me.keys peers new_manager in
    let same =
      load_subnet_routes-peers x host.routes.subnet_routes (load_routes x host.routes.routes m)
      ∙ load_routes-peers x host.routes.routes m in
    let (p, here, known, linked, pinned) =
      subst
        (λ ps. Knows x me.keys endpoint ip key (add_configured x host.now me.keys ps new_manager))
        (sym one)
        (one_configured x law host.now me.keys key ip endpoint ip_text name whole reads) in
    (p, ap (lookup ip) same ∙ here, known, linked, pinned)

-- The configuration of a node that had none.
join_fresh :
    (x : External) (t : Token) (config : Config)
    → join x (fields t) none ≡ some config
    → config.peers
      ≡ (record {
        public_key = t.pk;
        endpoint = some t.ep;
        allowed_ip = t.ip;
        name = some (derive_peer_name x (some t.hn) t.pk);
      })
        ∷ []
unfolding join merge_inviter
join_fresh x t config h =
    let (address, chosen, e) = bind-some (join_address false t.ip default_config) _ config h in
    sym (ap (λ (c : Config). c.peers) (some-injective _ _ e))

-- What a boot that succeeds has read.
Booted : External → Host → Config → KeyPair → Running → Type 0
Booted x host c keys r =
    (ip : Ipv4Addr) × (device : Text) × (ip_addr c ≡ some ip)
    × (running x host c ip keys device ≡ r)

bring_online-some :
    (x : External) (host : Host) (c : Config) (ip : Ipv4Addr) (keys : KeyPair) (r : Running)
    → bring_online x host c ip keys ≡ some r
    → (device : Text) × (running x host c ip keys device ≡ r)
unfolding bring_online
bring_online-some x host c ip keys r h = elim (Option-cases host.device) [
  | inl e ↦ let e' = rw (e, bring_online) at h in absurd (none-ne-some r e')
  | inr (device, e) ↦
      elim (Bool-cases (configure host.machine (interface_of c device) host.is_nm_wanted).1) [
        | inr f ↦ let e' = rw (e, f, bring_online) at h in absurd (none-ne-some r e')
        | inl up ↦ elim (Bool-cases host.is_bound) [
          | inr f ↦ let e' = rw (e, up, f, bring_online) at h in absurd (none-ne-some r e')
          | inl bound ↦
              let e' = rw (e, up, bound, bring_online) at h in (device, some-injective _ _ e')
        ]
      ]
]

boot-some :
    (x : External) (toml : Toml) (host : Host) (disk after : Disk) (c : Config) (files : Files)
    (keys : KeyPair) (file : Option Text) (r : Running)
    → load_config x toml disk.config ≡ (some c, files)
    → load_or_generate x host.supply.random host.supply.outcome disk.key ≡ (some keys, file)
    → boot x toml host disk ≡ (some r, after)
    → Booted x host c keys r
unfolding boot Booted
boot-some x toml host disk after c files keys file r loaded made h =
    elim (Option-cases (ip_addr c)) [
      | inl e ↦ let e' = rw (loaded, boot, e) at h in absurd (none-ne-some r (ap (λ t. t.0) e'))
      | inr (ip, e) ↦
          let e' = rw (loaded, boot, e, made) at h in
          let (device, same) = bring_online-some x host c ip keys r (ap (λ t. t.0) e') in
          (ip, device, e, same)
    ]

saved_loaded :
    (x : External) (toml : Toml) (config : Config) (content fixed : Text) (f : Files)
    → save_content x toml config ≡ some content
    → x.is_utf8 content ≡ true
    → migrate x content ≡ (fixed, false)
    → toml.from_str fixed ≡ some config
    → HasDistinctKeys config.peers
    → load_config x toml (save x toml config f) ≡ (some config, save x toml config f)
unfolding load_config
saved_loaded x toml config content fixed f written utf8 plain parsed distinct =
    let there = saved_primary x toml config content f written in
    rw there (load-save x toml config content fixed f written utf8 plain parsed distinct)

join_node_fresh :
    (x : External) (law : IsLawful x) (toml : Toml) (json : TokenJson) (a : Inviter)
    (ca config : Config) (sup : Supply) (place : Place) (disk : Disk) (keys : KeyPair)
    (file : Option Text) (content : Text)
    → ReadsTokens json
    → disk.config.primary ≡ none
    → load_or_generate x sup.random sup.outcome disk.key ≡ (some keys, file)
    → join x (fields (token_of x a ca)) none ≡ some config
    → save_content x toml config ≡ some content
    → join_node x toml json sup place (invite x json a ca) disk
      ≡ some (
        invite x json (at keys place) config,
        record { config = save x toml config disk.config; key = file },
      )
unfolding join_node cmd_join
join_node_fresh x law toml json a ca config sup place disk keys file content reads fresh made merged
      written =
    rw
      (made, fresh, join_node, decode_token-invite x law json a ca reads, cmd_join, merged, written)
      refl

-- A node without a configuration joins by a token, and boots. The join succeeds, and its reverse
-- token names the key and the address that the daemon then has: the daemon runs with the key pair of
-- the join, under the address that was saved, and its table has the inviter, under the address and
-- the key of the token, with a session of that key and the token's endpoint for the configured one.
-- This is for a join and a boot that meet no error of the system, an inviter with a key of 32 bytes
-- and a v4 address, and a `toml` that reads what it wrote, where the text has no line of the old form.
pub joined_node_boots :
    (x : External) (law : IsLawful x) (toml : Toml) (json : TokenJson) (a : Inviter)
    (ca config : Config) (sup : Supply) (place : Place) (disk after : Disk) (keys : KeyPair)
    (file : Option Text) (content fixed : Text) (ip : Ipv4Addr) (host : Host) (r : Running)
    → ReadsTokens json
    → length sup.random ≡ 32
    → length a.keys.public ≡ 32
    → parse_ipv4 ca.network.address ≡ some ip
    → disk.config.primary ≡ none
    → load_or_generate x sup.random sup.outcome disk.key ≡ (some keys, file)
    → join x (fields (token_of x a ca)) none ≡ some config
    → save_content x toml config ≡ some content
    → x.is_utf8 content ≡ true
    → migrate x content ≡ (fixed, false)
    → toml.from_str fixed ≡ some config
    → boot x toml host (record { config = save x toml config disk.config; key = file })
      ≡ (some r, after)
    → (join_node x toml json sup place (invite x json a ca) disk
        ≡ some (
          invite x json (at keys place) config,
          record { config = save x toml config disk.config; key = file },
        ))
      × (r.node.keys ≡ keys)
      × (parse_ipv4 config.network.address ≡ some r.node.wolfnet_ip)
      × Knows x keys (public_endpoint a.public_ip ca) ip a.keys.public r.state.world.manager
unfolding Booted ip_addr token_of
joined_node_boots x law toml json a ca config sup place disk after keys file content fixed ip host r
      reads random whole four fresh made merged written utf8 plain parsed boots =
    let t = token_of x a ca in
    let peers = join_fresh x t config merged in
    let loaded =
      saved_loaded x toml config content fixed disk.config written utf8 plain parsed
        (subst HasDistinctKeys (sym peers) (refl, tt)) in
    let (again, pair, full) =
      identity_is_stable x law sup.random host.supply.random sup.outcome host.supply.outcome
        disk.key keys random (ap (λ p. p.0) made) in
    let again' =
      subst (λ f. load_or_generate x host.supply.random host.supply.outcome f ≡ (some keys, f))
        (ap (λ p. p.1) made) again in
    let (own, device, here, same) =
      boot-some x toml host (record { config = save x toml config disk.config; key = file }) after
        config (save x toml config disk.config) keys file r loaded again' boots in
    let knows =
      start_one x law host (node_of host config own keys) a.keys.public ip t.ep t.ip
        (derive_peer_name x (some t.hn) t.pk) config.peers whole four peers in
    (
      join_node_fresh x law toml json a ca config sup place disk keys file content reads fresh made
          merged written,
      sym (ap (λ (q : Running). q.node.keys) same),
      subst (λ (q : Running). parse_ipv4 config.network.address ≡ some q.node.wolfnet_ip) same here,
      subst
          (λ (q : Running).
            Knows x keys (public_endpoint a.public_ip ca) ip a.keys.public q.state.world.manager)
          same knows,
    )
