-- ===== src/Tests/Manager.antt =====
-- The theorems on the peer table of src/peer.rs, its routes and its peer exchange, applied.
use wolf_net.Tests.World.{id}
use wolf_net.Pex.{accept_entry}
use wolf_net.Pex.{add_pex_entry}
use wolf_net.Shared.{sym, subst, Eq, sym}
use wolf_net.Shared.{◌≡◌, refl, ap, arith, true, false, [], ◌∷◌, some, none, lookup, NodupKeys}
use mathlib.Core.Logic.{if_pos, if_neg}
use mathlib.Core.Option.{some-injective}
use wolf_net.External.Sample.{sample, sample-IsLawful, sample_gateway}
use wolf_net.External.{PexEntry}
use wolf_net.Net.{Text, Ipv4Addr, Ipv6Addr, ip_eq, ipv4}
use wolf_net.Crypto.{peer_id}
use wolf_net.Peer.{Peer}
use wolf_net.Manager.{Announcement, update_from_discovery, contains, migrate_peer}
use wolf_net.Manager.Index.{IsIndexed}
use wolf_net.Manager.Migration.{NoCollision, update_from_discovery-IsIndexed}
use wolf_net.Manager.Sticky.{peer_at}
use wolf_net.Manager.Endpoints.{IsSound}
use wolf_net.Pex.{add_from_pex, same_subnet, is_settled, learned_peer}
use wolf_net.Shared.{◌⊎◌, inl, true}
use wolf_net.Pex.Known.{settled_untouched}
use wolf_net.Pex.Admission.{newcomer_is_admitted, IsLearned}
use wolf_net.Routes.{
  to_u32, to_u128, find_subnet_match, find_subnet_match_v6, load_subnet_routes, parse_routes,
}
use wolf_net.Routes.Longest.{IsNextHop}
use wolf_net.Routes.Reload.{routing_after_reload, v6_routing_after_reload}
use wolf_net.Tests.World.{address, key, keys, home, friend, table, hello}
use wolf_net.Shared.{bytes_eq, insert}
use wolf_net.Net.{parse_ipv4, ipv4_of_parts, socket_eq}
use wolf_net.Pex.{is_barred, is_elsewhere, add_pex_entry, accept_entry}
use wolf_net.Crypto.{parse_public_key}
use wolf_net.Manager.{find_peer}
use wolf_net.Peer.{is_connected}
use wolf_net.Shared.{◌≢◌, codes, replicate}
use wolf_net.Manager.{find_ip_by_id}
use wolf_net.Manager.Displaced.{migration_leaves_id}

-- A map of one entry finds nothing else.
one_entry :
    {K V : Type 0} ⦃e : Eq K⦄ (k j : K) (v w : V)
    → lookup k ((j, w) ∷ []) ≡ some v
    → (k ≡ j) × (w ≡ v)
unfolding lookup
one_entry ⦃e⦄ k j v w h = elim (e.dec k j) [
  | yes same ↦
      let found : some w ≡ some v = rw (if_pos _ same) at h in (same, some-injective _ _ found)
  | no apart ↦ let missed : none ≡ some v = rw (if_neg _ apart) at h in absurd (ground arith)
]

table-IsIndexed : IsIndexed sample (table friend)
unfolding lookup peer_id bytes_eq
table-IsIndexed ip p h =
    let (at, is) = one_entry ip (address 2) p friend h in
    subst
      (λ q.
        (q.wolfnet_ip ≡ ip)
        × (q.id ≡ peer_id sample q.public_key)
        × (lookup q.id (table friend).id_to_ip ≡ some ip))
      is (sym at, refl, rw at refl)

table-NoCollision : NoCollision sample (table friend) hello.key
table-NoCollision ip q h e =
    ap (λ (r : Peer). r.public_key) (sym (one_entry ip (address 2) q friend h).1)

table-NodupKeys : NodupKeys (table friend).peers_by_ip
unfolding lookup
table-NodupKeys = (refl, tt)

table-IsSound : IsSound (table friend)
unfolding lookup ip_eq
table-IsSound ep ip h =
    let (at, is) = one_entry ep home ip (address 2) h in rw at (rw (sym is) refl)

update_from_discovery-IsIndexed_example :
    IsIndexed sample (update_from_discovery sample hello (table friend))
update_from_discovery-IsIndexed_example =
    update_from_discovery-IsIndexed sample (table friend) hello table-IsIndexed table-NodupKeys
      table-NoCollision

found_friend : peer_at (address 2) (table friend) ≡ some friend
unfolding lookup ip_eq
found_friend = refl

abbrev newcomer : PexEntry
newcomer = record {
  public_key = key 3;
  wolfnet_ip = b'1' ∷ b'0' ∷ b'.' ∷ b'0' ∷ b'.' ∷ b'0' ∷ b'.' ∷ b'3' ∷ [];
  endpoint = none;
  hostname = [];
  is_gateway = false;
}

abbrev stolen : PexEntry
stolen = record newcomer { wolfnet_ip = b'1' ∷ b'0' ∷ b'.' ∷ b'0' ∷ b'.' ∷ b'0' ∷ b'.' ∷ b'2' ∷ [] }

connected : (is_connected 5 friend ≡ true) ⊎ (friend.relay_via ≡ none)
unfolding is_connected
connected = inl refl

settled_untouched_example :
    lookup
      (address 2)
      (add_from_pex sample 5
        (newcomer ∷ stolen ∷ [])
        (address 4)
        (address 1)
        (keys 1)
        (table friend)).peers_by_ip
    ≡ some friend
settled_untouched_example =
    settled_untouched sample 5 (newcomer ∷ stolen ∷ []) (address 4) (address 1) (keys 1)
      (table friend) (address 2) friend found_friend connected

abbrev learned : Peer
learned = learned_peer sample 5 (address 2) (keys 1) newcomer (address 3) (key 3)

free_before : lookup (address 3) (table friend).peers_by_ip ≡ none
unfolding lookup ip_eq
free_before = refl

taken_after :
    lookup
      (address 3)
      (add_from_pex sample 5
        (newcomer ∷ [])
        (address 2)
        (address 1)
        (keys 1)
        (table friend)).peers_by_ip
    ≡ some learned
unfolding lookup add_from_pex add_pex_entry accept_entry parse_ipv4 ipv4_of_parts is_barred ip_eq
    contains same_subnet is_settled parse_public_key is_elsewhere find_peer bytes_eq insert
taken_after = refl

newcomer_is_admitted_example :
    (¬ (address 3 ≡ address 1))
    × (contains (table friend).purged_ips (address 3) ≡ false)
    × (((address 3).a ≡ (address 1).a)
        × ((address 3).b ≡ (address 1).b)
        × ((address 3).c ≡ (address 1).c))
    × IsLearned sample (address 2) (address 3) learned
newcomer_is_admitted_example =
    newcomer_is_admitted sample 5 (newcomer ∷ []) (address 2) (address 1) (keys 1) (table friend)
      (address 3) learned free_before taken_after

abbrev route_file : Text
route_file = b'1' ∷ b'0' ∷ b'.' ∷ b'1' ∷ b'.' ∷ b'0' ∷ b'.' ∷ b'0' ∷ b'/' ∷ b'1' ∷ b'6' ∷ []

abbrev inside : Ipv4Addr
inside = ipv4 10 1 2 3

routing_after_reload_example :
    IsNextHop 32 to_u32
      (to_u32 inside)
      (parse_routes sample ((route_file, sample_gateway) ∷ [])).0
      (find_subnet_match inside (load_subnet_routes sample (some route_file) (table friend)))
routing_after_reload_example =
    routing_after_reload sample (table friend) inside route_file ((route_file, sample_gateway) ∷ [])
      (omega arith, omega arith, omega arith, omega arith) refl

abbrev v6_route_file : Text
v6_route_file = codes "fd00::/8"

abbrev inside_v6 : Ipv6Addr
inside_v6 = 253 ∷ 1 ∷ replicate 14 0

v6_routing_after_reload_example :
    IsNextHop 128 to_u128
      (to_u128 inside_v6)
      (parse_routes sample ((v6_route_file, sample_gateway) ∷ [])).1
      (find_subnet_match_v6 inside_v6
        (load_subnet_routes sample (some v6_route_file) (table friend)))
v6_routing_after_reload_example =
    v6_routing_after_reload sample sample-IsLawful (table friend) inside_v6 v6_route_file
      ((v6_route_file, sample_gateway) ∷ []) (omega arith) refl

-- A peer of another key, which moves to the address of the first.
abbrev mover : Peer
mover = record friend { public_key = key 3; id = id 3; wolfnet_ip = address 3 }

abbrev claim : Announcement
claim = record hello { key = key 3 }

indexed_friend : find_ip_by_id (id 2) (table friend) ≡ some (address 2)
unfolding find_ip_by_id lookup bytes_eq
indexed_friend = refl

migration_leaves_id_example :
    (find_ip_by_id (id 2) (migrate_peer claim (address 3) mover (table friend)) ≡ some (address 2))
    × (p : Peer) × (peer_at (address 2) (migrate_peer claim (address 3) mover (table friend))
        ≡ some p)
    × (p.id ≢ id 2)
migration_leaves_id_example =
    migration_leaves_id claim (address 3) mover friend (table friend) found_friend indexed_friend
      (λ e. ground arith)
