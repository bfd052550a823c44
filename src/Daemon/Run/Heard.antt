-- ===== src/Daemon/Run/Heard.antt =====
-- A broadcast of `run_discovery_broadcaster` at the `run_discovery_listener` of src/transport.rs.
use wolf_net.Shared.{
  ℕ, ◌≤◌, ◌≡◌, refl, true, Bool, if◌then◌else◌, ◌==◌, bytes_eq, length, take_all, ap, ◌∙◌, Option,
  none, some, false,
}
use mathlib.Core.Logic.{if_pos, if_neg}
use wolf_net.Shared.{◌≢◌, ◌⊎◌, inl, inr, NodupKeys}
use wolf_net.Manager.Announced.{Holds, expected_endpoint, update_from_discovery-Holds}
use wolf_net.Net.{Bytes, Text, Ipv4Addr, ip_eq, IsIpv4, SocketAddr, with_port}
use wolf_net.Net.Printed.{Lacks}
use wolf_net.External.{External, IsLawful}
use wolf_net.Manager.{Announcement, update_from_discovery}
use wolf_net.Transport.{format_discovery, discovery_announcement}
use wolf_net.Transport.Announcing.{announcement_heard}
use wolf_net.Daemon.{Node, World}
use wolf_net.Daemon.Run.{handle_discovery}

abbrev handled : External → Option Announcement → World → World
handled x o w = elim o [
  | none ↦ w
  | some a ↦ record w { manager = update_from_discovery x a w.manager }
]

broadcast_handled :
    (x : External) (law : IsLawful x) (node : Node) (node_id : Text) (key : Bytes) (ip : Ipv4Addr)
    (port : ℕ) (hostname : Text) (is_gateway : Bool) (src : SocketAddr) (w : World)
    → length key ≡ 32
    → IsIpv4 ip
    → port ≤ 65535
    → Lacks b'|' node_id
    → Lacks b'|' (x.base64_encode key)
    → Lacks b'|' hostname
    → length (format_discovery x node_id key ip port hostname is_gateway) ≤ 512
    → x.is_utf8 (format_discovery x node_id key ip port hostname is_gateway) ≡ true
    → handle_discovery x node (format_discovery x node_id key ip port hostname is_gateway) src w ≡ (
        if node_id == node.hostname then w else record w {
          manager =
              update_from_discovery x
                (record {
                  key = key;
                  source = with_port src port;
                  wolfnet_ip = ip;
                  hostname = hostname;
                  is_gateway = is_gateway;
                })
                w.manager;
        })
unfolding handle_discovery
broadcast_handled x law node node_id key ip port hostname is_gateway src w whole four small plain_id
      plain_key plain_name fits utf8 =
    let message = format_discovery x node_id key ip port hostname is_gateway in
    let heard =
      announcement_heard x law node_id key ip port hostname is_gateway whole four small plain_id
        plain_key plain_name node.hostname src utf8 in
    let result : Text → World = λ t. handled x (discovery_announcement x node.hostname t src) w in
    ap result (take_all 512 message fits)
    ∙ ap (λ o. handled x o w) heard
    ∙ entered _ (node_id == node.hostname)
  where
    entered :
        (a : Announcement) (b : Bool)
        → handled x (if b then none else some a) w
          ≡ (if b then w else record w { manager = update_from_discovery x a w.manager })
    entered a true = refl
    entered a false = refl

abbrev pub announced_by : SocketAddr → Bytes → Ipv4Addr → ℕ → Text → Bool → Announcement
announced_by src key ip port hostname is_gateway = record {
  key = key;
  source = with_port src port;
  wolfnet_ip = ip;
  hostname = hostname;
  is_gateway = is_gateway;
}

-- A node that hears the broadcast of another has a peer of its key at its address afterwards, with the
-- broadcast's name and role and without a relay. The endpoint of that peer is the broadcast's source
-- with the advertised port, unless that address held a peer of the key with a configured endpoint
-- before: then it is the one that this peer had. A broadcast of a node with the hearer's own name is
-- ignored. This is for a table whose addresses are distinct, and a message of UTF-8 that fits the
-- buffer of 512 bytes, with a key of 32 bytes, a `u16` port, and no bar in the names or in the text of
-- the key.
pub broadcast_is_heard :
    (x : External) (law : IsLawful x) (node : Node) (node_id : Text) (key : Bytes) (ip : Ipv4Addr)
    (port : ℕ) (hostname : Text) (is_gateway : Bool) (src : SocketAddr) (w : World)
    → length key ≡ 32
    → IsIpv4 ip
    → port ≤ 65535
    → Lacks b'|' node_id
    → Lacks b'|' (x.base64_encode key)
    → Lacks b'|' hostname
    → length (format_discovery x node_id key ip port hostname is_gateway) ≤ 512
    → x.is_utf8 (format_discovery x node_id key ip port hostname is_gateway) ≡ true
    → NodupKeys w.manager.peers_by_ip
    → let message = format_discovery x node_id key ip port hostname is_gateway in
      let after = handle_discovery x node message src w in
      let a = announced_by src key ip port hostname is_gateway in
      ((node_id ≡ node.hostname) × (after ≡ w))
      ⊎ ((node_id ≢ node.hostname) × Holds after.manager a (expected_endpoint w.manager a))
broadcast_is_heard x law node node_id key ip port hostname is_gateway src w whole four small
      plain_id plain_key plain_name fits utf8 unique =
    let message = format_discovery x node_id key ip port hostname is_gateway in
    let handled_so =
      broadcast_handled x law node node_id key ip port hostname is_gateway src w whole four small
        plain_id plain_key plain_name fits utf8 in
    let a = announced_by src key ip port hostname is_gateway in
    elim (bytes_eq.dec node_id node.hostname) [
      | yes own ↦ inl (own, handled_so ∙ rw (if_pos _ own) refl)
      | no foreign ↦
          let e : handle_discovery x node message src w
              ≡ record w { manager = update_from_discovery x a w.manager } =
            rw (handled_so, if_neg _ foreign) refl in
          inr (foreign, rw e (update_from_discovery-Holds x a w.manager unique))
    ]
