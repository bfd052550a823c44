-- ===== src/Pex/Health.antt =====
-- Peer exchange of src/peer.rs on a table of healthy peers.
use wolf_net.Shared.{ℕ, Bool-cases, some, Option-cases, inl, inr, List, [], ◌∷◌, lookup}
use wolf_net.Net.{Bytes, Ipv4Addr, ip_eq}
use wolf_net.External.{External, PexEntry}
use wolf_net.Crypto.{KeyPair}
use wolf_net.Peer.{Peer, new_peer, is_connected}
use wolf_net.Peer.Health.{IsHealthy, new_peer-IsHealthy, establish_session-IsHealthy}
use wolf_net.Manager.{PeerManager}
use wolf_net.Manager.Health.{AreHealthy, put-AreHealthy}
use wolf_net.Pex.{learned_endpoint, accept_entry, add_pex_entry, add_from_pex, learned_peer}
use wolf_net.Pex.Known.{entry_cases}

module _ (x : External) (me : KeyPair) (now : ℕ) where
  learned_peer-IsHealthy :
      (sender : Ipv4Addr) (entry : PexEntry) (ip : Ipv4Addr) (key : Bytes)
      → IsHealthy x me now ip (learned_peer x now sender me entry ip key)
  unfolding learned_peer
  learned_peer-IsHealthy sender entry ip key =
      let p : Peer = record (new_peer x key ip) {
        hostname = entry.hostname;
        is_gateway = entry.is_gateway;
        relay_via = some sender;
        endpoint = learned_endpoint x entry;
      } in
      establish_session-IsHealthy x me now ip p (new_peer-IsHealthy x me now ip key)

  accept_entry-AreHealthy :
      (sender : Ipv4Addr) (entry : PexEntry) (ip : Ipv4Addr) (key : Bytes) (m : PeerManager)
      → AreHealthy x me now m
      → AreHealthy x me now (accept_entry x now sender me entry ip key m)
  unfolding accept_entry
  accept_entry-AreHealthy sender entry ip key m all =
      elim (Option-cases (lookup ip m.peers_by_ip)) [
        | inr (p, e) ↦ elim (Bool-cases (is_connected now p)) [
          | inl on ↦ rw (e, on, accept_entry) all
          | inr off ↦
              rw (e, off, accept_entry)
                (put-AreHealthy x me now m.peers_by_ip ip _ all (all.1 ip p e))
        ]
        | inl e ↦
            rw (e, accept_entry)
              (put-AreHealthy x me now m.peers_by_ip ip _ all
                (learned_peer-IsHealthy sender entry ip key))
      ]

  pub add_from_pex-AreHealthy :
      (entries : List PexEntry) (sender my_ip : Ipv4Addr) (m : PeerManager)
      → AreHealthy x me now m
      → AreHealthy x me now (add_from_pex x now entries sender my_ip me m)
  unfolding add_from_pex
  add_from_pex-AreHealthy [] sender my_ip m all = all
  add_from_pex-AreHealthy (entry ∷ entries) sender my_ip m all =
      add_from_pex-AreHealthy entries sender my_ip (add_pex_entry x now sender my_ip me entry m) (
        entry_cases (AreHealthy x me now) x now sender my_ip me entry m all
          (λ ip key clear free. accept_entry-AreHealthy sender entry ip key m all))
