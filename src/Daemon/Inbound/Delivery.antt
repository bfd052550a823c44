-- ===== src/Daemon/Inbound/Delivery.antt =====
-- Which packets the inbound half of the event loop of src/main.rs writes to the TUN device.
use wolf_net.Shared.{
  ℕ, ◌≡◌, refl, ◌∙◌, ap, sym, ◌⊎◌, inl, inr, true, ◌||◌, Bool-cases, Option-cases, some, lookup,
  ◌==◌,
}
use mathlib.Core.Logic.{if_neg}
use wolf_net.Net.{Bytes, Ipv4Addr, ip_eq}
use wolf_net.External.{External}
use wolf_net.Manager.{PeerManager, with_peer_by_ip, find_route}
use wolf_net.Routes.{to_u32, find_subnet_match, first_match}
use wolf_net.Tun.{get_dest_ip}
use wolf_net.Daemon.{Node, World, send_to_peer}
use wolf_net.Daemon.Outbound.{is_broadcast}
use wolf_net.Daemon.Inbound.{route_onward, forward, hand_over}

-- A send to a peer leaves these as they are.
abbrev SameRoutes : World → World → Type 0
SameRoutes w' w =
    (w'.delivered ≡ w.delivered)
    × (w'.manager.subnet_routes ≡ w.manager.subnet_routes)
    × (w'.manager.subnet_routes_cidrs ≡ w.manager.subnet_routes_cidrs)

send_to_peer-SameRoutes :
    (x : External) (node : Node) (now : ℕ) (packet : Bytes) (ip : Ipv4Addr) (w : World)
    → SameRoutes (send_to_peer x node now packet ip w).0 w
unfolding send_to_peer
send_to_peer-SameRoutes x node now packet ip w =
    elim (Option-cases (lookup ip w.manager.peers_by_ip)) [
      | inl e ↦ rw (e, send_to_peer, with_peer_by_ip) (refl, refl, refl)
      | inr (p, e) ↦
          rw (e, send_to_peer, with_peer_by_ip)
            (refl, rw (e, with_peer_by_ip) refl, rw (e, with_peer_by_ip) refl)
    ]

-- A destination whose packets end at this node.
abbrev pub IsOwn : Node → PeerManager → Ipv4Addr → Type 0
IsOwn node m dest =
    ((dest == node.wolfnet_ip || is_broadcast node.wolfnet_ip dest) ≡ true)
    ⊎ (find_route dest m ≡ some node.wolfnet_ip)
    ⊎ (find_subnet_match dest m ≡ some node.wolfnet_ip)

hand_over_cases :
    (x : External) (node : Node) (now : ℕ) (plaintext : Bytes) (next : Ipv4Addr) (w : World)
    → ((hand_over x node now plaintext next w).delivered ≡ w.delivered) ⊎ (next ≡ node.wolfnet_ip)
hand_over_cases x node now plaintext next w = elim (ip_eq.dec next node.wolfnet_ip) [
  | yes own ↦ inr own
  | no far ↦ inl (rw (if_neg _ far) (send_to_peer-SameRoutes x node now plaintext next w).0)
]

route_onward_cases :
    (x : External) (node : Node) (now : ℕ) (plaintext : Bytes) (dest : Ipv4Addr) (w : World)
    → ((route_onward x node now plaintext dest w).delivered ≡ w.delivered)
      ⊎ (find_route dest w.manager ≡ some node.wolfnet_ip)
      ⊎ (find_subnet_match dest w.manager ≡ some node.wolfnet_ip)
unfolding route_onward
route_onward_cases x node now plaintext dest w = elim (Option-cases (find_route dest w.manager)) [
  | inr (host, e) ↦ elim (hand_over_cases x node now plaintext host w) [
    | inl quiet ↦ inl (rw (e, route_onward) quiet)
    | inr own ↦ inr (inl (e ∙ ap some own))
  ]
  | inl e ↦ elim (Option-cases (find_subnet_match dest w.manager)) [
    | inl f ↦ inl (rw (e, f, route_onward) refl)
    | inr (gw, f) ↦ elim (hand_over_cases x node now plaintext gw w) [
      | inl quiet ↦ inl (rw (e, f, route_onward) quiet)
      | inr own ↦ inr (inr (f ∙ ap some own))
    ]
  ]
]

-- A decrypted v4 packet is written to the TUN device only if its destination is this node or a
-- broadcast, or its container route, or its CIDR route, has this node for the next hop. Any other
-- packet is not written back.
pub forward_delivers :
    (x : External) (node : Node) (now : ℕ) (plaintext : Bytes) (w : World) (dest : Ipv4Addr)
    → get_dest_ip plaintext ≡ some dest
    → ((forward x node now plaintext w).delivered ≡ w.delivered) ⊎ IsOwn node w.manager dest
unfolding forward find_route find_subnet_match
forward_delivers x node now plaintext w dest h =
    let (w', sent) = send_to_peer x node now plaintext dest w in
    let (quiet, same, same_cidrs) = send_to_peer-SameRoutes x node now plaintext dest w in
    elim (Bool-cases (dest == node.wolfnet_ip || is_broadcast node.wolfnet_ip dest)) [
      | inl own ↦ inr (inl own)
      | inr far ↦ elim (Bool-cases sent) [
        | inl gone ↦ inl (rw (h, forward, far, gone) quiet)
        | inr kept ↦ elim (route_onward_cases x node now plaintext dest w') [
          | inl dropped ↦ inl (rw (h, forward, far, kept) (dropped ∙ quiet))
          | inr (inl own) ↦ inr (inr (inl (sym (ap (lookup dest) same) ∙ own)))
          | inr (inr own) ↦
              inr (inr (inr (sym (ap (first_match 32 to_u32 (to_u32 dest)) same_cidrs) ∙ own)))
        ]
      ]
    ]
