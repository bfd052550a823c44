-- ===== src/Manager/Displaced.antt =====
-- What a migration of `update_from_discovery` leaves of a peer that held the new address.
use wolf_net.Shared.{sym}
use wolf_net.Shared.{◌≡◌, ◌≢◌, ◌∙◌, some, lookup-insert, lookup-insert_self, bytes_eq}
use mathlib.Core.Logic.{if_neg}
use wolf_net.Net.{Ipv4Addr, ip_eq}
use wolf_net.Peer.{Peer}
use wolf_net.Manager.{PeerManager, Announcement, migrate_peer, find_ip_by_id}
use wolf_net.Manager.Sticky.{peer_at}

-- The id of a peer that a migration drives from its address still leads to that address, where
-- the peer of another id now is.
pub migration_leaves_id :
    (a : Announcement) (old : Ipv4Addr) (peer displaced : Peer) (m : PeerManager)
    → peer_at a.wolfnet_ip m ≡ some displaced
    → find_ip_by_id displaced.id m ≡ some a.wolfnet_ip
    → displaced.id ≢ peer.id
    → (find_ip_by_id displaced.id (migrate_peer a old peer m) ≡ some a.wolfnet_ip)
      × (p : Peer) × (peer_at a.wolfnet_ip (migrate_peer a old peer m) ≡ some p)
      × (p.id ≢ displaced.id)
unfolding migrate_peer find_ip_by_id
migration_leaves_id a old peer displaced m here indexed other = (
  lookup-insert displaced.id peer.id a.wolfnet_ip m.id_to_ip ∙ rw (if_neg _ other) indexed,
  _,
  lookup-insert_self a.wolfnet_ip _ _,
  λ e. other (sym e),
)
