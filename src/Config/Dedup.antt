-- ===== src/Config/Dedup.antt =====
-- The collapse of `[[peers]]` entries of one key in `Config::load` of src/config.rs: a list and an
-- index from each key to its place in the list.
pub mod Collapse
pub mod Best
pub mod Distinct
use wolf_net.Shared.{
  ℕ, get_elem?, set, Bool, not, ◌&&◌, List, [], ◌∷◌, ◌++◌, Option, none, some, if◌then◌else◌,
  length, bytes_eq, Dict, lookup, insert,
}
use wolf_net.Net.{Text}
use wolf_net.Peer.{is_some}
use wolf_net.Config.{PeerConfig}

-- `kept[i].endpoint.is_none() && peer.endpoint.is_some()`
abbrev pub is_better : PeerConfig → PeerConfig → Bool
is_better peer kept = not (is_some kept.endpoint) && is_some peer.endpoint

-- One turn of the loop. An index out of range, which would stop the program, changes nothing here.
unfoldable pub keep_peer :
    PeerConfig → List PeerConfig × Dict Text ℕ → List PeerConfig × Dict Text ℕ
unfolding get_elem? set
keep_peer peer (kept, idx_by_key) = elim (lookup peer.public_key idx_by_key) [
  | some i ↦ elim (get_elem? kept i) [
    | none ↦ (kept, idx_by_key)
    | some old ↦ (if is_better peer old then set kept i peer else kept, idx_by_key)
  ]
  | none ↦ (kept ++ peer ∷ [], insert peer.public_key (length kept) idx_by_key)
]

unfoldable pub keep_peers :
    List PeerConfig → List PeerConfig × Dict Text ℕ → List PeerConfig × Dict Text ℕ
unfolding keep_peer
keep_peers [] s = s
keep_peers (peer ∷ peers) s = keep_peers peers (keep_peer peer s)

unfoldable pub dedup : List PeerConfig → List PeerConfig
unfolding keep_peers
dedup peers = (keep_peers peers ([], [])).0
