-- ===== src/Ctl/Lines/Counted.antt =====
-- The counts of `cmd_list_servers` of src/ctl/main.rs against its lines.
use wolf_net.Shared.{
  ℕ, ◌≡◌, refl, ap, arith, suc, Bool, List, [], ◌∷◌, map, length, take, ◌==◌, bytes_eq, Bool-cases,
  inl, inr,
}
use wolf_net.Status.{PeerStatus}
use wolf_net.Ctl.{count, server_counts}
use wolf_net.Ctl.Lines.{NodeStatus, ServerLine, full_mark, server_lines, peer_line}

-- The line starts with the full mark.
unfoldable pub is_active : ServerLine → Bool
unfolding bytes_eq
is_active l = take 3 l.name == full_mark

peer_line-is_active : (port : ℕ) (p : PeerStatus) → is_active (peer_line port p) ≡ p.connected
unfolding is_active
peer_line-is_active port p = elim (Bool-cases p.connected) [ inl e ↦ rw e refl | inr e ↦ rw e refl ]

count_lines :
    (port : ℕ) (ps : List PeerStatus)
    → count is_active (map (peer_line port) ps) ≡ count (λ (p : PeerStatus). p.connected) ps
count_lines port [] = refl
count_lines port (p ∷ ps) = rw (peer_line-is_active port p, count_lines port ps) refl

length_lines : (port : ℕ) (ps : List PeerStatus) → length (map (peer_line port) ps) ≡ length ps
length_lines port [] = refl
length_lines port (p ∷ ps) = ap suc (length_lines port ps)

-- The `Nodes` line counts what the list shows: as many active nodes as lines with the full mark, and
-- as many nodes as lines, where this node is one of both.
pub server_counts-server_lines :
    (s : NodeStatus)
    → server_counts s.peers ≡ (count is_active (server_lines s), length (server_lines s))
unfolding server_counts server_lines is_active
server_counts-server_lines s =
    rw (count_lines s.listen_port s.peers, length_lines s.listen_port s.peers) (ground arith)
