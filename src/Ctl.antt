-- ===== src/Ctl.antt =====
-- What wolfnetctl (src/ctl/main.rs) says of the peers in the daemon's status. Only what a command
-- computes is here, not the layout of its lines.
pub mod Agreement
pub mod Lines
pub mod Program
pub mod Purge
use wolf_net.Shared.{
  ℕ, ◌+◌, ◌-◌, ◌/◌, ◌%◌, ◌^◌, Bool, true, false, not, ◌&&◌, ◌||◌, List, [], ◌∷◌, ◌++◌, map, Option,
  none, some, length, ltb, if◌then◌else◌, ◌==◌, nat_eq,
}
use wolf_net.Net.{Text, decimal}
use wolf_net.Status.{PeerStatus, max_u64}

-- `iter().filter(test).count()`
abbrev pub count {ℓ} : {A : Type ℓ} → (A → Bool) → List A → ℕ
count test [] = 0
count test (a ∷ rest) = let others = count test rest in if test a then 1 + others else others

-- `p.last_data_rx_secs != u64::MAX || p.data_flowing`
unfoldable pub reports_data_flow : PeerStatus → Bool
unfolding nat_eq
reports_data_flow p = not (p.last_data_rx_secs == max_u64) || p.data_flowing

-- `iter().any(..)`
unfoldable pub daemon_reports_data_flow : List PeerStatus → Bool
unfolding reports_data_flow
daemon_reports_data_flow [] = false
daemon_reports_data_flow (p ∷ ps) =
    let rest = daemon_reports_data_flow ps in reports_data_flow p || rest

abbrev pub is_handshake_only : PeerStatus → Bool
is_handshake_only p = p.connected && not p.data_flowing

-- The line on the peers: the counts of an older daemon, or the three of this one, after the number
-- of peers.
pub data Summary : Type 0 where
  two_state : ℕ → ℕ → Summary
  three_state : ℕ → ℕ → ℕ → ℕ → Summary

-- The `Peers:` line of `cmd_status`
unfoldable pub summary : List PeerStatus → Summary
unfolding daemon_reports_data_flow
summary ps =
    if not (daemon_reports_data_flow ps)
    then two_state (length ps) (count (λ (p : PeerStatus). p.connected) ps)
    else let passing_data = count (λ (p : PeerStatus). p.data_flowing) ps in
      let handshake_only = count is_handshake_only ps in
      three_state (length ps) passing_data handshake_only
        (length ps - passing_data - handshake_only)

-- The state that `cmd_peers` shows for a peer.
pub data Shown : Type 0 where
  online : Shown
  handshake_only : Shown
  via : Text → Shown
  offline : Shown

unfoldable pub shown : Bool → PeerStatus → Shown
shown reports p =
    if p.data_flowing
    then online
    else if p.connected && reports
    then handshake_only
    else if p.connected
    then online
    else elim p.relay_via [ none ↦ offline | some relay ↦ via relay ]

-- The states of the lines of `cmd_peers`, in order.
unfoldable pub shown_peers : List PeerStatus → List Shown
unfolding shown daemon_reports_data_flow
shown_peers ps = map (shown (daemon_reports_data_flow ps)) ps

-- `cmd_list_servers`: the active nodes and all nodes, with this one.
unfoldable pub server_counts : List PeerStatus → ℕ × ℕ
server_counts ps = (count (λ (p : PeerStatus). p.connected) ps + 1, length ps + 1)

-- The sums of the traffic wrap around at 64 bits, as in the release build.
unfoldable pub total : (PeerStatus → ℕ) → List PeerStatus → ℕ
total bytes [] = 0
total bytes (p ∷ ps) = (bytes p + total bytes ps) % 2 ^ 64

unfoldable pub format_duration : ℕ → Text
unfolding decimal
format_duration secs =
    if ltb secs 60
    then decimal secs ++ b's' ∷ []
    else if ltb secs 3600
    then decimal (secs / 60) ++ b'm' ∷ b' ' ∷ (decimal (secs % 60) ++ b's' ∷ [])
    else if ltb secs 86400
    then decimal (secs / 3600) ++ b'h' ∷ b' ' ∷ (decimal (secs % 3600 / 60) ++ b'm' ∷ [])
    else decimal (secs / 86400) ++ b'd' ∷ b' ' ∷ (decimal (secs % 86400 / 3600) ++ b'h' ∷ [])
