-- ===== src/Ctl/Agreement.antt =====
-- The commands of src/ctl/main.rs agree with each other on the peers.
use wolf_net.Ctl.{shown_peers}
use wolf_net.Ctl.{ℕ}
use wolf_net.Ctl.{summary}
use wolf_net.Ctl.{daemon_reports_data_flow}
use wolf_net.Shared.{
  if◌then◌else◌, ◌+◌, ◌≤◌, ◌∙◌, sym, arith, suc, ◌≡◌, refl, ap, arith, inl, inr, Option-cases, Bool,
  Bool-cases, true, false, not, ◌&&◌, ◌||◌, List, [], ◌∷◌, map, length,
}
use wolf_net.Status.{PeerStatus}
use wolf_net.Ctl.{
  count, reports_data_flow, is_handshake_only, Summary, two_state, three_state, Shown, online,
  handshake_only, via, offline, shown,
}

abbrev pub is_online : Shown → Bool
is_online online = true
is_online _ = false

abbrev pub is_partial : Shown → Bool
is_partial handshake_only = true
is_partial _ = false

abbrev pub is_off : Shown → Bool
is_off (via relay) = true
is_off offline = true
is_off _ = false

-- The summary that the lines of the peers add up to.
abbrev pub tally : Bool → List Shown → Summary
tally false lines = two_state (length lines) (count is_online lines)
tally true lines =
    three_state (length lines) (count is_online lines) (count is_partial lines) (count is_off lines)

length-map-shown : (b : Bool) (ps : List PeerStatus) → length (map (shown b) ps) ≡ length ps
length-map-shown b [] = refl
length-map-shown b (p ∷ ps) = ap suc (length-map-shown b ps)

and_false : (b : Bool) → false ≡ (b && false)
and_false true = refl
and_false false = refl

-- What one line counts for, with a daemon that reports the flow.
line_with_flow :
    (p : PeerStatus)
    → (is_online (shown true p) ≡ p.data_flowing)
      × (is_partial (shown true p) ≡ is_handshake_only p)
      × (is_off (shown true p) ≡ not (p.data_flowing || is_handshake_only p))
unfolding shown
line_with_flow p = elim (Bool-cases p.data_flowing) [
  | inl flows ↦ rw flows (refl, and_false p.connected, refl)
  | inr dry ↦ elim (Bool-cases p.connected) [
    | inl on ↦ rw (dry, on) (refl, refl, refl)
    | inr off ↦ elim (Option-cases p.relay_via) [
      | inl e ↦ rw (dry, off, e) (refl, refl, refl)
      | inr (relay, e) ↦ rw (dry, off, e) (refl, refl, refl)
    ]
  ]
]

-- And with one that does not.
line_without_flow :
    (p : PeerStatus) → reports_data_flow p ≡ false → is_online (shown false p) ≡ p.connected
unfolding shown reports_data_flow
line_without_flow p h = elim (Bool-cases p.data_flowing) [
  | inl flows ↦ absurd (ground arith)
  | inr dry ↦ elim (Bool-cases p.connected) [
    | inl on ↦ rw (dry, on) refl
    | inr off ↦ elim (Option-cases p.relay_via) [
      | inl e ↦ rw (dry, off, e) refl
      | inr (relay, e) ↦ rw (dry, off, e) refl
    ]
  ]
]

count-map :
    (f : Shown → Bool) (g : PeerStatus → Shown) (h : PeerStatus → Bool) (ps : List PeerStatus)
    → ((p : PeerStatus) → f (g p) ≡ h p)
    → count f (map g ps) ≡ count h ps
count-map f g h [] same = refl
count-map f g h (p ∷ ps) same =
    rw (same p) (ap (λ n. if h p then 1 + n else n) (count-map f g h ps same))

abbrev is_passing : PeerStatus → Bool
is_passing p = p.data_flowing

abbrev is_neither : PeerStatus → Bool
is_neither p = not (p.data_flowing || is_handshake_only p)

-- Every peer is in just one of the three groups.
three_groups :
    (ps : List PeerStatus)
    → count is_passing ps + count is_handshake_only ps + count is_neither ps ≡ length ps
three_groups [] = refl
three_groups (p ∷ ps) = elim (Bool-cases p.data_flowing) [
  | inl flows ↦ elim (Bool-cases p.connected) [
    | inl on ↦ rw (flows, on) (omega (arith, three_groups ps))
    | inr off ↦ rw (flows, off) (omega (arith, three_groups ps))
  ]
  | inr dry ↦ elim (Bool-cases p.connected) [
    | inl on ↦ rw (dry, on) (omega (arith, three_groups ps))
    | inr off ↦ rw (dry, off) (omega (arith, three_groups ps))
  ]
]

-- With an older daemon, no peer reports the flow.
none_reports :
    (p : PeerStatus) (ps : List PeerStatus)
    → daemon_reports_data_flow (p ∷ ps) ≡ false
    → (reports_data_flow p ≡ false) × (daemon_reports_data_flow ps ≡ false)
unfolding daemon_reports_data_flow
none_reports p ps h = elim (Bool-cases (reports_data_flow p)) [
  | inl r ↦ absurd (ground arith)
  | inr r ↦ (r, rw r at h)
]

legacy_online :
    (ps : List PeerStatus)
    → daemon_reports_data_flow ps ≡ false
    → count is_online (map (shown false) ps) ≡ count (λ (p : PeerStatus). p.connected) ps
legacy_online [] h = refl
legacy_online (p ∷ ps) h =
    let (here, rest) = none_reports p ps h in
    rw (line_without_flow p here)
      (ap (λ n. if p.connected then 1 + n else n) (legacy_online ps rest))

three_equal :
    {t t' a a' b b' c c' : ℕ}
    → t ≡ t'
    → a ≡ a'
    → b ≡ b'
    → c ≡ c'
    → three_state t a b c ≡ three_state t' a' b' c'
three_equal ht ha hb hc = rw (ht, ha, hb, hc) refl

-- The `Peers:` line of the status is what the lines of the peers add up to, with a daemon that
-- reports the flow of data and with an older one; and the subtraction in it does not go below
-- zero: the peers with data and those with handshakes only are together at most all peers.
pub summary-shown_peers :
    (ps : List PeerStatus)
    → (summary ps ≡ tally (daemon_reports_data_flow ps) (shown_peers ps))
      × (count (λ (p : PeerStatus). p.data_flowing) ps + count is_handshake_only ps ≤ length ps)
unfolding summary shown_peers
summary-shown_peers ps = (agreed, omega (arith, three_groups ps))
  where
    agreed : summary ps ≡ tally (daemon_reports_data_flow ps) (shown_peers ps)
    agreed = elim (Bool-cases (daemon_reports_data_flow ps)) [
      | inr old ↦ rw (old, length-map-shown false ps, legacy_online ps old) refl
      | inl new ↦ rw new (
          three_equal (sym (length-map-shown true ps))
            (sym (count-map is_online (shown true) is_passing ps (λ p. (line_with_flow p).0)))
            (sym
              (count-map is_partial (shown true) is_handshake_only ps (λ p. (line_with_flow p).1)))
            (omega (arith, three_groups ps)
              ∙ sym (count-map is_off (shown true) is_neither ps (λ p. (line_with_flow p).2))))
    ]
