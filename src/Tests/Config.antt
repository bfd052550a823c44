-- ===== src/Tests/Config.antt =====
-- The theorems on the configuration of src/config.rs, on `cmd_join` of src/main.rs and on
-- wolfnetctl, applied. So are those on src/gateway.rs.
use wolf_net.Shared.{map}
use wolf_net.Shared.{
  take, replicate, ◌++◌, Bool, ℕ, ◌+◌, ◌≤◌, ◌<◌, ◌≡◌, ◌⊎◌, refl, arith, true, false, [], ◌∷◌, List,
  some, none, length, codes, if◌then◌else◌, ◌==◌, bytes_eq,
}
use wolf_net.External.Sample.{sample}
use wolf_net.Net.{Text, ipv4}
use wolf_net.Config.{Config, PeerConfig, default_config}
use wolf_net.Config.Dedup.{dedup}
use wolf_net.Config.Dedup.Collapse.{collapse, dedup-collapse}
use wolf_net.Config.Dedup.Best.{HasDistinctKeys, entry_of, best_entry_of, dedup_keeps_best}
use wolf_net.Config.Migration.{contains_text, starts_with}
use wolf_net.Config.Migration.{migrate}
use wolf_net.Config.Files.RoundTrip.{load-save}
use wolf_net.Config.Files.{
  load, save, Files, torn, save_content, save_ops, recover, copy_to_bak, rename_tmp, write_tmp,
  apply,
}
use wolf_net.Config.Files.Stop.{Stops, save_ops-Stops}
use wolf_net.Join.{Invite, Taken, candidate, is_free, next_octet, join, joined, derive_peer_name}
use wolf_net.Join.Address.{next_octet_ends, next_octet_finds}
use wolf_net.Join.Merge.{inviter_entry, join_entries}
use wolf_net.Tests.World.{sections, sample_toml}
use wolf_net.Gateway.{
  exited, System, external_interface, rules, append_rule, delete_rule, old_drop, sysctls,
  enable_gateway, disable_gateway,
}
use wolf_net.Gateway.Undo.{disable_deletes_rules}
use wolf_net.Status.{PeerStatus}
use wolf_net.Ctl.{count, is_handshake_only, summary, daemon_reports_data_flow, shown_peers}
use wolf_net.Ctl.Agreement.{tally, summary-shown_peers}

abbrev entry : Text → List ℕ → PeerConfig
entry key ip = record { public_key = key; endpoint = none; allowed_ip = ip; name = none }

-- Two entries of one key, of which the second has an endpoint, and a third with the address of the
-- first.
abbrev entries : List PeerConfig
entries =
    entry (codes "k") (codes "10.0.10.5")
    ∷ record (entry (codes "k") (codes "10.0.10.6")) { endpoint = some (codes "h:1") }
    ∷ entry (codes "l") (codes "10.0.10.5")
    ∷ []

dedup-collapse_example : dedup entries ≡ collapse entries []
dedup-collapse_example = dedup-collapse entries

dedup_keeps_best_example :
    HasDistinctKeys (dedup entries)
    × (entry_of (codes "k") (dedup entries) ≡ best_entry_of (codes "k") entries)
dedup_keeps_best_example = dedup_keeps_best entries (codes "k")

abbrev before : Files
before = record { primary = some (codes "old"); bak = none; tmp = none }

-- The copy to the backup stops after one byte.
abbrev after : Files
after = torn copy_to_bak 1 (apply (write_tmp sections) before)

saved : save_content sample sample_toml default_config ≡ some sections
unfolding save_content contains_text starts_with
saved = refl

stopped : Stops (save_ops sections before) before after
stopped =
    Stops.goes_on (write_tmp sections) (copy_to_bak ∷ rename_tmp ∷ []) before after
      (Stops.amid copy_to_bak (rename_tmp ∷ []) 1 (apply (write_tmp sections) before))

save_ops-Stops_example :
    (recover after ≡ after)
    × ((after.primary ≡ some (codes "old")) ⊎ (after.primary ≡ some sections))
save_ops-Stops_example =
    save_ops-Stops sample sample_toml default_config (codes "old") sections before after saved refl
      refl stopped

not_old : migrate sample sections ≡ (sections, false)
unfolding migrate
not_old = refl

load-save_example :
    load sample sample_toml (save sample sample_toml default_config before)
    ≡ (some default_config, save sample sample_toml default_config before)
load-save_example =
    load-save sample sample_toml default_config sections sections before saved refl not_old refl tt

abbrev taken : Taken
taken = record {
  peer_ip = codes "10.0.10.3";
  used_ips = codes "10.0.10.4" ∷ [];
  current = codes "10.0.10.1";
}

next_octet_ends_example :
    (next_octet taken (ipv4 10 0 10 3) ≡ some none)
    ⊎ ((a : ℕ) × (next_octet taken (ipv4 10 0 10 3) ≡ some (some a))
        × (is_free taken (candidate (ipv4 10 0 10 3) a) ≡ true))
next_octet_ends_example = next_octet_ends taken (ipv4 10 0 10 3)

next_octet_finds_example :
    (a : ℕ) × (next_octet taken (ipv4 10 0 10 3) ≡ some (some a))
    × (is_free taken (candidate (ipv4 10 0 10 3) a) ≡ true)
    × (3 < a)
    × (a ≤ 9)
unfolding is_free candidate
next_octet_finds_example =
    next_octet_finds taken (ipv4 10 0 10 3) 9 (omega arith) (omega arith) refl

abbrev invite : Invite
invite = record {
  pk = some (codes "k");
  ep = some (codes "h:2");
  ip = some (codes "10.0.10.3");
  sn = none;
  hn = none;
}

abbrev settled : Config
settled = record default_config {
  network = record default_config.network { address = codes "10.0.10.9" };
  peers = entries;
}

abbrev joined_config : Config
joined_config =
    joined sample invite (codes "k") (codes "h:2") (codes "10.0.10.3") settled (codes "10.0.10.9")

joins : join sample invite (some settled) ≡ some joined_config
unfolding join
joins = refl

join_entries_example : entry_of (codes "l") joined_config.peers ≡ (
    if codes "l" == codes "k"
    then some (
        inviter_entry
          (codes "k")
          (codes "h:2")
          (codes "10.0.10.3")
          (derive_peer_name sample none (codes "k"))
          (entry_of (codes "k") entries))
    else entry_of (codes "l") entries)
join_entries_example =
    join_entries sample invite (some settled) joined_config (codes "k") (codes "h:2")
      (codes "10.0.10.3") (codes "l") refl refl refl joins

abbrev pub peer_state : Bool → Bool → PeerStatus
peer_state connected flowing = record {
  hostname = [];
  address = codes "10.0.10.2";
  endpoint = codes "-";
  public_key = [];
  last_seen_secs = 3;
  rx_bytes = 0;
  tx_bytes = 0;
  connected = connected;
  is_gateway = false;
  relay_via = none;
  data_flowing = flowing;
  last_data_rx_secs = 3;
}

abbrev states : List PeerStatus
states = peer_state true true ∷ peer_state true false ∷ peer_state false false ∷ []

summary-shown_peers_example :
    (summary states ≡ tally (daemon_reports_data_flow states) (shown_peers states))
    × (count (λ (p : PeerStatus). p.data_flowing) states + count is_handshake_only states
        ≤ length states)
summary-shown_peers_example = summary-shown_peers states

-- Every command starts and succeeds.
abbrev willing : System
willing = λ tried c. exited true

abbrev default_route : List Text
default_route =
    codes "default" ∷ codes "via" ∷ codes "203.0.113.1" ∷ codes "dev" ∷ codes "eth0" ∷ []

on_eth0 : external_interface default_route ≡ some (codes "eth0")
unfolding external_interface bytes_eq
on_eth0 = refl

disable_deletes_rules_example :
    let old = delete_rule (old_drop (codes "eth0") (codes "10.0.10.0/24")) in
    let all = rules (codes "eth0") (codes "wolfnet0") (codes "10.0.10.0/24") in
    let enabled = enable_gateway willing default_route (codes "wolfnet0") (codes "10.0.10.0/24") in
    ((k : ℕ) × (j : ℕ) × (k ≤ 3)
      × (j ≤ 4)
      × (enabled.0
          ≡ sysctls (codes "wolfnet0") (codes "eth0")
            ++ (take k (map append_rule all) ++ replicate j old))
      × ((enabled.1 ≡ true) × (k ≡ 3) ⊎ (enabled.1 ≡ false)))
    × (disable_gateway default_route (codes "wolfnet0") (codes "10.0.10.0/24")
        ≡ map delete_rule all ++ old ∷ [])
disable_deletes_rules_example =
    disable_deletes_rules willing default_route b'e' (codes "th0") (codes "wolfnet0")
      (codes "10.0.10.0/24") on_eth0
