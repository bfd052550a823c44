-- ===== src/Tun/Device/Configured.antt =====
-- The outcomes of `TunDevice::configure` of src/tun.rs.
use wolf_net.Shared.{
  ◌≡◌, ◌⊎◌, inl, inr, refl, Bool, true, false, List, [], ◌∷◌, ◌++◌, take, Bool-cases,
}
use mathlib.Core.List.{append_assoc}
use wolf_net.Gateway.{Exit, not_started, exited}
use wolf_net.Tun.Device.{
  Step, run, Machine, Interface, add_address, set_mtu, bring_up, quiet_steps, find_tailscale,
  check_rule, insert_rule, succeeds, block_tailscale, configure,
}

-- The commands that a failure ends.
abbrev pub vital : Interface → List Step
vital i = run (add_address i) ∷ run (set_mtu i) ∷ run (bring_up i) ∷ []

-- What the last steps are: the rule is inserted where Tailscale runs and the rule is not there.
abbrev pub Blocks : Machine → Interface → List Step → List Step → Type 0
Blocks sys i taken last =
    let looked = taken ++ run find_tailscale ∷ [] in
    ((succeeds (sys taken find_tailscale) ≡ false) × (last ≡ run find_tailscale ∷ []))
    ⊎ ((succeeds (sys taken find_tailscale) ≡ true)
        × (((succeeds (sys looked (check_rule i)) ≡ true)
              × (last ≡ run find_tailscale ∷ run (check_rule i) ∷ []))
            ⊎ ((succeeds (sys looked (check_rule i)) ≡ false)
                × (last ≡ run find_tailscale ∷ run (check_rule i) ∷ run (insert_rule i) ∷ []))))

block_tailscale-Blocks :
    (sys : Machine) (i : Interface) (taken : List Step)
    → (last : List Step) × (block_tailscale sys i taken ≡ taken ++ last) × Blocks sys i taken last
unfolding block_tailscale
block_tailscale-Blocks sys i taken =
    let looked = taken ++ run find_tailscale ∷ [] in
    elim (Bool-cases (succeeds (sys taken find_tailscale))) [
      | inr absent ↦ (_, rw absent refl, inl (absent, refl))
      | inl found ↦ elim (Bool-cases (succeeds (sys looked (check_rule i)))) [
        | inl there ↦
            (_, rw (found, there) (append_assoc taken _ _), inr (found, inl (there, refl)))
        | inr missing ↦ (
          run find_tailscale ∷ run (check_rule i) ∷ run (insert_rule i) ∷ [],
          rw
              (
                found,
                missing,
                append_assoc looked (run (check_rule i) ∷ []) (run (insert_rule i) ∷ []),
              )
              (append_assoc taken _ _),
          inr (found, inr (missing, refl)),
        )
      ]
    ]

-- A command that was started, whatever its exit status.
abbrev pub HasRun : Exit → Type 0
HasRun e = (ok : Bool) × (e ≡ exited ok)

-- How a configuration fails, and the steps that it has taken then.
abbrev pub Failure : Machine → Interface → List Step → Type 0
Failure sys i steps =
    ((succeeds (sys [] (add_address i)) ≡ false) × (steps ≡ take 1 (vital i)))
    ⊎ (((succeeds (sys [] (add_address i)) ≡ true)
          × (sys (take 1 (vital i)) (set_mtu i) ≡ not_started)
          × (steps ≡ take 2 (vital i)))
        ⊎ ((succeeds (sys [] (add_address i)) ≡ true)
            × HasRun (sys (take 1 (vital i)) (set_mtu i))
            × (succeeds (sys (take 2 (vital i)) (bring_up i)) ≡ false)
            × (steps ≡ vital i)))

abbrev pub Outcome : Machine → Interface → Bool → Type 0
Outcome sys i is_wanted =
    (((configure sys i is_wanted).1 ≡ true)
      × (succeeds (sys [] (add_address i)) ≡ true)
      × HasRun (sys (take 1 (vital i)) (set_mtu i))
      × (succeeds (sys (take 2 (vital i)) (bring_up i)) ≡ true)
      × (last : List Step) × ((configure sys i is_wanted).0
          ≡ (vital i ++ quiet_steps i is_wanted) ++ last)
      × Blocks sys i (vital i ++ quiet_steps i is_wanted) last)
    ⊎ (((configure sys i is_wanted).1 ≡ false) × Failure sys i (configure sys i is_wanted).0)

-- A configuration that succeeds has set the address and brought the device up, with both commands
-- successful, and has started the one for the MTU between them, whose exit status does not count; then
-- it goes through all the other steps, of which the last are those on Tailscale's rule: it is inserted
-- just where Tailscale runs and the rule is not there. One that fails has a command for the address or
-- for the device that did not succeed, or one for the MTU that did not start, with the commands before
-- it as on success, and takes no step after that command.
pub configure_outcomes :
    (sys : Machine) (i : Interface) (is_wanted : Bool) → Outcome sys i is_wanted
unfolding configure
configure_outcomes sys i is_wanted = elim (Bool-cases (succeeds (sys [] (add_address i)))) [
  | inr fails ↦ inr (rw fails refl, inl (fails, rw fails refl))
  | inl set ↦ by_mtu set (sys (take 1 (vital i)) (set_mtu i)) refl
]
  where
    by_mtu :
        succeeds (sys [] (add_address i)) ≡ true
        → (e : Exit) → sys (take 1 (vital i)) (set_mtu i) ≡ e
        → Outcome sys i is_wanted
    by_mtu set not_started e =
        inr (rw (set, configure, e) refl, inr (inl (set, e, rw (set, configure, e) refl)))
    by_mtu set (exited ok) e = elim (Bool-cases (succeeds (sys (take 2 (vital i)) (bring_up i)))) [
      | inr fails ↦ inr (
        rw (set, configure, e, fails) refl,
        inr (inr (set, (ok, e), fails, rw (set, configure, e, fails) refl)),
      )
      | inl up ↦
          let (last, steps, blocks) =
            block_tailscale-Blocks sys i (vital i ++ quiet_steps i is_wanted) in
          inl (
            rw (set, configure, e, up) refl,
            set,
            (ok, e),
            up,
            last,
            rw (set, configure, e, up) steps,
            blocks,
          )
    ]
