-- ===== src/Gateway/Undo.antt =====
-- The commands of `enable_gateway` of src/gateway.rs beside those of `disable_gateway`.
use mathlib.Core.List.{append_assoc, append-nil}
use wolf_net.Shared.{
  ℕ, zero, suc, ◌≤◌, ◌≡◌, ◌∙◌, sym, ap, ◌⊎◌, inl, inr, refl, arith, true, false, List, [], ◌∷◌,
  ◌++◌, some, Bool, take, length, replicate, map,
}
use wolf_net.Net.{Text}
use wolf_net.Gateway.{
  Command, Exit, not_started, exited, System, rules, append_rule, delete_rule, old_drop, sysctls,
  checked, delete_while, enable_gateway, disable_gateway, external_interface,
}

-- The commands up to the first that does not start.
abbrev TriedUpTo : List Command → List Command → List Command × Bool → Type 0
TriedUpTo tried cs (after, ok) =
    (k : ℕ) × (k ≤ length cs)
    × (after ≡ tried ++ take k cs)
    × (((ok ≡ true) × (k ≡ length cs)) ⊎ (ok ≡ false))

checked-TriedUpTo :
    (sys : System) (cs tried : List Command) → TriedUpTo tried cs (checked sys cs tried)
unfolding checked
checked-TriedUpTo sys [] tried = (0, omega arith, sym (append-nil tried), inl (refl, refl))
checked-TriedUpTo sys (c ∷ cs) tried =
    by_exit (checked-TriedUpTo sys cs (tried ++ c ∷ [])) (sys tried c) refl
  where
    by_exit :
        TriedUpTo (tried ++ c ∷ []) cs (checked sys cs (tried ++ c ∷ []))
        → (e : Exit) → sys tried c ≡ e
        → TriedUpTo tried (c ∷ cs) (checked sys (c ∷ cs) tried)
    by_exit rest not_started e = rw (e, checked) (1, omega arith, refl, inr refl)
    by_exit (k, most, same, how) (exited b) e =
        rw (e, checked)
          (
            suc k,
            omega arith,
            same ∙ append_assoc tried (c ∷ []) (take k cs),
            elim how [ inl (done, all) ↦ inl (done, ap suc all) | inr failed ↦ inr failed ],
          )

-- At most so many copies of the one command.
abbrev Repeats : ℕ → Command → List Command → List Command → Type 0
Repeats turns c tried after = (j : ℕ) × (j ≤ turns) × (after ≡ tried ++ replicate j c)

delete_while-Repeats :
    (turns : ℕ) (sys : System) (c : Command) (tried : List Command)
    → Repeats turns c tried (delete_while turns sys c tried)
unfolding delete_while
delete_while-Repeats zero sys c tried = (0, omega arith, sym (append-nil tried))
delete_while-Repeats (suc turns) sys c tried =
    by_exit (delete_while-Repeats turns sys c (tried ++ c ∷ [])) (sys tried c) refl
  where
    by_exit :
        Repeats turns c (tried ++ c ∷ []) (delete_while turns sys c (tried ++ c ∷ []))
        → (e : Exit) → sys tried c ≡ e
        → Repeats (suc turns) c tried (delete_while (suc turns) sys c tried)
    by_exit rest not_started e = rw (e, delete_while) (1, omega arith, refl)
    by_exit rest (exited false) e = rw (e, delete_while) (1, omega arith, refl)
    by_exit (j, most, same) (exited true) e =
        rw (e, delete_while)
          (suc j, omega arith, same ∙ append_assoc tried (c ∷ []) (replicate j c))

-- Enabling tries the `sysctl` commands, then the appends of some first rules of the list, all of
-- them where it succeeds, and at most four deletions of the old rule; and disabling, on the same
-- interface, deletes every rule of the list. So no rule that was appended is left out.
pub disable_deletes_rules :
    (sys : System) (words : List Text) (c : ℕ) (rest iface subnet : Text)
    → external_interface words ≡ some (c ∷ rest)
    → let ext = c ∷ rest in
      let old = delete_rule (old_drop ext subnet) in
      ((k : ℕ) × (j : ℕ) × (k ≤ 3)
        × (j ≤ 4)
        × ((enable_gateway sys words iface subnet).0
            ≡ sysctls iface ext
              ++ (take k (map append_rule (rules ext iface subnet)) ++ replicate j old))
        × (((enable_gateway sys words iface subnet).1 ≡ true) × (k ≡ 3)
            ⊎ ((enable_gateway sys words iface subnet).1 ≡ false)))
      × (disable_gateway words iface subnet ≡ map delete_rule (rules ext iface subnet) ++ old ∷ [])
unfolding enable_gateway disable_gateway
disable_deletes_rules sys words c rest iface subnet found =
    let ext = c ∷ rest in
    let old = delete_rule (old_drop ext subnet) in
    let start = sysctls iface ext in
    let r = checked sys (map append_rule (rules ext iface subnet)) start in
    let (k, most, same, how) =
      checked-TriedUpTo sys (map append_rule (rules ext iface subnet)) start in
    let (j, few, deleted) = delete_while-Repeats 4 sys old r.0 in
    elim how [
      | inl (done, all) ↦
          rw (found, enable_gateway, disable_gateway, done)
            (
              (
                k,
                j,
                most,
                few,
                deleted
                    ∙ ap (λ t. t ++ replicate j old) same
                    ∙ append_assoc start _ (replicate j old),
                inl (refl, all),
              ),
              refl,
            )
      | inr failed ↦
          rw (found, enable_gateway, disable_gateway, failed)
            (
              (k, 0, most, omega arith, same ∙ ap (λ t. start ++ t) (sym (append-nil _)), inr refl),
              refl,
            )
    ]
