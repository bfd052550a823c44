-- ===== src/Config/Files/Stop.antt =====
-- A save of src/config.rs that stops: what the next start finds.
use wolf_net.Shared.{
  not, ◌||◌, ◌==◌, bytes_eq, codes, Option-cases, Bool-cases, true, subst, false, ℕ, ◌≡◌, ◌⊎◌, inl,
  inr, refl, sym, arith, true, false, Bool-cases, List, [], ◌∷◌, some, Option-cases,
}
use wolf_net.Net.{Text}
use wolf_net.External.{External}
use mathlib.Core.Option.{some-injective}
use wolf_net.Config.Migration.{contains_text}
use wolf_net.Config.{Config}
use wolf_net.Config.Files.{
  is_usable, recover, Toml, Files, FileOp, copy_to_bak, apply, torn, save_content, save_ops,
  is_usable, recover, write_tmp, rename_tmp,
}

-- The files at any point of a list of operations, at its end and between. A copy to the backup that
-- fails does not end the list.
pub data Stops : List FileOp → Files → Files → Type 0 where
  done : (ops : List FileOp) (f : Files) → Stops ops f f
  amid : (op : FileOp) (ops : List FileOp) (n : ℕ) (f : Files) → Stops (op ∷ ops) f (torn op n f)
  goes_on :
      (op : FileOp) (ops : List FileOp) (f g : Files)
      → Stops ops (apply op f) g
      → Stops (op ∷ ops) f g
  copy_failed :
      (ops : List FileOp) (n : ℕ) (f g : Files)
      → Stops ops (torn copy_to_bak n f) g
      → Stops (copy_to_bak ∷ ops) f g

-- The primary file is the old one or the new one.
IsEither : Text → Text → Files → Type 0
IsEither old new f = (f.primary ≡ some old) ⊎ (f.primary ≡ some new)

-- From these files on, the operations are safe to stop, and a copy to the backup is safe to fail.
IsSafe : Text → Text → List FileOp → Files → Type 0
unfolding IsEither
IsSafe old new [] f = IsEither old new f
IsSafe old new (write_tmp content ∷ ops) f =
    IsEither old new f
    × ((n : ℕ) → IsEither old new (torn (write_tmp content) n f))
    × IsSafe old new ops (apply (write_tmp content) f)
IsSafe old new (copy_to_bak ∷ ops) f =
    IsEither old new f
    × ((n : ℕ) → IsEither old new (torn copy_to_bak n f))
    × IsSafe old new ops (apply copy_to_bak f)
    × ((n : ℕ) → IsSafe old new ops (torn copy_to_bak n f))
IsSafe old new (rename_tmp ∷ ops) f =
    IsEither old new f
    × ((n : ℕ) → IsEither old new (torn rename_tmp n f))
    × IsSafe old new ops (apply rename_tmp f)

IsSafe-IsEither :
    (old new : Text) (ops : List FileOp) (f : Files) → IsSafe old new ops f → IsEither old new f
unfolding IsSafe
IsSafe-IsEither old new [] f h = h
IsSafe-IsEither old new (write_tmp content ∷ ops) f h = h.0
IsSafe-IsEither old new (copy_to_bak ∷ ops) f h = h.0
IsSafe-IsEither old new (rename_tmp ∷ ops) f h = h.0

torn-IsEither :
    (old new : Text) (op : FileOp) (ops : List FileOp) (n : ℕ) (f : Files)
    → IsSafe old new (op ∷ ops) f
    → IsEither old new (torn op n f)
unfolding IsSafe
torn-IsEither old new (write_tmp content) ops n f h = h.1 n
torn-IsEither old new copy_to_bak ops n f h = h.1 n
torn-IsEither old new rename_tmp ops n f h = h.1 n

apply-IsSafe :
    (old new : Text) (op : FileOp) (ops : List FileOp) (f : Files)
    → IsSafe old new (op ∷ ops) f
    → IsSafe old new ops (apply op f)
unfolding IsSafe
apply-IsSafe old new (write_tmp content) ops f h = h.2
apply-IsSafe old new copy_to_bak ops f h = h.2
apply-IsSafe old new rename_tmp ops f h = h.2

Stops-IsEither :
    (old new : Text) (ops : List FileOp) (f g : Files)
    → IsSafe old new ops f
    → Stops ops f g
    → IsEither old new g
unfolding IsSafe
Stops-IsEither old new _ _ _ h (Stops.done ops f) = IsSafe-IsEither old new ops f h
Stops-IsEither old new _ _ _ h (Stops.amid op ops n f) = torn-IsEither old new op ops n f h
Stops-IsEither old new _ _ _ h (Stops.goes_on op ops f g s) =
    Stops-IsEither old new ops (apply op f) g (apply-IsSafe old new op ops f h) s
Stops-IsEither old new _ _ _ h (Stops.copy_failed ops n f g s) =
    Stops-IsEither old new ops (torn copy_to_bak n f) g (h.3 n) s

save_ops-IsSafe :
    (old new : Text) (f : Files) → f.primary ≡ some old → IsSafe old new (save_ops new f) f
unfolding IsSafe IsEither apply torn
save_ops-IsSafe old new f h = rw h (
  inl refl,
  λ n. inl refl,
  (
    inl refl,
    λ n. inl refl,
    (inl refl, λ n. inl refl, inr refl),
    λ n. (inl refl, λ k. inl refl, inr refl),
  ),
)

pub usable_kept :
    (text : Text) (f : Files) → f.primary ≡ some text → is_usable (some text) ≡ true → recover f ≡ f
unfolding recover
usable_kept text f h usable = rw (h, usable) refl

-- What is saved is not empty, for it has a section.
IsFilled : Text → Type 0
IsFilled content = (c : ℕ) × (rest : Text) × (content ≡ c ∷ rest)

sections_fill :
    (x : External) (content : Text)
    → (x.trim content == []
        || not (contains_text (codes "[network]") content)
        || not (contains_text (codes "[security]") content))
      ≡ false
    → IsFilled content
unfolding contains_text IsFilled
sections_fill x [] h = elim (Bool-cases (x.trim [] == [])) [
  | inl e ↦ absurd (ground arith)
  | inr e ↦ absurd (ground arith)
]
sections_fill x (c ∷ rest) h = (c, rest, refl)

save_content-IsFilled :
    (x : External) (toml : Toml) (config : Config) (content : Text)
    → save_content x toml config ≡ some content
    → IsFilled content
unfolding save_content
save_content-IsFilled x toml config content h = elim (Option-cases (toml.to_string_pretty config)) [
  | inl e ↦ absurd (ground arith)
  | inr (t, e) ↦
      elim (Bool-cases (
        x.trim t == []
        || not (contains_text (codes "[network]") t)
        || not (contains_text (codes "[security]") t))) [
          | inl bad ↦ absurd (ground arith)
          | inr good ↦
              let same = some-injective _ _ (rw (e, good, save_content) at h) in
              subst IsFilled same (sections_fill x t good)
        ]
]

pub saved_usable :
    (x : External) (toml : Toml) (config : Config) (content : Text)
    → save_content x toml config ≡ some content
    → is_usable (some content) ≡ true
unfolding IsFilled
saved_usable x toml config content h =
    let (c, rest, e) = save_content-IsFilled x toml config content h in
    subst (λ t. is_usable (some t) ≡ true) (sym e) refl

-- A save that stops anywhere, by a crash or by an error, never costs the configuration: at the
-- next start the primary file holds the old text or the new text, whole, and the recovery leaves
-- it. This is where the old file was there and not empty, and the save was not refused.
pub save_ops-Stops :
    (x : External) (toml : Toml) (config : Config) (old new : Text) (f g : Files)
    → save_content x toml config ≡ some new
    → f.primary ≡ some old
    → is_usable f.primary ≡ true
    → Stops (save_ops new f) f g
    → (recover g ≡ g) × ((g.primary ≡ some old) ⊎ (g.primary ≡ some new))
unfolding IsEither IsFilled
save_ops-Stops x toml config old new f g content here usable s =
    let either = Stops-IsEither old new (save_ops new f) f g (save_ops-IsSafe old new f here) s in
    (kept either, either)
  where
    kept : IsEither old new g → recover g ≡ g
    kept (inl h) = usable_kept old g h (subst (λ o. is_usable o ≡ true) here usable)
    kept (inr h) = usable_kept new g h (saved_usable x toml config new content)
