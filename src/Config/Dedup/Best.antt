-- ===== src/Config/Dedup/Best.antt =====
-- Which entry of each key `Config::load` of src/config.rs keeps.
use wolf_net.Shared.{subst}
use mathlib.Core.Logic.{if_pos, if_neg}
use wolf_net.Shared.{
  Bool-cases, inl, inr, ap, ◌≢◌, ◌≡◌, refl, ◌∙◌, sym, ap, inl, inr, true, false, ◌&&◌, Bool,
  Bool-cases, List, [], ◌∷◌, Option, none, some, if◌then◌else◌, ◌==◌, bytes_eq,
}
use wolf_net.Net.{Text}
use wolf_net.Peer.{is_some}
use wolf_net.Config.{PeerConfig}
use wolf_net.Config.Dedup.{dedup, is_better}
use wolf_net.Config.Dedup.Collapse.{collapse_into, collapse, dedup-collapse, either_key}

-- The first entry of a key.
abbrev pub entry_of : Text → List PeerConfig → Option PeerConfig
entry_of k [] = none
entry_of k (p ∷ ps) = let rest = entry_of k ps in if k == p.public_key then some p else rest

-- The first entry of a key that has an endpoint.
abbrev pub reachable_entry_of : Text → List PeerConfig → Option PeerConfig
reachable_entry_of k [] = none
reachable_entry_of k (p ∷ ps) =
    let rest = reachable_entry_of k ps in
    if k == p.public_key && is_some p.endpoint then some p else rest

abbrev pub or_else : Option PeerConfig → Option PeerConfig → Option PeerConfig
or_else none o = o
or_else (some p) o = some p

-- The first entry with an endpoint, or else the first entry.
abbrev pub best_entry_of : Text → List PeerConfig → Option PeerConfig
best_entry_of k ps = or_else (reachable_entry_of k ps) (entry_of k ps)

abbrev pub HasDistinctKeys : List PeerConfig → Type 0
HasDistinctKeys [] = Unit
HasDistinctKeys (p ∷ ps) = (entry_of p.public_key ps ≡ none) × HasDistinctKeys ps

improve : Option PeerConfig → PeerConfig → PeerConfig
improve none p = p
improve (some q) p = if is_better p q then p else q

entry_of-head :
    (k : Text) (b : Bool) (p q : PeerConfig) (kept : List PeerConfig)
    → p.public_key ≡ q.public_key
    → entry_of k ((if b then p else q) ∷ kept)
      ≡ (if k == q.public_key then some (if b then p else q) else entry_of k kept)
entry_of-head k true p q kept same = ap (λ t. if k == t then some p else entry_of k kept) same
entry_of-head k false p q kept same = refl

collapse_into-entry_of :
    (k : Text) (p : PeerConfig) (kept : List PeerConfig)
    → entry_of k (collapse_into p kept)
      ≡ (if k == p.public_key then some (improve (entry_of k kept) p) else entry_of k kept)
unfolding improve
collapse_into-entry_of k p [] = refl
collapse_into-entry_of k p (q ∷ kept) = elim (bytes_eq.dec p.public_key q.public_key) [
  | yes same ↦ elim (bytes_eq.dec k q.public_key) [
    | yes here ↦
        let also : k ≡ p.public_key = here ∙ sym same in
        rw
          (
            if_pos _ same,
            entry_of-head k (is_better p q) p q kept same,
            if_pos _ here,
            if_pos _ also,
          )
          refl
    | no other ↦
        let far : k ≢ p.public_key = λ e. other (e ∙ same) in
        rw
          (
            if_pos _ same,
            entry_of-head k (is_better p q) p q kept same,
            if_neg _ other,
            if_neg _ far,
          )
          refl
  ]
  | no differ ↦ elim (bytes_eq.dec k q.public_key) [
    | yes here ↦
        let far : k ≢ p.public_key = λ e. differ (sym e ∙ here) in
        rw (if_neg _ differ, if_pos _ here, if_neg _ far) refl
    | no other ↦ rw (if_neg _ differ, if_neg _ other) (collapse_into-entry_of k p kept)
  ]
]

-- What becomes of the entry of a key, over the entries that follow.
chosen : Text → Option PeerConfig → List PeerConfig → Option PeerConfig
unfolding improve
chosen k o [] = o
chosen k o (p ∷ ps) = chosen k (if k == p.public_key then some (improve o p) else o) ps

collapse-chosen :
    (k : Text) (ps kept : List PeerConfig)
    → entry_of k (collapse ps kept) ≡ chosen k (entry_of k kept) ps
unfolding chosen
collapse-chosen k [] kept = refl
collapse-chosen k (p ∷ ps) kept =
    collapse-chosen k ps (collapse_into p kept)
    ∙ ap (λ o. chosen k o ps) (collapse_into-entry_of k p kept)

chosen-some :
    (k : Text) (q : PeerConfig) (ps : List PeerConfig)
    → chosen k (some q) ps
      ≡ (if is_some q.endpoint then some q else or_else (reachable_entry_of k ps) (some q))
unfolding chosen improve
chosen-some k q [] = elim (Bool-cases (is_some q.endpoint)) [
  | inl e ↦ rw e refl
  | inr e ↦ rw e refl
]
chosen-some k q (p ∷ ps) = elim (Bool-cases (k == p.public_key)) [
  | inr other ↦ rw other (chosen-some k q ps)
  | inl here ↦ elim (Bool-cases (is_some q.endpoint)) [
    | inl has ↦ rw (here, has) (chosen-some k q ps ∙ rw has refl)
    | inr lacks ↦ elim (Bool-cases (is_some p.endpoint)) [
      | inl gives ↦ rw (here, lacks, gives) (chosen-some k p ps ∙ rw gives refl)
      | inr bare ↦ rw (here, lacks, bare) (chosen-some k q ps ∙ rw lacks refl)
    ]
  ]
]

chosen-none : (k : Text) (ps : List PeerConfig) → chosen k none ps ≡ best_entry_of k ps
unfolding chosen improve
chosen-none k [] = refl
chosen-none k (p ∷ ps) = elim (Bool-cases (k == p.public_key)) [
  | inr other ↦ rw other (chosen-none k ps)
  | inl here ↦ elim (Bool-cases (is_some p.endpoint)) [
    | inl gives ↦ rw (here, gives) (chosen-some k p ps ∙ rw gives refl)
    | inr bare ↦ rw (here, bare) (chosen-some k p ps ∙ rw bare refl)
  ]
]

-- The kept list has each key once.
collapse_into-HasDistinctKeys :
    (p : PeerConfig) (kept : List PeerConfig)
    → HasDistinctKeys kept
    → HasDistinctKeys (collapse_into p kept)
collapse_into-HasDistinctKeys p [] h = (refl, tt)
collapse_into-HasDistinctKeys p (q ∷ kept) (fresh, rest) =
    elim (bytes_eq.dec p.public_key q.public_key) [
      | yes same ↦
          let key = either_key (is_better p q) p q same in
          rw (if_pos _ same) (ap (λ t. entry_of t kept) key ∙ fresh, rest)
      | no differ ↦
          let apart : q.public_key ≢ p.public_key = λ e. differ (sym e) in
          rw (if_neg _ differ) (
            collapse_into-entry_of q.public_key p kept ∙ rw (if_neg _ apart) fresh,
            collapse_into-HasDistinctKeys p kept rest,
          )
    ]

collapse-HasDistinctKeys :
    (ps kept : List PeerConfig) → HasDistinctKeys kept → HasDistinctKeys (collapse ps kept)
collapse-HasDistinctKeys [] kept h = h
collapse-HasDistinctKeys (p ∷ ps) kept h =
    collapse-HasDistinctKeys ps (collapse_into p kept) (collapse_into-HasDistinctKeys p kept h)

-- After the loading, no two peers have one key; and for every key, the entry kept is the first one
-- with an endpoint, or the first one where none has an endpoint. So a key of the file is never
-- lost, whatever addresses its entries share with others.
pub dedup_keeps_best :
    (peers : List PeerConfig) (k : Text)
    → HasDistinctKeys (dedup peers) × (entry_of k (dedup peers) ≡ best_entry_of k peers)
dedup_keeps_best peers k =
    let same = dedup-collapse peers in
    (
      subst HasDistinctKeys (sym same) (collapse-HasDistinctKeys peers [] tt),
      ap (entry_of k) same ∙ collapse-chosen k peers [] ∙ chosen-none k peers,
    )
