-- ===== src/Config/Dedup/Collapse.antt =====
-- The loop of `Config::load` in src/config.rs beside a walk over the list that needs no index.
use wolf_net.Shared.{insert, lookup-insert, Option-cases}
use wolf_net.Config.Dedup.{keep_peers}
use wolf_net.Config.Dedup.{keep_peer}
use wolf_net.Config.Dedup.{dedup}
use mathlib.Core.Logic.{if_pos, if_neg}
use wolf_net.Shared.{
  Bool-cases, ◌∙◌, sym, ap, inl, inr, ℕ, suc, ◌≡◌, refl, ◌∙◌, sym, ap, arith, inl, inr, true, false,
  Bool, Bool-cases, List, [], ◌∷◌, ◌++◌, Option, none, some, if◌then◌else◌, ◌==◌, length, get_elem?,
  set, bytes_eq, Dict, lookup,
}
use mathlib.Core.Option.{some-injective}
use mathlib.Core.Logic.{if_pos, if_neg}
use wolf_net.Net.{Text}
use wolf_net.Config.{PeerConfig}
use wolf_net.Config.Dedup.{is_better}

-- An entry takes the place of the one of its key where it is better, and the last place where
-- there is none of its key.
abbrev pub collapse_into : PeerConfig → List PeerConfig → List PeerConfig
collapse_into p [] = p ∷ []
collapse_into p (q ∷ qs) =
    let rest = collapse_into p qs in
    if p.public_key == q.public_key then (if is_better p q then p else q) ∷ qs else q ∷ rest

abbrev pub collapse : List PeerConfig → List PeerConfig → List PeerConfig
collapse [] kept = kept
collapse (p ∷ ps) kept = collapse ps (collapse_into p kept)

next : Option ℕ → Option ℕ
next none = none
next (some i) = some (suc i)

-- The first place of a key.
index_of : Text → List PeerConfig → Option ℕ
unfolding next
index_of k [] = none
index_of k (p ∷ ps) = let rest = index_of k ps in if k == p.public_key then some 0 else next rest

-- The index of the loop is right about every key.
IndexRight : List PeerConfig → Dict Text ℕ → Type 0
IndexRight kept idx = (k : Text) → lookup k idx ≡ index_of k kept

or_last : Option ℕ → Bool → ℕ → Option ℕ
or_last (some i) b n = some i
or_last none true n = some n
or_last none false n = none

next-or_last : (o : Option ℕ) (b : Bool) (n : ℕ) → next (or_last o b n) ≡ or_last (next o) b (suc n)
unfolding next or_last
next-or_last none true n = refl
next-or_last none false n = refl
next-or_last (some i) b n = refl

index_of-append :
    (k : Text) (p : PeerConfig) (kept : List PeerConfig)
    → index_of k (kept ++ p ∷ []) ≡ or_last (index_of k kept) (k == p.public_key) (length kept)
unfolding index_of next or_last
index_of-append k p [] = elim (Bool-cases (k == p.public_key)) [
  | inl e ↦ rw e refl
  | inr e ↦ rw e refl
]
index_of-append k p (q ∷ kept) = elim (Bool-cases (k == q.public_key)) [
  | inl e ↦ rw e refl
  | inr e ↦ rw e (
      ap next (index_of-append k p kept)
      ∙ next-or_last (index_of k kept) (k == p.public_key) (length kept))
]

next-none : (o : Option ℕ) → next o ≡ none → o ≡ none
unfolding next
next-none none h = refl
next-none (some i) h = absurd (ground arith)

next-some : (o : Option ℕ) (i : ℕ) → next o ≡ some i → (j : ℕ) × (o ≡ some j) × (i ≡ suc j)
unfolding next
next-some none i h = absurd (ground arith)
next-some (some j) i h = (j, refl, sym (some-injective _ _ h))

missing-append :
    (p : PeerConfig) (kept : List PeerConfig)
    → index_of p.public_key kept ≡ none
    → collapse_into p kept ≡ kept ++ p ∷ []
unfolding index_of
missing-append p [] h = refl
missing-append p (q ∷ kept) h = elim (Bool-cases (p.public_key == q.public_key)) [
  | inl e ↦ absurd (ground arith)
  | inr e ↦ rw e (ap (λ t. q ∷ t) (missing-append p kept (next-none _ (rw e at h))))
]

-- What the loop finds at the index, and does there, is what the walk finds and does.
abbrev Found : PeerConfig → List PeerConfig → ℕ → Type 0
Found p kept i =
    (old : PeerConfig) × (get_elem? kept i ≡ some old)
    × ((if is_better p old then set kept i p else kept) ≡ collapse_into p kept)

push_if :
    (b : Bool) (q : PeerConfig) (xs ys : List PeerConfig)
    → (if b then q ∷ xs else q ∷ ys) ≡ q ∷ (if b then xs else ys)
push_if true q xs ys = refl
push_if false q xs ys = refl

push_head :
    (b : Bool) (p q : PeerConfig) (xs : List PeerConfig)
    → (if b then p ∷ xs else q ∷ xs) ≡ (if b then p else q) ∷ xs
push_head true p q xs = refl
push_head false p q xs = refl

index_of-Found :
    (p : PeerConfig) (kept : List PeerConfig) (i : ℕ)
    → index_of p.public_key kept ≡ some i
    → Found p kept i
unfolding index_of get_elem? set
index_of-Found p [] i h = absurd (ground arith)
index_of-Found p (q ∷ kept) i h = elim (Bool-cases (p.public_key == q.public_key)) [
  | inl e ↦
      let first : i ≡ 0 = sym (some-injective _ _ (rw e at h)) in
      rw (first, e) (q, refl, push_head (is_better p q) p q kept)
  | inr e ↦
      let (j, there, behind) = next-some (index_of p.public_key kept) i (rw e at h) in
      let (old, at, same) = index_of-Found p kept j there in
      rw (behind, e)
        (old, at, push_if (is_better p old) q (set kept j p) kept ∙ ap (λ t. q ∷ t) same)
]

pub either_key :
    (b : Bool) (p q : PeerConfig)
    → p.public_key ≡ q.public_key
    → (if b then p else q).public_key ≡ q.public_key
either_key true p q h = h
either_key false p q h = refl

found_index :
    (k : Text) (p : PeerConfig) (kept : List PeerConfig) (i : ℕ)
    → index_of p.public_key kept ≡ some i
    → index_of k (collapse_into p kept) ≡ index_of k kept
unfolding index_of
found_index k p [] i h = absurd (ground arith)
found_index k p (q ∷ kept) i h = elim (bytes_eq.dec p.public_key q.public_key) [
  | yes same ↦ rw (if_pos _ same) (
      ap (λ t. if k == t then some 0 else next (index_of k kept))
        (either_key (is_better p q) p q same))
  | no differ ↦
      let (j, there, behind) =
        next-some (index_of p.public_key kept) i (rw (if_neg _ differ) at h) in
      rw (if_neg _ differ)
        (ap (λ o. if k == q.public_key then some 0 else next o) (found_index k p kept j there))
]

-- One turn of the loop is one step of the walk, and keeps the index right.
IsTurn : PeerConfig → List PeerConfig → List PeerConfig × Dict Text ℕ → Type 0
unfolding IndexRight
IsTurn p kept (kept', idx') = (kept' ≡ collapse_into p kept) × IndexRight kept' idx'

appended_index :
    (p : PeerConfig) (kept : List PeerConfig) (idx : Dict Text ℕ)
    → IndexRight kept idx
    → index_of p.public_key kept ≡ none
    → IndexRight (kept ++ p ∷ []) (insert p.public_key (length kept) idx)
unfolding IndexRight or_last
appended_index p kept idx right e k = elim (bytes_eq.dec k p.public_key) [
  | yes same ↦
      let fresh : index_of k kept ≡ none = ap (λ t. index_of t kept) same ∙ e in
      rw
        (
          lookup-insert k p.public_key (length kept) idx,
          index_of-append k p kept,
          fresh,
          if_pos _ same,
        )
        refl
  | no differ ↦
      rw (lookup-insert k p.public_key (length kept) idx, index_of-append k p kept, if_neg _ differ)
        (right k ∙ unchanged (index_of k kept))
]
  where
    unchanged : (o : Option ℕ) → o ≡ or_last o false (length kept)
    unchanged none = refl
    unchanged (some i) = refl

keep_peer-IsTurn :
    (p : PeerConfig) (kept : List PeerConfig) (idx : Dict Text ℕ)
    → IndexRight kept idx
    → IsTurn p kept (keep_peer p (kept, idx))
unfolding keep_peer IsTurn IndexRight
keep_peer-IsTurn p kept idx right = elim (Option-cases (index_of p.public_key kept)) [
  | inl e ↦
      let absent : lookup p.public_key idx ≡ none = right p.public_key ∙ e in
      rw (absent, keep_peer) (sym (missing-append p kept e), appended_index p kept idx right e)
  | inr (i, e) ↦
      let present : lookup p.public_key idx ≡ some i = right p.public_key ∙ e in
      let (old, at, same) = index_of-Found p kept i e in
      rw (present, keep_peer)
        (rw at (same, λ k. right k ∙ sym (found_index k p kept i e) ∙ ap (index_of k) (sym same)))
]

keep_peers-collapse :
    (ps kept : List PeerConfig) (idx : Dict Text ℕ)
    → IndexRight kept idx
    → (keep_peers ps (kept, idx)).0 ≡ collapse ps kept
unfolding keep_peers IsTurn
keep_peers-collapse [] kept idx right = refl
keep_peers-collapse (p ∷ ps) kept idx right =
    let (same, right') = keep_peer-IsTurn p kept idx right in
    keep_peers-collapse ps (keep_peer p (kept, idx)).0 (keep_peer p (kept, idx)).1 right'
    ∙ ap (collapse ps) same

-- The loop with its index does what the walk without one does: each entry takes the place of the
-- kept one of its key, if it has an endpoint and that one has none, or the last place if its key is
-- new.
pub dedup-collapse : (peers : List PeerConfig) → dedup peers ≡ collapse peers []
unfolding dedup IndexRight index_of lookup
dedup-collapse peers = keep_peers-collapse peers [] [] (λ k. refl)
