-- ===== src/Config/Dedup/Distinct.antt =====
-- A list of peers without duplicates in `Config::load` of src/config.rs.
use mathlib.Core.List.{append_assoc, append-nil}
use wolf_net.Shared.{◌≡◌, refl, ◌∙◌, sym, ap, subst, List, [], ◌∷◌, ◌++◌, none, bytes_eq, ◌≢◌}
use mathlib.Core.Logic.{if_pos, if_neg}
use mathlib.Core.Option.{some-ne-none}
use wolf_net.Net.{Text}
use wolf_net.Config.{PeerConfig}
use wolf_net.Config.Dedup.{dedup}
use wolf_net.Config.Dedup.Collapse.{collapse_into, collapse, dedup-collapse}
use wolf_net.Config.Dedup.Best.{entry_of, HasDistinctKeys}

-- An entry that is in no list is in neither part of it, and is not the head of the second.
none_before :
    (k : Text) (kept : List PeerConfig) (p : PeerConfig) (ps : List PeerConfig)
    → entry_of k (kept ++ p ∷ ps) ≡ none
    → k ≢ p.public_key
none_before k [] p ps h same = absurd (some-ne-none p (rw (if_pos _ same) at h))
none_before k (q ∷ kept) p ps h same = elim (bytes_eq.dec k q.public_key) [
  | yes here ↦ absurd (some-ne-none q (rw (if_pos _ here) at h))
  | no other ↦ none_before k kept p ps (rw (if_neg _ other) at h) same
]

new_in_front :
    (kept : List PeerConfig) (p : PeerConfig) (ps : List PeerConfig)
    → HasDistinctKeys (kept ++ p ∷ ps)
    → collapse_into p kept ≡ kept ++ p ∷ []
new_in_front [] p ps h = refl
new_in_front (q ∷ kept) p ps (fresh, rest) =
    let apart : p.public_key ≢ q.public_key =
      λ e. none_before q.public_key kept p ps fresh (sym e) in
    rw (if_neg _ apart) (ap (λ t. q ∷ t) (new_in_front kept p ps rest))

collapse-append :
    (ps kept : List PeerConfig) → HasDistinctKeys (kept ++ ps) → collapse ps kept ≡ kept ++ ps
collapse-append [] kept h = sym (append-nil kept)
collapse-append (p ∷ ps) kept h =
    let same : (kept ++ p ∷ []) ++ ps ≡ kept ++ p ∷ ps = append_assoc kept (p ∷ []) ps in
    ap (collapse ps) (new_in_front kept p ps h)
    ∙ collapse-append ps (kept ++ p ∷ []) (subst HasDistinctKeys (sym same) h)
    ∙ same

-- Peers of distinct keys are kept as they are.
pub dedup_distinct : (ps : List PeerConfig) → HasDistinctKeys ps → dedup ps ≡ ps
dedup_distinct ps h = dedup-collapse ps ∙ collapse-append ps [] h
