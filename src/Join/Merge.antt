-- ===== src/Join/Merge.antt =====
-- What `cmd_join` of src/main.rs does to the peers of the configuration.
use mathlib.Core.Logic.{if_pos, if_neg}
use mathlib.Core.Option.{some-injective}
use wolf_net.Shared.{
  ◌≡◌, ◌≢◌, refl, ◌∙◌, sym, ap, List, [], ◌∷◌, Option, none, some, if◌then◌else◌, ◌==◌, bytes_eq,
}
use wolf_net.Net.{Text}
use wolf_net.Net.Parsed.{bind-some}
use wolf_net.External.{External}
use wolf_net.Config.{Config, PeerConfig}
use wolf_net.Config.Dedup.Best.{entry_of}
use wolf_net.Peer.{is_some}
use wolf_net.Join.{join_address, Invite, merge_inviter, or_name, derive_peer_name, join, or_default}

-- The inviter's entry, from the one that was there.
abbrev pub inviter_entry : Text → Text → Text → Text → Option PeerConfig → PeerConfig
inviter_entry pk ep ip name none = record {
  public_key = pk;
  endpoint = some ep;
  allowed_ip = ip;
  name = some name;
}
inviter_entry pk ep ip name (some p) = record p {
  endpoint = some ep;
  allowed_ip = ip;
  name = or_name p.name name;
}

merge_inviter-entry_of :
    (pk ep ip name k : Text) (ps : List PeerConfig)
    → entry_of k (merge_inviter pk ep ip name ps)
      ≡ (if k == pk then some (inviter_entry pk ep ip name (entry_of pk ps)) else entry_of k ps)
unfolding merge_inviter
merge_inviter-entry_of pk ep ip name k [] = refl
merge_inviter-entry_of pk ep ip name k (p ∷ ps) = elim (bytes_eq.dec p.public_key pk) [
  | yes here ↦ elim (bytes_eq.dec k pk) [
    | yes same ↦
        rw (if_pos _ here, if_pos _ same, if_pos _ (same ∙ sym here), if_pos _ (sym here)) refl
    | no apart ↦
        let far : k ≢ p.public_key = λ e. apart (e ∙ here) in
        rw (if_pos _ here, if_neg _ apart, if_neg _ far) refl
  ]
  | no other ↦ elim (bytes_eq.dec k p.public_key) [
    | yes at ↦
        let far : k ≢ pk = λ e. other (sym at ∙ e) in
        rw (if_neg _ other, if_pos _ at, if_neg _ far) refl
    | no apart ↦
        let back : pk ≢ p.public_key = λ e. other (sym e) in
        rw (if_neg _ other, if_neg _ apart, if_neg _ back)
          (merge_inviter-entry_of pk ep ip name k ps)
  ]
]

-- A join that succeeds gives the inviter's key an entry with the endpoint and the address of the
-- token, under the name that the entry had or else a derived one, and leaves the entry of every
-- other key as it was.
pub join_entries :
    (x : External) (invite : Invite) (loaded : Option Config) (c : Config) (pk ep ip k : Text)
    → invite.pk ≡ some pk
    → invite.ep ≡ some ep
    → invite.ip ≡ some ip
    → join x invite loaded ≡ some c
    → let old = (or_default loaded).peers in
      entry_of k c.peers ≡ (
        if k == pk
        then some (inviter_entry pk ep ip (derive_peer_name x invite.hn pk) (entry_of pk old))
        else entry_of k old)
unfolding join
join_entries x invite loaded c pk ep ip k has_pk has_ep has_ip h =
    let h' = rw (has_pk, has_ep, has_ip, join) at h in
    let (address, chosen, e) =
      bind-some (join_address (is_some loaded) ip (or_default loaded)) _ c h' in
    let old = (or_default loaded).peers in
    ap (λ (d : Config). entry_of k d.peers) (sym (some-injective _ _ e))
    ∙ merge_inviter-entry_of pk ep ip (derive_peer_name x invite.hn pk) k old
