-- ===== src/Join/Address.antt =====
-- The search for a free address in `cmd_join` of src/main.rs.
use wolf_net.Shared.{
  ltb→lt, ltb-false→le, nat_eq, ℕ, zero, suc, ◌+◌, ◌%◌, ◌≤◌, ◌<◌, ◌≡◌, ◌⊎◌, inl, inr, refl, sym, ap,
  ◌∙◌, subst, arith, true, false, Bool-cases, Option, none, some, ltb, ltb→lt, ltb-false→le, nat_eq,
}
use wolf_net.Net.{Ipv4Addr}
use wolf_net.Join.{Taken, candidate, is_free, search, next_octet}

module _ (taken : Taken) (peer : Ipv4Addr) where
  IsFreeAt : ℕ → Type 0
  IsFreeAt last = is_free taken (candidate peer last) ≡ true

  -- The search has given up, or has found a free address.
  abbrev Ends : Option (Option ℕ) → Type 0
  Ends r =
      (r ≡ some none) ⊎ ((a : ℕ) × (r ≡ some (some a)) × (is_free taken (candidate peer a) ≡ true))

  -- One turn of the loop.
  turn :
      (fuel last : ℕ)
      → (IsFreeAt last × (search (suc fuel) taken peer last ≡ some (some last)))
        ⊎ ((is_free taken (candidate peer last) ≡ false)
            × (((254 < (last + 1) % 256) × (search (suc fuel) taken peer last ≡ some none))
                ⊎ (((last + 1) % 256 ≤ 254)
                    × (search (suc fuel) taken peer last
                        ≡ search fuel taken peer ((last + 1) % 256)))))
  unfolding search IsFreeAt
  turn fuel last = elim (Bool-cases (is_free taken (candidate peer last))) [
    | inl e ↦ inl (e, rw (e, search) refl)
    | inr e ↦ elim (Bool-cases (ltb 254 ((last + 1) % 256))) [
      | inl f ↦ inr (e, inl (ltb→lt 254 ((last + 1) % 256) f, rw (e, f, search) refl))
      | inr f ↦ inr (e, inr (ltb-false→le 254 ((last + 1) % 256) f, rw (e, f, search) refl))
    ]
  ]

  search-Ends :
      (fuel last : ℕ) → last ≤ 254 → 255 ≤ fuel + last → Ends (search fuel taken peer last)
  unfolding IsFreeAt
  search-Ends zero last h k = absurd (omega arith)
  search-Ends (suc fuel) last h k = elim (turn fuel last) [
    | inl (free, found) ↦ inr (last, found, free)
    | inr (busy, inl (over, stopped)) ↦ inl stopped
    | inr (busy, inr (under, next)) ↦
        let there : (last + 1) % 256 ≡ last + 1 = omega arith in
        subst Ends (sym (next ∙ ap (search fuel taken peer) there))
          (search-Ends fuel (last + 1) (omega arith) (omega arith))
  ]

  -- An address that is taken is not the free one.
  beyond :
      (last o : ℕ)
      → last ≤ o
      → is_free taken (candidate peer last) ≡ false
      → IsFreeAt o
      → last + 1 ≤ o
  unfolding IsFreeAt
  beyond last o h busy free = elim (nat_eq.dec last o) [
    | yes same ↦
        let also : is_free taken (candidate peer last) ≡ true =
          subst (λ i. is_free taken (candidate peer i) ≡ true) (sym same) free in
        absurd (cc)
    | no apart ↦ omega arith
  ]

  search_finds :
      (fuel last o : ℕ)
      → last ≤ o
      → o ≤ 254
      → 255 ≤ fuel + last
      → IsFreeAt o
      → (a : ℕ) × (search fuel taken peer last ≡ some (some a)) × IsFreeAt a × (last ≤ a) × (a ≤ o)
  search_finds zero last o h k l free = absurd (omega arith)
  search_finds (suc fuel) last o h k l free = elim (turn fuel last) [
    | inl (here, found) ↦ (last, found, here, omega arith, h)
    | inr (busy, rest) ↦
        let past : last + 1 ≤ o = beyond last o h busy free in
        let there : (last + 1) % 256 ≡ last + 1 = omega arith in
        elim rest [
          | inl (over, stopped) ↦ absurd (omega arith)
          | inr (under, next) ↦
              let (a, found, good, low, high) =
                search_finds fuel (last + 1) o past k (omega arith) free in
              (a, next ∙ ap (search fuel taken peer) there ∙ found, good, omega arith, high)
        ]
  ]

-- The search always comes to an end: it gives up, or it finds an address that is neither the
-- inviter's, nor a peer's, nor this node's own.
pub next_octet_ends :
    (taken : Taken) (peer : Ipv4Addr)
    → (next_octet taken peer ≡ some none)
      ⊎ ((a : ℕ) × (next_octet taken peer ≡ some (some a))
          × (is_free taken (candidate peer a) ≡ true))
unfolding next_octet IsFreeAt
next_octet_ends taken peer = from_start ((peer.d + 1) % 256) (omega arith)
  where
    from_start : (start : ℕ) → start ≤ 255 → Ends taken peer (search 257 taken peer start)
    from_start start h = elim (nat_eq.dec start 255) [
      | no below ↦ search-Ends taken peer 257 start (omega arith) (omega arith)
      | yes last ↦ elim (turn taken peer 256 start) [
        | inl (free, found) ↦ inr (start, found, free)
        | inr (busy, inl (over, stopped)) ↦ inl stopped
        | inr (busy, inr (under, next)) ↦
            let there : (start + 1) % 256 ≡ 0 = omega arith in
            subst (Ends taken peer) (sym (next ∙ ap (search 256 taken peer) there))
              (search-Ends taken peer 256 0 (omega arith) (omega arith))
      ]
    ]

-- Where an address above the inviter's and up to 254 is free, the search finds one, and it is none
-- above that address: so it finds the lowest.
pub next_octet_finds :
    (taken : Taken) (peer : Ipv4Addr) (o : ℕ)
    → peer.d < o
    → o ≤ 254
    → is_free taken (candidate peer o) ≡ true
    → (a : ℕ) × (next_octet taken peer ≡ some (some a))
      × (is_free taken (candidate peer a) ≡ true)
      × (peer.d < a)
      × (a ≤ o)
unfolding next_octet IsFreeAt
next_octet_finds taken peer o low high free =
    let start : (peer.d + 1) % 256 ≡ peer.d + 1 = omega arith in
    let (a, found, good, above, below) =
      search_finds taken peer 257 (peer.d + 1) o (omega arith) high (omega arith) free in
    (a, ap (search 257 taken peer) start ∙ found, good, omega arith, below)
