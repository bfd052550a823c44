-- ===== src/Routes/Longest.antt =====
-- Longest-prefix matching: the sort of `load_subnet_routes` in src/peer.rs and the search of
-- `find_subnet_match`.
use wolf_net.Routes.{Option}
use Prim.Native.Nat.{bit_and}
use native.Mathlib.Decide.{ℕ_discrete}
use native.Mathlib.Nat.{le_refl}
use wolf_net.Shared.{
  ℕ, ◌^◌, ◌≤◌, ◌<◌, ◌≡◌, ◌⊎◌, inl, inr, refl, arith, leb, List, [], ◌∷◌, none, some, Bool-cases,
  nat_eq,
}
use wolf_net.Net.{Ipv4Addr}
use wolf_net.Routes.{Cidr, mask, first_match, place, sort_by_prefix}
use wolf_net.Routes.Mask.{SameNetwork, mask_test_iff}

module _ {A : Type 0} where
  abbrev pub All : (Cidr A → Type 0) → List (Cidr A) → Type 0
  All P [] = Unit
  All P (e ∷ table) = P e × All P table

  abbrev pub Elem : Cidr A → List (Cidr A) → Type 0
  Elem e [] = ⊥
  Elem e (f ∷ table) = (e ≡ f) ⊎ Elem e table

  abbrev pub IsSorted : List (Cidr A) → Type 0
  IsSorted [] = Unit
  IsSorted (e ∷ table) = All (λ f. f.1 ≤ e.1) table × IsSorted table

  All-mono :
      (n m : ℕ) (table : List (Cidr A))
      → n ≤ m
      → All (λ f. f.1 ≤ n) table
      → All (λ f. f.1 ≤ m) table
  All-mono n m [] h a = tt
  All-mono n m (e ∷ table) h a = (omega arith, All-mono n m table h a.1)

  place-All :
      (P : Cidr A → Type 0) (e : Cidr A) (table : List (Cidr A))
      → P e
      → All P table
      → All P (place e table)
  unfolding place
  place-All P e [] he a = (he, tt)
  place-All P e (f ∷ table) he a = elim (Bool-cases (leb f.1 e.1)) [
    | inl h ↦ rw h (he, a)
    | inr h ↦ rw h (a.0, place-All P e table he a.1)
  ]

  All-place :
      (P : Cidr A → Type 0) (e : Cidr A) (table : List (Cidr A))
      → All P (place e table)
      → P e × All P table
  unfolding place
  All-place P e [] a = a
  All-place P e (f ∷ table) a = elim (Bool-cases (leb f.1 e.1)) [
    | inl h ↦ ground arith
    | inr h ↦ ground (arith, All-place P e table)
  ]

  Elem-place :
      (g e : Cidr A) (table : List (Cidr A)) → Elem g (place e table) → (g ≡ e) ⊎ Elem g table
  unfolding place
  Elem-place g e [] h = h
  Elem-place g e (f ∷ table) h = elim (Bool-cases (leb f.1 e.1)) [
    | inl t ↦ rw t at h
    | inr t ↦ ground (arith, Elem-place g e table)
  ]

  place-IsSorted : (e : Cidr A) (table : List (Cidr A)) → IsSorted table → IsSorted (place e table)
  unfolding place
  place-IsSorted e [] s = (tt, tt)
  place-IsSorted e (f ∷ table) s = elim (Bool-cases (leb f.1 e.1)) [
    | inl h ↦ let low : f.1 ≤ e.1 = ground arith in rw h ((low, All-mono f.1 e.1 table low s.0), s)
    | inr h ↦
        rw h (place-All (λ g. g.1 ≤ f.1) e table (ground arith) s.0, place-IsSorted e table s.1)
  ]

  -- The loaded table has its longest prefixes first.
  pub sort_by_prefix-IsSorted : (table : List (Cidr A)) → IsSorted (sort_by_prefix table)
  unfolding sort_by_prefix
  sort_by_prefix-IsSorted [] = tt
  sort_by_prefix-IsSorted (e ∷ table) =
      place-IsSorted e (sort_by_prefix table) (sort_by_prefix-IsSorted table)

  pub sort_by_prefix-All :
      (P : Cidr A → Type 0) (table : List (Cidr A)) → All P table → All P (sort_by_prefix table)
  unfolding sort_by_prefix
  sort_by_prefix-All P [] a = tt
  sort_by_prefix-All P (e ∷ table) a =
      place-All P e (sort_by_prefix table) a.0 (sort_by_prefix-All P table a.1)

  pub All-sort_by_prefix :
      (P : Cidr A → Type 0) (table : List (Cidr A)) → All P (sort_by_prefix table) → All P table
  unfolding sort_by_prefix
  All-sort_by_prefix P [] a = tt
  All-sort_by_prefix P (e ∷ table) a =
      let (he, rest) = All-place P e (sort_by_prefix table) a in
      (he, All-sort_by_prefix P table rest)

  pub Elem-sort_by_prefix :
      (g : Cidr A) (table : List (Cidr A)) → Elem g (sort_by_prefix table) → Elem g table
  unfolding sort_by_prefix
  Elem-sort_by_prefix g [] h = h
  Elem-sort_by_prefix g (e ∷ table) h = elim (Elem-place g e (sort_by_prefix table) h) [
    | inl here ↦ inl here
    | inr there ↦ inr (Elem-sort_by_prefix g table there)
  ]

module _ {A : Type 0} (w : ℕ) (to_number : A → ℕ) where
  -- The route's network holds the address.
  abbrev pub Holds : ℕ → Cidr A → Type 0
  Holds dest e = SameNetwork w e.1 dest (to_number e.0)

  abbrev pub Fits : Cidr A → Type 0
  Fits e = (e.1 ≤ w) × (to_number e.0 < 2 ^ w)

  -- A most specific route for the address, which leads to this gateway.
  abbrev pub IsBest : ℕ → List (Cidr A) → Ipv4Addr → Type 0
  IsBest dest table gw =
      (e : Cidr A) × Elem e table
      × Holds dest e
      × (e.2 ≡ gw)
      × All (λ f. Holds dest f → f.1 ≤ e.1) table

  -- The next hop of an address under a table: a best route's, or none where no route holds it.
  abbrev pub IsNextHop : ℕ → List (Cidr A) → Option Ipv4Addr → Type 0
  IsNextHop dest table none = All (λ f. ¬ Holds dest f) table
  IsNextHop dest table (some gw) = IsBest dest table gw

  All-below :
      (dest n : ℕ) (table : List (Cidr A))
      → All (λ f. f.1 ≤ n) table
      → All (λ f. Holds dest f → f.1 ≤ n) table
  All-below dest n [] a = tt
  All-below dest n (e ∷ table) a = (λ _. a.0, All-below dest n table a.1)

  first_match-some :
      (dest : ℕ) (table : List (Cidr A)) (gw : Ipv4Addr)
      → dest < 2 ^ w
      → All Fits table
      → IsSorted table
      → first_match w to_number dest table ≡ some gw
      → IsBest dest table gw
  unfolding first_match
  first_match-some dest [] gw hd fits s h = absurd (ground arith)
  first_match-some dest ((net, p, g) ∷ table) gw hd fits s h =
      let test = mask_test_iff w p dest (to_number net) fits.0.0 hd fits.0.1 in
      elim (ℕ_discrete (bit_and dest (mask w p)) (bit_and (to_number net) (mask w p))) [
        | yes hit ↦ (
          (net, p, g),
          inl refl,
          test.0 hit,
          ground arith,
          (λ _. le_refl p, All-below dest p table s.0),
        )
        | no miss ↦
            let (e, at, holds, leads, best) =
              first_match-some dest table gw hd fits.1 s.1 (ground arith) in
            (e, inr at, holds, leads, (λ inside. absurd (miss (test.1 inside)), best))
      ]

  first_match-none :
      (dest : ℕ) (table : List (Cidr A))
      → dest < 2 ^ w
      → All Fits table
      → first_match w to_number dest table ≡ none
      → All (λ f. ¬ Holds dest f) table
  unfolding first_match
  first_match-none dest [] hd fits h = tt
  first_match-none dest ((net, p, g) ∷ table) hd fits h =
      let test = mask_test_iff w p dest (to_number net) fits.0.0 hd fits.0.1 in
      elim (ℕ_discrete (bit_and dest (mask w p)) (bit_and (to_number net) (mask w p))) [
        | yes hit ↦ absurd (ground arith)
        | no miss ↦
            (λ inside. miss (test.1 inside), first_match-none dest table hd fits.1 (ground arith))
      ]

  -- On a loaded table the search returns the gateway of a route that holds the address, and no
  -- other route that holds it has a longer prefix; if it returns nothing, no route holds it.
  pub longest_prefix :
      (dest : ℕ) (table : List (Cidr A))
      → dest < 2 ^ w
      → All Fits table
      → ((gw : Ipv4Addr)
          → first_match w to_number dest (sort_by_prefix table) ≡ some gw
          → IsBest dest table gw)
        × (first_match w to_number dest (sort_by_prefix table) ≡ none
            → All (λ f. ¬ Holds dest f) table)
  longest_prefix dest table hd fits =
      let fits' = sort_by_prefix-All Fits table fits in
      (
        λ gw h.
            let (e, at, holds, leads, best) =
              first_match-some dest (sort_by_prefix table) gw hd fits'
                (sort_by_prefix-IsSorted table) h in
            (
              e,
              Elem-sort_by_prefix e table at,
              holds,
              leads,
              All-sort_by_prefix (λ f. Holds dest f → f.1 ≤ e.1) table best,
            ),
        λ h.
            All-sort_by_prefix (λ f. ¬ Holds dest f) table
              (first_match-none dest (sort_by_prefix table) hd fits' h),
      )
