-- ===== src/LocalPool/Search.antt =====
-- The search of assignFamily in internal/allocator/localpool.go, and what it comes to.
use native.Mathlib.Decide.{dec_le}
use purelb.Base.{
  ℕ, zero, suc, ◌≤◌, ◌<◌, ◌≡◌, ◌≢◌, refl, ap, ◌∙◌, ◌⊎◌, inl, inr, true, false, List, [], ◌∷◌,
  is_nil, none, some, All, arith, Option-cases,
}
use purelb.Net.{Ip, IsWide, Parser}
use purelb.IpRange.{IpRange, addr_family}
use purelb.Ranges.{first_of, next_in, any_contains, walk_fuel}
use purelb.Ranges.Walk.{
  IsOrdered, Disjoint, total, rank, rank-le, rank-injective, first_of-Starts, next_in-Steps,
  IsWide-is_nil,
}
use purelb.Service.{Service, add_ingress}
use purelb.Pool.{Error, no_available_addresses}
use purelb.LocalPool.{LocalPool, Outcome, ranges_of, first, next, available, assign, notify}
use purelb.LocalPool.Assign.{assign_from, assign_family}

module _ (net : Parser) (p : LocalPool) (ip : Ip) (svc : Service) where
  -- A failing Assign changes nothing.
  pub assign-some :
      {e : Error} → available net p ip svc ≡ some e → assign net p ip svc ≡ (some e, p, svc)
  unfolding assign
  assign-some h = rw h

  -- A successful one adds the address to the service's ingress and notifies the pool of it.
  pub assign-none :
      available net p ip svc ≡ none
      → assign net p ip svc ≡ (
        none,
        notify net p (add_ingress svc (net.ip_string ip)),
        add_ingress svc (net.ip_string ip),
      )
  unfolding assign
  assign-none h = rw h

walk_fuel-lt : (rs : List IpRange) → total rs < walk_fuel rs
unfolding walk_fuel
walk_fuel-lt [] = omega arith
walk_fuel-lt (r ∷ rs) = omega (arith, walk_fuel-lt rs)

-- The ranges of a family in a pool that the search can walk: ordered, with no address in two of
-- them, and of that family.
pub record IsSearchable (p : LocalPool) (family : ℕ) : Type 0 where
  pub ordered : All IsOrdered (ranges_of p family)
  pub disjoint : Disjoint (ranges_of p family)
  pub of_family :
      (ip : Ip) → IsWide ip → any_contains (ranges_of p family) ip ≡ true → addr_family ip ≡ family

module _ (net : Parser) (family : ℕ) (p : LocalPool) (svc : Service) where
  assign_from-nil :
      (fuel : ℕ)
      → 0 < fuel
      → assign_from net fuel family p [] svc ≡ (some (no_available_addresses family), p, svc)
  unfolding assign_from
  assign_from-nil zero h = absurd (omega arith)
  assign_from-nil (suc fuel) h = refl

  pub assign_from-taken :
      (fuel : ℕ) (pos : Ip)
      → is_nil pos ≡ false
      → available net p pos svc ≡ none
      → assign_from net (suc fuel) family p pos svc ≡ assign net p pos svc
  unfolding assign_from
  assign_from-taken fuel pos more h = rw more (rw (assign-none net p pos svc h))

  pub assign_from-skip :
      (fuel : ℕ) (pos : Ip) {e : Error}
      → is_nil pos ≡ false
      → available net p pos svc ≡ some e
      → assign_from net (suc fuel) family p pos svc ≡ assign_from net fuel family p (next p pos) svc
  unfolding assign_from
  assign_from-skip fuel pos more h = rw more (rw (assign-some net p pos svc h))

module _ (net : Parser) (family : ℕ) (p : LocalPool) (svc : Service)
    (good : IsSearchable p family) where
  rs : List IpRange
  rs = ranges_of p family

  next-next_in : (ip : Ip) → IsWide ip → any_contains rs ip ≡ true → next p ip ≡ next_in rs ip
  unfolding next rs
  next-next_in ip w h = rw (good.of_family ip w h)

  -- The search took an available address of the ranges, or it failed, the pool and the service are
  -- as they were, and no address from a position on is available.
  abbrev Searched : ℕ → Outcome → Type 0
  Searched left out =
      ((ip : Ip) × IsWide ip
        × (any_contains rs ip ≡ true)
        × (available net p ip svc ≡ none)
        × (out ≡ assign net p ip svc))
      ⊎ ((out ≡ (some (no_available_addresses family), p, svc))
          × ((ip : Ip)
              → IsWide ip
              → any_contains rs ip ≡ true
              → rank rs ip ≤ left
              → available net p ip svc ≢ none))

  -- An address with as many to come as the position is the position.
  at_position :
      (pos ip : Ip)
      → IsWide pos
      → any_contains rs pos ≡ true
      → IsWide ip
      → any_contains rs ip ≡ true
      → rank rs ip ≡ rank rs pos
      → ip ≡ pos
  unfolding rs
  at_position pos ip wp hp wi hi e =
      rank-injective rs ip pos good.ordered good.disjoint wi wp hi hp e

  one_more :
      (pos : Ip) (left : ℕ)
      → IsWide pos
      → any_contains rs pos ≡ true
      → rank rs pos ≡ suc left
      → available net p pos svc ≢ none
      → ((ip : Ip)
          → IsWide ip
          → any_contains rs ip ≡ true
          → rank rs ip ≤ left
          → available net p ip svc ≢ none)
      → (ip : Ip) → IsWide ip
      → any_contains rs ip ≡ true
      → rank rs ip ≤ rank rs pos
      → available net p ip svc ≢ none
  one_more pos left wp hp e busy below ip wi hi le a = elim (dec_le (rank rs ip) left) [
    | yes small ↦ below ip wi hi small a
    | no large ↦
        let same : ip ≡ pos = at_position pos ip wp hp wi hi (omega arith) in busy (rw same at a)
  ]

  assign_from-Searched :
      (fuel : ℕ) (pos : Ip)
      → IsWide pos
      → any_contains rs pos ≡ true
      → rank rs pos < fuel
      → Searched (rank rs pos) (assign_from net fuel family p pos svc)
  unfolding rs
  assign_from-Searched zero pos w h lt = absurd (omega arith)
  assign_from-Searched (suc fuel) pos w h lt =
      let more = IsWide-is_nil pos w in
      elim (Option-cases (available net p pos svc)) [
        | inl a ↦ inl (pos, w, h, a, assign_from-taken net family p svc fuel pos more a)
        | inr (e, a) ↦
            let n = next_in rs pos in
            let busy : available net p pos svc ≢ none = λ b. cc in
            let skip : assign_from net (suc fuel) family p pos svc
                ≡ assign_from net fuel family p n svc =
              assign_from-skip net family p svc fuel pos more a
              ∙ ap (λ m. assign_from net fuel family p m svc) (next-next_in pos w h) in
            elim (next_in-Steps rs pos good.ordered good.disjoint w h) [
              | inl (nil, one) ↦ inr (
                skip
                    ∙ ap (λ m. assign_from net fuel family p m svc) nil
                    ∙ assign_from-nil net family p svc fuel (omega (arith, one)),
                one_more pos 0 w h (omega (arith, one)) busy
                    (λ ip wi hi le. absurd (omega (arith, rank-le rs ip good.ordered wi hi, le))),
              )
              | inr (wn, hn, e') ↦ elim (assign_from-Searched fuel n wn hn (omega (arith, e'))) [
                | inl (ip, wi, hi, av, eq) ↦ inl (ip, wi, hi, av, skip ∙ eq)
                | inr (eq, below) ↦ inr (skip ∙ eq, one_more pos (rank rs n) w h e' busy below)
              ]
            ]
      ]

-- One of two results: an available address of the ranges is assigned, or it is reported that there
-- is none, neither the pool nor the service is changed, and no address of the ranges is available.
abbrev pub Assigns : Parser → ℕ → LocalPool → Service → Outcome → Type 0
Assigns net family p svc out =
    ((ip : Ip) × IsWide ip
      × (any_contains (ranges_of p family) ip ≡ true)
      × (available net p ip svc ≡ none)
      × (out ≡ assign net p ip svc))
    ⊎ ((out ≡ (some (no_available_addresses family), p, svc))
        × ((ip : Ip)
            → IsWide ip
            → any_contains (ranges_of p family) ip ≡ true
            → available net p ip svc ≢ none))

-- Where the ranges of a family are ordered, of that family, and have no address in two of them,
-- assignFamily ends: it has assigned an available address of the ranges, or it reports that there
-- is none, has changed neither the pool nor the service, and no address of the ranges is available.
pub assign_family-Assigns :
    (net : Parser) (family : ℕ) (p : LocalPool) (svc : Service)
    → IsSearchable p family
    → Assigns net family p svc (assign_family net p family svc)
unfolding assign_family first rs
assign_family-Assigns net family p svc good =
    elim (first_of-Starts (ranges_of p family) good.ordered) [
      | inl (nil, none_at_all) ↦ inr (
        ap (λ m. assign_from net (walk_fuel (ranges_of p family)) family p m svc) nil
            ∙ assign_from-nil net family p svc _ (omega (arith, walk_fuel-lt (ranges_of p family))),
        λ ip wi hi a.
            absurd (omega (arith, rank-le (ranges_of p family) ip good.ordered wi hi, none_at_all)),
      )
      | inr (w, h, all) ↦
          elim (assign_from-Searched net family p svc good (walk_fuel (ranges_of p family))
            (first_of (ranges_of p family)) w h
            (omega (arith, all, walk_fuel-lt (ranges_of p family)))) [
              | inl found ↦ inl found
              | inr (eq, below) ↦ inr (
                eq,
                λ ip wi hi a.
                    below ip wi hi
                      (omega (arith, all, rank-le (ranges_of p family) ip good.ordered wi hi)) a,
              )
            ]
    ]
