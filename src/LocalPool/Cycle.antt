-- ===== src/LocalPool/Cycle.antt =====
-- assignFamily of internal/allocator/localpool.go over two ranges of one family of which the
-- second begins inside of the first.
use purelb.Base.{
  ℕ, zero, suc, ◌≡◌, ◌≢◌, refl, ap, ◌∙◌, inl, inr, true, List, ◌∷◌, none, some, Option-cases,
}
use purelb.Net.{Ip, IsWide, Parser}
use purelb.IpRange
use purelb.IpRange.{IpRange, addr_family}
use purelb.Ranges.{first_of, next_in}
use purelb.Ranges.Walk.{IsOrdered, step_in, IsWide-is_nil, next_in-exhausted, next_in-inside}
use purelb.Service.{Service}
use purelb.Pool.{out_of_fuel}
use purelb.LocalPool.{LocalPool, ranges_of, next, available}
use purelb.LocalPool.Assign.{assign_from}
use purelb.LocalPool.Search.{assign_from-skip}

module _ (r s : IpRange) (rs : List IpRange) (o : IsOrdered r) (begins : IsOrdered s) where
  first_of-cons : first_of (s ∷ rs) ≡ s.from
  unfolding first_of IpRange.first
  first_of-cons = refl

  stays :
      IpRange.contains r s.from ≡ true
      → (ip : Ip) → IsWide ip
      → IpRange.contains r ip ≡ true
      → IsWide (next_in (r ∷ s ∷ rs) ip) × (IpRange.contains r (next_in (r ∷ s ∷ rs) ip) ≡ true)
  stays inside ip w h = elim (step_in r o ip w h) [
    | inl (nil, _) ↦ rw (next_in-exhausted r (s ∷ rs) ip h nil, first_of-cons) (begins.wide, inside)
    | inr (wide, here, _, _) ↦
        rw (next_in-inside r (s ∷ rs) ip h (IsWide-is_nil _ wide)) (wide, here)
  ]

  module _ (net : Parser) (family : ℕ) (p : LocalPool) (svc : Service)
      (ranges : ranges_of p family ≡ r ∷ s ∷ rs)
      (of_family : (ip : Ip)
        → IsWide ip
        → IpRange.contains r ip ≡ true
        → addr_family ip ≡ family) where
    next-stays :
        (ip : Ip) → IsWide ip → IpRange.contains r ip ≡ true → next p ip ≡ next_in (r ∷ s ∷ rs) ip
    unfolding next
    next-stays ip w h = rw (of_family ip w h) (ap (λ l. next_in l ip) ranges)

    -- If the second of a family's ranges begins inside of the first, and no address of the first is
    -- available, then the search runs on for ever from each of them: it ends for no bound on its
    -- rounds.
    pub assign_from-endless :
        IpRange.contains r s.from ≡ true
        → ((ip : Ip) → IsWide ip → IpRange.contains r ip ≡ true → available net p ip svc ≢ none)
        → (fuel : ℕ) (pos : Ip) → IsWide pos
        → IpRange.contains r pos ≡ true
        → assign_from net fuel family p pos svc ≡ (some out_of_fuel, p, svc)
    unfolding assign_from
    assign_from-endless inside busy zero pos w h = refl
    assign_from-endless inside busy (suc fuel) pos w h =
        elim (Option-cases (available net p pos svc)) [
          | inl a ↦ absurd (busy pos w h a)
          | inr (e, a) ↦
              let (wn, hn) = stays inside pos w h in
              assign_from-skip net family p svc fuel pos (IsWide-is_nil pos w) a
              ∙ ap (λ n. assign_from net fuel family p n svc) (next-stays pos w h)
              ∙ assign_from-endless inside busy fuel _ wn hn
        ]
