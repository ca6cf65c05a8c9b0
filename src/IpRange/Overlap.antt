-- ===== src/IpRange/Overlap.antt =====
-- IPRange.Overlaps against its contract: the ranges have an address in common.
use purelb.Base.{◌≤◌, ◌<◌, ◌≡◌, ◌↔◌, ◌⊎◌, inl, inr, true, false, ◌&&◌, ◌||◌, leb, arith}
use purelb.Net.{Ip, IsAddress}
use purelb.Net.Value.{address, to16_le}
use purelb.IpRange.{IpRange, contains, overlaps}
use purelb.IpRange.Bounds.{IsRange, lo, hi, contains_iff}

-- An address that is in both ranges.
abbrev pub Common : IpRange → IpRange → Type 0
Common r other = (ip : Ip) × IsAddress ip × (contains r ip ≡ true) × (contains other ip ≡ true)

-- `other` begins below `r` and ends above it.
abbrev pub Encloses : IpRange → IpRange → Type 0
Encloses other r = (lo other < lo r) × (hi r < hi other)

module _ (r other : IpRange) (ok : IsRange r) (other_ok : IsRange other) where
  overlaps-leb : overlaps r other ≡ (
      (leb (lo r) (lo other) && leb (lo other) (hi r))
      || (leb (lo r) (hi other) && leb (hi other) (hi r)))
  unfolding overlaps
  overlaps-leb = rw (
    to16_le r.from other.from ok.from_ok other_ok.from_ok,
    to16_le other.from r.to other_ok.from_ok ok.to_ok,
    to16_le r.from other.to ok.from_ok other_ok.to_ok,
    to16_le other.to r.to other_ok.to_ok ok.to_ok,
  )

  overlaps_ends :
      overlaps r other ≡ true
      → ((lo r ≤ lo other) × (lo other ≤ hi r)) ⊎ ((lo r ≤ hi other) × (hi other ≤ hi r))
  overlaps_ends h = ground (arith, overlaps-leb)

  -- An address of `other` whose number lies between the ends of `r` is common.
  Common-at :
      (ip : Ip)
      → IsAddress ip
      → (lo r ≤ address ip) × (address ip ≤ hi r)
      → (lo other ≤ address ip) × (address ip ≤ hi other)
      → Common r other
  Common-at ip h inside there =
      (ip, h, (contains_iff r ok ip h).1 inside, (contains_iff other other_ok ip h).1 there)

  module _ (ordered : lo r ≤ hi r) (other_ordered : lo other ≤ hi other) where
    overlaps-Common : overlaps r other ≡ true → Common r other
    overlaps-Common h = elim (overlaps_ends h) [
      | inl start ↦ Common-at other.from other_ok.from_ok start (omega arith)
      | inr end ↦ Common-at other.to other_ok.to_ok end (omega arith)
    ]

    Encloses-overlaps : Encloses other r → overlaps r other ≡ false
    Encloses-overlaps h = ground (arith, overlaps-leb)

    Common-overlaps : Common r other → ¬ Encloses other r → overlaps r other ≡ true
    Common-overlaps (ip, h, inside, there) free =
        let i = (contains_iff r ok ip h).0 inside in
        let t = (contains_iff other other_ok ip h).0 there in ground (arith, overlaps-leb)

    -- Of two ordered ranges, Overlaps reports exactly those that have an address in common where
    -- the second does not begin below the first and end above it.
    pub overlaps_iff : (overlaps r other ≡ true) ↔ (Common r other × (¬ Encloses other r))
    overlaps_iff =
        (λ h. (overlaps-Common h, λ e. cc (h, Encloses-overlaps e)), λ c. Common-overlaps c.0 c.1)

    -- So an ordered range that begins above another one and ends below it has an address in common
    -- with it, and is not reported to overlap with it.
    pub overlaps_misses : Encloses other r → Common r other × (overlaps r other ≡ false)
    overlaps_misses h = (
      Common-at r.from ok.from_ok (omega (arith, ordered)) (omega (arith, ordered, h)),
      Encloses-overlaps h,
    )
