-- ===== src/Tests/Ranges.antt =====
-- Ranges of pkg/apis/v1/iprange.go at concrete ends.
use purelb.Base.{
  ◌≡◌, ◌↔◌, ◌⊎◌, ◌≤◌, ◌<◌, ◌+◌, ◌-◌, ◌%◌, refl, inl, inr, true, [], ◌∷◌, arith, leb→le, Bool-cases,
  nat_beq, nat_beq_iff, if◌then◌else◌, ◌==◌, nat_eq, ◌/◌,
}
use purelb.Net.{Ip, IsWide, to4, to16}
use purelb.Net.Value.{value, address, IsWide-IsAddress}
use purelb.IpRange
use purelb.IpRange.{IpRange, max_uint64, u64_mod, new_ip_range}
use purelb.IpRange.Bounds.{IsRange, lo, hi, contains_iff, next_lem}
use purelb.IpRange.Size.{size_v6}
use purelb.IpRange.Overlap.{Common, Encloses, overlaps_iff}
use purelb.Ranges.Walk.{address-injective, IsOrdered}
use purelb.Tests.Sample.{v4, v6, wide, pair}

pub wide-IsRange : (r : IpRange) → IsWide r.from → IsWide r.to → IsRange r
wide-IsRange r f t = record { from_ok = IsWide-IsAddress r.from f; to_ok = IsWide-IsAddress r.to t }

pub pair-IsRange : IsRange pair
pair-IsRange = wide-IsRange pair (wide (v4 10 0 0 1) refl refl) (wide (v4 10 0 0 2) refl refl)

-- 10.0.0.0 to 10.0.0.255.
abbrev around : IpRange
around = record { from = v4 10 0 0 0; to = v4 10 0 0 255 }

around-IsRange : IsRange around
around-IsRange = wide-IsRange around (wide (v4 10 0 0 0) refl refl) (wide (v4 10 0 0 255) refl refl)

pub pair-le : lo pair ≤ hi pair
unfolding value to16
pair-le = leb→le (lo pair) (hi pair) refl

around-le : lo around ≤ hi around
unfolding value to16
around-le = leb→le (lo around) (hi around) refl

around-Encloses : Encloses around pair
unfolding value to16
around-Encloses = (leb→le (lo around + 1) (lo pair) refl, leb→le (hi pair + 1) (hi around) refl)

pair_next : hi pair ≡ lo pair + 1
unfolding value to16
pair_next = refl

-- Its two addresses.
pub pair_cases :
    (ip : Ip)
    → IsWide ip
    → IpRange.contains pair ip ≡ true
    → (ip ≡ v4 10 0 0 1) ⊎ (ip ≡ v4 10 0 0 2)
pair_cases ip w h =
    let (low, high) = (contains_iff pair pair-IsRange ip (IsWide-IsAddress ip w)).0 h in
    elim (Bool-cases (nat_beq (address ip) (lo pair))) [
      | inl e ↦ inl (
          address-injective ip (v4 10 0 0 1) w (wide (v4 10 0 0 1) refl refl)
            ((nat_beq_iff (address ip) (lo pair)).0 e))
      | inr e ↦ inr (
          address-injective ip (v4 10 0 0 2) w (wide (v4 10 0 0 2) refl refl)
            (ground (arith, pair_next)))
    ]

pub pair-IsOrdered : IsOrdered pair
pair-IsOrdered = record {
  range = pair-IsRange;
  wide = wide (v4 10 0 0 1) refl refl;
  ordered = pair-le;
}

next_lem_example :
    ((IpRange.next pair (v4 10 0 0 1) ≡ [])
      × ((address (v4 10 0 0 1) < lo pair) ⊎ (hi pair ≤ address (v4 10 0 0 1))))
    ⊎ (IsWide (IpRange.next pair (v4 10 0 0 1))
        × (address (IpRange.next pair (v4 10 0 0 1)) ≡ address (v4 10 0 0 1) + 1)
        × (lo pair ≤ address (v4 10 0 0 1))
        × (address (v4 10 0 0 1) < hi pair))
next_lem_example = next_lem pair pair-IsRange (v4 10 0 0 1) (wide (v4 10 0 0 1) refl refl)

overlaps_iff_example :
    (IpRange.overlaps pair around ≡ true) ↔ (Common pair around × (¬ Encloses around pair))
overlaps_iff_example = overlaps_iff pair around pair-IsRange around-IsRange pair-le around-le

abbrev six : IpRange
six = record { from = v6 1; to = v6 9 }

six-IsRange : IsRange six
six-IsRange = wide-IsRange six (wide (v6 1) refl refl) (wide (v6 9) refl refl)

six-le : lo six ≤ hi six
unfolding value to16
six-le = leb→le (lo six) (hi six) refl

-- The whole of a network with 64 bits for its hosts.
abbrev block : IpRange
block = record {
  from = v6 0;
  to = 253 ∷ 0 ∷ 0 ∷ 0 ∷ 0 ∷ 0 ∷ 0 ∷ 0 ∷ 255 ∷ 255 ∷ 255 ∷ 255 ∷ 255 ∷ 255 ∷ 255 ∷ 255 ∷ [];
}

size_v6_example :
    IpRange.size six
    ≡ (if hi six / u64_mod == lo six / u64_mod then (hi six - lo six + 1) % u64_mod else max_uint64)
unfolding to4
size_v6_example =
    size_v6 six six-IsRange (wide (v6 1) refl refl) (wide (v6 9) refl refl) refl six-le
