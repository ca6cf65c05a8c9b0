-- ===== src/Ranges.antt =====
-- The loops over a list of ranges in internal/allocator/localpool.go: which address comes after
-- another, how many there are, and whether an address is in one of them.
pub mod Walk
use purelb.Base.{ℕ, ◌+◌, ◌-◌, ◌%◌, Bool, false, ◌||◌, List, [], ◌∷◌, is_nil, if◌then◌else◌}
use purelb.Net.{Ip}
use purelb.Net.Value.{address}
use purelb.IpRange
use purelb.IpRange.{IpRange, u64_mod}

-- The address after `ip` in a list of ranges: in the first range that holds `ip`, or else where the
-- next range begins.
unfoldable pub first_of : List IpRange → Ip
first_of [] = []
first_of (r ∷ rs) = IpRange.first r

unfoldable pub next_in : List IpRange → Ip → Ip
unfolding first_of
next_in [] ip = []
next_in (r ∷ rs) ip =
    if IpRange.contains r ip
    then (if is_nil (IpRange.next r ip) then first_of rs else IpRange.next r ip)
    else next_in rs ip

unfoldable pub total_size : List IpRange → ℕ
total_size [] = 0
total_size (r ∷ rs) = (IpRange.size r + total_size rs) % u64_mod

unfoldable pub any_contains : List IpRange → Ip → Bool
any_contains [] ip = false
any_contains (r ∷ rs) ip = IpRange.contains r ip || any_contains rs ip

overlaps_one : IpRange → List IpRange → Bool
overlaps_one r [] = false
overlaps_one r (o ∷ os) = IpRange.overlaps r o || overlaps_one r os

unfoldable pub ranges_overlap : List IpRange → List IpRange → Bool
unfolding overlaps_one
ranges_overlap [] os = false
ranges_overlap (r ∷ rs) os = overlaps_one r os || ranges_overlap rs os

-- Enough rounds to see every address of a list of ranges once.
unfoldable pub walk_fuel : List IpRange → ℕ
walk_fuel [] = 1
walk_fuel (r ∷ rs) = (address r.to + 1 - address r.from) + 1 + walk_fuel rs
