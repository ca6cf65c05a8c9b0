-- ===== src/IpRange/Parse.antt =====
-- What NewIPRange accepts.
use purelb.Base.{
  ◌≡◌, ◌≢◌, inl, inr, refl, false, Option, none, some, [], String, is_nil, arith, Option-cases,
}
use purelb.Base.Result.{ok}
use purelb.Net.{Ip, IpNet, IsWide, IsAddress, Parser, IsParser}
use purelb.Net.Value.{IsWide-IsAddress}
use purelb.IpRange.{IpRange, new_ip_range, parse_ends, range_of_cidr, split_two, trim_space}
use purelb.IpRange.Bounds.{IsRange}

is_nil-ne : (ip : Ip) → is_nil ip ≡ false → ip ≢ []
is_nil-ne ip h e = ground arith

module _ (p : Parser) (good : IsParser p) where
  parse_ip-IsWide : (s : String) → is_nil (p.parse_ip s) ≡ false → IsWide (p.parse_ip s)
  parse_ip-IsWide s h = good.parse_ip-IsWide s (is_nil-ne (p.parse_ip s) h)

  parse_ends-IsWide :
      (start : String) (rest : Option String) (r : IpRange)
      → parse_ends p start rest ≡ ok r
      → IsWide r.from × IsWide r.to
  unfolding parse_ends
  parse_ends-IsWide start none r h = cc
  parse_ends-IsWide start (some end) r h =
      ground (arith, parse_ip-IsWide (trim_space start), parse_ip-IsWide (trim_space end))

  range_of_cidr-IsRange :
      (cidr : String) (found : Option (Ip × IpNet)) (r : IpRange)
      → p.parse_cidr cidr ≡ found
      → range_of_cidr p found ≡ ok r
      → IsWide r.from × IsAddress r.to
  unfolding range_of_cidr
  range_of_cidr-IsRange cidr none r e h = cc
  range_of_cidr-IsRange cidr (some (ip, net)) r e h =
      ground (arith, good.parse_cidr-IsWide cidr e, good.last_address-IsAddress cidr e)

  new_ip_range_ends :
      (raw : String) (r : IpRange) → new_ip_range p raw ≡ ok r → IsWide r.from × IsAddress r.to
  unfolding new_ip_range
  new_ip_range_ends raw r h = elim (Option-cases (split_two b'-' raw).1) [
    | inl cidr ↦ range_of_cidr-IsRange raw (p.parse_cidr raw) r refl (rw (cidr, new_ip_range) at h)
    | inr (_, dash) ↦
        let wide =
          parse_ends-IsWide (split_two b'-' raw).0 (split_two b'-' raw).1 r
            (rw (dash, new_ip_range) at h) in
        (wide.0, IsWide-IsAddress r.to wide.1)
  ]

  -- An accepted range begins with an address of 16 bytes and ends with an address.
  pub new_ip_range-IsRange :
      (raw : String) {r : IpRange} → new_ip_range p raw ≡ ok r → IsWide r.from × IsRange r
  new_ip_range-IsRange raw {r} h =
      let (wide, long) = new_ip_range_ends raw r h in
      (wide, record { from_ok = IsWide-IsAddress r.from wide; to_ok = long })
