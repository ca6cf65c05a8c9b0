-- ===== src/IpRange.antt =====
-- pkg/apis/v1/iprange.go: ranges of addresses, both ends included.
pub mod Bounds
pub mod Size
pub mod Overlap
pub mod Parse
use Prim.Native.Char.{code}
use purelb.Base.{
  ℕ, ◌+◌, ◌-◌, ◌*◌, ◌%◌, ◌^◌, Bool, true, false, ◌&&◌, ◌||◌, List, [], ◌∷◌, take, is_nil, length,
  String, Option, none, some, leb, ◌==◌, nat_eq, if◌then◌else◌,
}
use purelb.Base.Result.{Result, ok, err}
use purelb.Net.{Ip, IpNet, Parser, to4, to16, bytes_le, bytes_lt, bytes_equal, net_contains}

pub record IpRange : Type 0 where
  pub from : Ip
  pub to : Ip

-- nl.FAMILY_V4 and nl.FAMILY_V6 are Linux's AF_INET and AF_INET6.
abbrev pub family_v4 : ℕ
family_v4 = 2

abbrev pub family_v6 : ℕ
family_v6 = 10

unfoldable pub addr_family : Ip → ℕ
unfolding to4 to16
addr_family ip =
    let wide : ℕ = if is_nil (to16 ip) then 0 else family_v6 in
    if is_nil (to4 ip) then wide else family_v4

unfoldable pub overlaps : IpRange → IpRange → Bool
overlaps r other =
    (bytes_le (to16 r.from) (to16 other.from) && bytes_le (to16 other.from) (to16 r.to))
    || (bytes_le (to16 r.from) (to16 other.to) && bytes_le (to16 other.to) (to16 r.to))

unfoldable pub contains : IpRange → Ip → Bool
contains r ip = bytes_le (to16 r.from) (to16 ip) && bytes_le (to16 ip) (to16 r.to)

unfoldable pub contained_by : IpRange → IpNet → Bool
contained_by r cidr = net_contains cidr r.from && net_contains cidr r.to

unfoldable pub family : IpRange → ℕ
unfolding addr_family
family r = addr_family r.from

-- dup makes a copy, which an immutable list does not need.
unfoldable pub first : IpRange → Ip
first r = r.from

-- The bytes after the increment, and whether it carried out of the first of them. The loop stops
-- at the first byte from the right that does not become 0.
unfoldable pub inc_carry : Ip → Bool × Ip
inc_carry [] = (true, [])
inc_carry (b ∷ bs) =
    let (carry, rest) = inc_carry bs in
    let next : ℕ = (b + 1) % 256 in if carry then (next == 0, next ∷ rest) else (false, b ∷ rest)

unfoldable pub inc : Ip → Ip
unfolding inc_carry
inc ip = (inc_carry ip).1

unfoldable pub next : IpRange → Ip → Ip
unfolding inc
next r ip =
    if bytes_lt (to16 ip) (to16 r.from) || bytes_le (to16 r.to) (to16 ip) then [] else inc ip

abbrev pub u64_mod : ℕ
u64_mod = 2 ^ 64

abbrev pub max_uint64 : ℕ
max_uint64 = 2 ^ 64 - 1

-- The loop of toInt, from the value read so far.
unfoldable pub to_int_from : ℕ → Ip → ℕ
to_int_from n [] = n
to_int_from n (b ∷ bs) = to_int_from ((n * 256 % u64_mod + b) % u64_mod) bs

unfoldable pub to_int : Ip → ℕ
unfolding to_int_from
to_int ip = to_int_from 0 ip

-- The first eight bytes are compared as the loop does. (Beside an IPv6 `from` a `to` of 4 bytes,
-- which no parser returns, would be indexed out of range there.)
unfoldable pub size : IpRange → ℕ
unfolding to_int
size r =
    if is_nil (to4 r.from) && (if bytes_equal (take 8 r.to) (take 8 r.from) then false else true)
    then max_uint64
    else ((1 + to_int (to16 r.to)) % u64_mod + u64_mod - to_int (to16 r.from)) % u64_mod

pub data ParseError : Type 0 where
  invalid_cidr invalid_range invalid_start invalid_end : ParseError

-- strings.SplitN(text, sep, 2): the text before the first separator, and the text after it.
unfoldable pub split_two : ℕ → String → String × Option String
split_two sep String.[] = (String.[], none)
split_two sep (String.◌∷◌ c s) =
    let (head, tail) = split_two sep s in
    if code c == sep then (String.[], some s) else (String.◌∷◌ c head, tail)

-- unicode.IsSpace
is_space : ℕ → Bool
is_space c =
    (leb 9 c && leb c 13)
    || (c == 32)
    || (c == 133)
    || (c == 160)
    || (c == 5760)
    || (leb 8192 c && leb c 8202)
    || (c == 8232)
    || (c == 8233)
    || (c == 8239)
    || (c == 8287)
    || (c == 12288)

trim_left : String → String
trim_left String.[] = String.[]
trim_left (String.◌∷◌ c s) = if is_space (code c) then trim_left s else String.◌∷◌ c s

trim_right : String → String
trim_right String.[] = String.[]
trim_right (String.◌∷◌ c s) = elim (trim_right s) [
  | String.[] ↦ if is_space (code c) then String.[] else String.◌∷◌ c String.[]
  | String.◌∷◌ d rest ↦ String.◌∷◌ c (String.◌∷◌ d rest)
]

unfoldable pub trim_space : String → String
unfolding is_space trim_left trim_right
trim_space s = trim_left (trim_right s)

module _ (p : Parser) where
  open p use {parse_ip, parse_cidr, last_address}

  -- The two parts of a from-to range.
  parse_ends : String → Option String → Result ParseError IpRange
  parse_ends start none = err invalid_range
  parse_ends start (some end) =
      let from = parse_ip (trim_space start) in
      let to = parse_ip (trim_space end) in
      if is_nil from
      then err invalid_start
      else if is_nil to
      then err invalid_end
      else ok (record { from = from; to = to })

  unfoldable pub parse_from_to : String → Result ParseError IpRange
  unfolding parse_ends
  parse_from_to raw = let (start, rest) = split_two b'-' raw in parse_ends start rest

  range_of_cidr : Option (Ip × IpNet) → Result ParseError IpRange
  range_of_cidr none = err invalid_cidr
  range_of_cidr (some (ip, net)) = ok (record { from = ip; to = last_address net })

  unfoldable pub parse_range_cidr : String → Result ParseError IpRange
  unfolding range_of_cidr
  parse_range_cidr cidr = range_of_cidr (parse_cidr cidr)

  -- strings.Contains(raw, "-") asks what the split found.
  unfoldable pub new_ip_range : String → Result ParseError IpRange
  unfolding parse_from_to parse_range_cidr
  new_ip_range raw = elim (split_two b'-' raw).1 [
    | none ↦ parse_range_cidr raw
    | some _ ↦ parse_from_to raw
  ]
