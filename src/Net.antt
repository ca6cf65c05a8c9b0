-- ===== src/Net.antt =====
-- Go's net.IP as the program uses it: a slice of 4 or 16 bytes, with nil as the empty slice.
-- To4, To16 and bytes.Compare are those of Go's standard library.
pub mod Value
pub mod V4
use Prim.Native.Nat.{bit_and}
use purelb.Base.{
  String, Option, some, ◌≢◌, is_nil, ℕ, ◌≡◌, ◌⊎◌, Bool, true, false, ◌&&◌, ◌<◌, List, [], ◌∷◌, ◌++◌,
  length, take, drop, All, ltb, ◌==◌, nat_eq, if◌then◌else◌,
}

abbrev pub Ip : Type 0
Ip = List ℕ

-- net.v4InV6Prefix
abbrev pub v4_in_v6_prefix : Ip
v4_in_v6_prefix = 0 ∷ 0 ∷ 0 ∷ 0 ∷ 0 ∷ 0 ∷ 0 ∷ 0 ∷ 0 ∷ 0 ∷ 255 ∷ 255 ∷ []

-- bytes.Equal
unfoldable pub bytes_equal : List ℕ → List ℕ → Bool
bytes_equal [] [] = true
bytes_equal [] (c ∷ cs) = false
bytes_equal (b ∷ bs) [] = false
bytes_equal (b ∷ bs) (c ∷ cs) = (b == c) && bytes_equal bs cs

-- bytes.Compare(a, b) <= 0 and bytes.Compare(a, b) < 0: lexicographic order.
unfoldable pub bytes_le : List ℕ → List ℕ → Bool
bytes_le [] cs = true
bytes_le (b ∷ bs) [] = false
bytes_le (b ∷ bs) (c ∷ cs) = if ltb b c then true else if b == c then bytes_le bs cs else false

unfoldable pub bytes_lt : List ℕ → List ℕ → Bool
unfolding bytes_le
bytes_lt a b = if bytes_le b a then false else true

-- IP.To4: nil unless the address is an IPv4 address in either form.
unfoldable pub to4 : Ip → Ip
unfolding bytes_equal
to4 ip =
    if length ip == 4
    then ip
    else if (length ip == 16) && bytes_equal (take 12 ip) v4_in_v6_prefix
    then drop 12 ip
    else []

-- IP.To16: nil unless the slice has 4 or 16 bytes.
unfoldable pub to16 : Ip → Ip
to16 ip = if length ip == 4 then v4_in_v6_prefix ++ ip else if length ip == 16 then ip else []

abbrev pub IsByte : ℕ → Type 0
IsByte b = b < 256

-- What net.ParseIP and net.ParseCIDR return: 16 bytes, for IPv4 too.
pub record IsWide (ip : Ip) : Type 0 where
  pub long : length ip ≡ 16
  pub bytes : All IsByte ip

-- What a mask or go-cidr returns as well: 4 or 16 bytes.
pub record IsAddress (ip : Ip) : Type 0 where
  pub long : (length ip ≡ 4) ⊎ (length ip ≡ 16)
  pub bytes : All IsByte ip

-- IP.Equal: an IPv4 address equals its 16-byte form.
unfoldable pub ip_equal : Ip → Ip → Bool
unfolding bytes_equal
ip_equal a b =
    if length a == length b
    then bytes_equal a b
    else if (length a == 4) && (length b == 16)
    then bytes_equal (take 12 b) v4_in_v6_prefix && bytes_equal a (drop 12 b)
    else if (length a == 16) && (length b == 4)
    then bytes_equal (take 12 a) v4_in_v6_prefix && bytes_equal (drop 12 a) b
    else false

-- net.IPNet
pub record IpNet : Type 0 where
  pub ip : Ip
  pub mask : List ℕ

-- networkNumberAndMask: the address and the mask in one length, both nil if they do not fit.
network_number : Ip → Ip
unfolding to4
network_number ip =
    let short = to4 ip in if is_nil short then (if length ip == 16 then ip else []) else short

network_mask : Ip → List ℕ → List ℕ
network_mask number mask =
    if length mask == 4
    then (if length number == 4 then mask else [])
    else if length mask == 16
    then (if length number == 4 then drop 12 mask else mask)
    else []

same_under : List ℕ → List ℕ → List ℕ → Bool
same_under (n ∷ ns) (m ∷ ms) (b ∷ bs) = (bit_and n m == bit_and b m) && same_under ns ms bs
same_under _ _ _ = true

-- IPNet.Contains
unfoldable pub net_contains : IpNet → Ip → Bool
unfolding to4 network_number network_mask same_under
net_contains n ip =
    let number = network_number n.ip in
    let mask = network_mask number n.mask in
    let short = to4 ip in
    let x = if is_nil short then ip else short in
    if is_nil mask then length x == 0 else (length x == length number) && same_under number mask x

-- The text of addresses, and the broadcast address of a network, which the program leaves to Go's
-- net package and to go-cidr: net.ParseIP (nil where the text is no address), IP.String,
-- net.ParseCIDR and the second result of go-cidr's AddressRange.
pub record Parser : Type 0 where
  pub parse_ip : String → Ip
  pub ip_string : Ip → String
  pub parse_cidr : String → Option (Ip × IpNet)
  pub last_address : IpNet → Ip

-- What their documentation promises of the lengths.
pub record IsParser (p : Parser) : Type 0 where
  pub parse_ip-IsWide : (s : String) → p.parse_ip s ≢ [] → IsWide (p.parse_ip s)
  pub parse_cidr-IsWide :
      (s : String) {ip : Ip} {n : IpNet} → p.parse_cidr s ≡ some (ip, n) → IsWide ip
  pub last_address-IsAddress :
      (s : String) {ip : Ip} {n : IpNet}
      → p.parse_cidr s ≡ some (ip, n)
      → IsAddress (p.last_address n)
