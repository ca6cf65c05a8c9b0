-- ===== src/Net/V4.antt =====
-- IPv4 addresses in their two forms, of 4 and of 16 bytes.
use purelb.Base.{
  ◌+◌, ◌*◌, ◌^◌, ◌≤◌, ◌<◌, ◌≡◌, inl, inr, refl, sym, ap, ◌∙◌, true, false, [], ◌++◌, length, take,
  drop, is_nil, All, All-drop, take-append-drop, length-drop_of_eq, Bool-cases, arith,
}
use purelb.Net.{Ip, IsByte, IsAddress, to4, to16, bytes_equal, v4_in_v6_prefix}
use purelb.Net.Value.{value, address, value-lt, value-append, bytes_equal_iff}

value-prefix : value v4_in_v6_prefix ≡ 0xffff
unfolding value
value-prefix = refl

module _ (ip : Ip) where
  to4_short : length ip ≡ 4 → to4 ip ≡ ip
  unfolding to4
  to4_short h = ground arith

  to4_mapped :
      length ip ≡ 16 → bytes_equal (take 12 ip) v4_in_v6_prefix ≡ true → to4 ip ≡ drop 12 ip
  unfolding to4
  to4_mapped h e = ground arith

  to4_other : length ip ≡ 16 → bytes_equal (take 12 ip) v4_in_v6_prefix ≡ false → to4 ip ≡ []
  unfolding to4
  to4_other h e = ground arith

  to16_short : length ip ≡ 4 → to16 ip ≡ v4_in_v6_prefix ++ ip
  unfolding to16
  to16_short h = ground arith

  to16_long : length ip ≡ 16 → to16 ip ≡ ip
  unfolding to16
  to16_long h = ground arith

  -- To16 of an IPv4 address is the prefix and then its four bytes.
  pub to16-to4 :
      IsAddress ip
      → is_nil (to4 ip) ≡ false
      → (to16 ip ≡ v4_in_v6_prefix ++ to4 ip) × (length (to4 ip) ≡ 4) × All IsByte (to4 ip)
  to16-to4 h four = elim h.long [
    | inl short ↦ rw (to4_short short) (to16_short short, short, h.bytes)
    | inr long ↦ elim (Bool-cases (bytes_equal (take 12 ip) v4_in_v6_prefix)) [
      | inl e ↦
          let split : v4_in_v6_prefix ++ drop 12 ip ≡ ip =
            rw ((bytes_equal_iff (take 12 ip) v4_in_v6_prefix).0 e) at (take-append-drop 12 ip) in
          rw (to4_mapped long e) (
            to16_long long ∙ sym split,
            length-drop_of_eq 12 4 ip long,
            All-drop IsByte 12 ip h.bytes,
          )
      | inr e ↦ absurd (cc (to4_other long e))
    ]
  ]

  address-mapped :
      IsAddress ip
      → is_nil (to4 ip) ≡ false
      → address ip ≡ value v4_in_v6_prefix * 256 ^ 4 + value (to4 ip)
  address-mapped h four =
      let (wide, long, bytes) = to16-to4 h four in
      ap value wide ∙ rw long at (value-append v4_in_v6_prefix (to4 ip))

  pub v4_window :
      IsAddress ip
      → is_nil (to4 ip) ≡ false
      → (0xffff * 2 ^ 32 ≤ address ip) × (address ip < 0xffff * 2 ^ 32 + 2 ^ 32)
  v4_window h four =
      let (wide, long, bytes) = to16-to4 h four in
      let below : value (to4 ip) < 256 ^ 4 = rw long at (value-lt (to4 ip) bytes) in
      omega (arith, below, address-mapped h four, value-prefix)
