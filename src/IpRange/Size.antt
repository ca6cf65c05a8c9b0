-- ===== src/IpRange/Size.antt =====
-- The count of addresses in a range: what IPRange.Size returns, as a uint64.
use native.Mathlib.Nat.{add-mul-mod_self_left, mod-add-div, pow-succ'}
use purelb.Base.{
  ℕ, ◌+◌, ◌-◌, ◌*◌, ◌/◌, ◌%◌, ◌^◌, ◌≤◌, ◌<◌, ◌≡◌, inl, inr, sym, ap, ◌∙◌, true, false, List, [],
  ◌∷◌, ◌++◌, length, take, drop, All-take, All-drop, take-append-drop, length-take_of_eq,
  length-drop_of_eq, is_nil, All, arith, if◌then◌else◌, ◌==◌, nat_eq, Bool-cases, nat_beq,
  nat_beq_iff,
}
use purelb.Net.{Ip, IsByte, IsWide, to4, to16, bytes_equal}
use purelb.Net.Value.{
  value, address, value-lt, value-append, value-injective, bytes_equal_iff, to16-wide,
}
use purelb.Net.V4.{v4_window}
use purelb.IpRange.{IpRange, size, to_int, to_int_from, u64_mod, max_uint64}
use purelb.IpRange.Bounds.{IsRange, lo, hi}

mod-mul-add : (m x p v : ℕ) → (x % m * p + v) % m ≡ (x * p + v) % m
mod-mul-add m x p v =
    let whole : x % m * p + v + m * (x / m * p) ≡ x * p + v =
      omega (arith, ap (λ (t : ℕ). t * p) (mod-add-div x m)) in
    sym (add-mul-mod_self_left (x % m * p + v) m (x / m * p)) ∙ ap (λ (t : ℕ). t % m) whole

to_int_step :
    (n b p v : ℕ)
    → ((n * 256 % u64_mod + b) % u64_mod * p + v) % u64_mod
      ≡ (n * (256 * p) + (b * p + v)) % u64_mod
to_int_step n b p v =
    let inner : (n * 256 % u64_mod + b) * p + v ≡ n * 256 % u64_mod * p + (b * p + v) =
      omega arith in
    let outer : n * 256 * p + (b * p + v) ≡ n * (256 * p) + (b * p + v) = omega arith in
    mod-mul-add u64_mod (n * 256 % u64_mod + b) p v
    ∙ ap (λ (t : ℕ). t % u64_mod) inner
    ∙ mod-mul-add u64_mod (n * 256) p (b * p + v)
    ∙ ap (λ (t : ℕ). t % u64_mod) outer

to_int_from-value :
    (n : ℕ) (bs : Ip) → n < u64_mod → to_int_from n bs ≡ (n * 256 ^ length bs + value bs) % u64_mod
unfolding to_int_from value
to_int_from-value n [] h = omega arith
to_int_from-value n (b ∷ bs) h = rw (pow-succ' 256 (length bs)) (
    to_int_from-value ((n * 256 % u64_mod + b) % u64_mod) bs (omega arith)
    ∙ to_int_step n b (256 ^ length bs) (value bs))

-- toInt keeps the low 64 bits of an address.
to_int-value : (ip : Ip) → to_int ip ≡ value ip % u64_mod
unfolding to_int
to_int-value ip = to_int_from-value 0 ip (omega arith) ∙ ap (λ (t : ℕ). t % u64_mod) (omega arith)

-- The high and the low 64 bits.
high : Ip → ℕ
high ip = value (take 8 ip)

module _ (ip : Ip) (w : IsWide ip) where
  high_low : (value ip ≡ high ip * u64_mod + value (drop 8 ip)) × (value (drop 8 ip) < u64_mod)
  unfolding high
  high_low =
      let long = length-drop_of_eq 8 8 ip w.long in
      let split : value (take 8 ip ++ drop 8 ip) ≡ high ip * u64_mod + value (drop 8 ip) =
        rw long at (value-append (take 8 ip) (drop 8 ip)) in
      (
        rw (take-append-drop 8 ip) at split,
        rw long at (value-lt (drop 8 ip) (All-drop IsByte 8 ip w.bytes)),
      )

  high_div : high ip ≡ address ip / u64_mod
  high_div = rw (to16-wide ip w) (omega (arith, high_low))

same_high :
    (a b : Ip)
    → IsWide a
    → IsWide b
    → bytes_equal (take 8 a) (take 8 b) ≡ (address a / u64_mod == address b / u64_mod)
unfolding high value
same_high a b wa wb =
    rw (← high_div a wa, ← high_div b wb)
      (agree (take 8 a) (take 8 b) (All-take IsByte 8 a wa.bytes) (All-take IsByte 8 b wb.bytes)
        (length-take_of_eq 8 8 a wa.long ∙ sym (length-take_of_eq 8 8 b wb.long)))
  where
    agree :
        (xs ys : List ℕ)
        → All IsByte xs
        → All IsByte ys
        → length xs ≡ length ys
        → bytes_equal xs ys ≡ (value xs == value ys)
    agree xs ys hx hy e = elim (Bool-cases (bytes_equal xs ys)) [
      | inl same ↦
          let p : xs ≡ ys = (bytes_equal_iff xs ys).0 same in
          same ∙ sym ((nat_beq_iff (value xs) (value ys)).1 (ap value p))
      | inr other ↦ elim (Bool-cases (nat_beq (value xs) (value ys))) [
        | inl v ↦
            let p : xs ≡ ys = value-injective xs ys hx hy e ((nat_beq_iff _ _).0 v) in
            absurd (cc (other, (bytes_equal_iff xs ys).1 p))
        | inr v ↦ other ∙ sym v
      ]
    ]

module _ (r : IpRange) (ok : IsRange r) where
  size_tail :
      lo r ≤ hi r
      → hi r < u64_mod
      → ((1 + to_int (to16 r.to)) % u64_mod + u64_mod - to_int (to16 r.from)) % u64_mod
        ≡ (hi r - lo r + 1) % u64_mod
  size_tail le top = rw (to_int-value (to16 r.to), to_int-value (to16 r.from)) (omega arith)

  -- The size of an ordered range of IPv4 addresses is the count of its addresses.
  pub size_v4 :
      is_nil (to4 r.from) ≡ false
      → is_nil (to4 r.to) ≡ false
      → lo r ≤ hi r
      → size r ≡ hi r - lo r + 1
  unfolding size
  size_v4 f t le =
      let a = v4_window r.from ok.from_ok f in
      let b = v4_window r.to ok.to_ok t in
      rw (f, size) (size_tail le (omega (arith, b)) ∙ omega (arith, a, b))

  size_low :
      IsWide r.from
      → IsWide r.to
      → hi r / u64_mod ≡ lo r / u64_mod
      → lo r ≤ hi r
      → ((1 + to_int (to16 r.to)) % u64_mod + u64_mod - to_int (to16 r.from)) % u64_mod
        ≡ (hi r - lo r + 1) % u64_mod
  size_low wf wt e le = rw (to_int-value (to16 r.to), to_int-value (to16 r.from)) (omega arith)

  -- The size of an ordered range whose ends have 16 bytes and that does not begin with an IPv4
  -- address: where both ends have the same high 64 bits it is the count of the addresses modulo 2 ^
  -- 64, and otherwise the largest uint64.
  pub size_v6 :
      IsWide r.from
      → IsWide r.to
      → is_nil (to4 r.from) ≡ true
      → lo r ≤ hi r
      → size r
        ≡ (if hi r / u64_mod == lo r / u64_mod then (hi r - lo r + 1) % u64_mod else max_uint64)
  unfolding size
  size_v6 wf wt f le =
      let same = same_high r.to r.from wt wf in
      elim (Bool-cases (bytes_equal (take 8 r.to) (take 8 r.from))) [
        | inl e ↦
            rw (← same)
              (rw e (rw (f, size) (size_low wf wt ((nat_beq_iff _ _).0 (rw same at e)) le)))
        | inr e ↦ rw (← same) (rw e (rw (f, size)))
      ]

  -- An IPv6 range of 2 ^ 64 addresses that begins at a multiple of 2 ^ 64 has the size 0.
  pub size_of_block :
      IsWide r.from
      → IsWide r.to
      → is_nil (to4 r.from) ≡ true
      → lo r % u64_mod ≡ 0
      → hi r ≡ lo r + max_uint64
      → size r ≡ 0
  size_of_block wf wt f aligned whole =
      let same : (hi r / u64_mod == lo r / u64_mod) ≡ true =
        (nat_beq_iff _ _).1 (omega (arith, aligned, whole)) in
      size_v6 wf wt f (omega arith) ∙ rw same (omega arith)
