-- ===== src/IpRange/Bounds.antt =====
-- What the tests of iprange.go say of the numbers that addresses stand for.
use native.Mathlib.Nat.{pow-succ', suc-mul}
use purelb.Base.{
  ℕ, suc, ◌+◌, ◌*◌, ◌%◌, ◌^◌, ◌≤◌, ◌<◌, ◌≡◌, ◌↔◌, ◌⊎◌, refl, sym, subst, ◌∙◌, Bool, true, false,
  ◌&&◌, ◌||◌, [], ◌∷◌, length, All, leb, arith, if◌then◌else◌, nat_eq, ◌==◌, nat_beq, nat_beq_iff,
  Bool-cases, inl, inr,
}
use purelb.Net.{Ip, IsByte, IsWide, IsAddress, to16, bytes_lt}
use purelb.Net.Value.{value, address, value-lt, to16_le, to16-wide, to16-IsWide, IsWide-IsAddress}
use purelb.IpRange.{IpRange, contains, next, inc, inc_carry}

-- What every range that the parsers accept is.
pub record IsRange (r : IpRange) : Type 0 where
  pub from_ok : IsAddress r.from
  pub to_ok : IsAddress r.to

abbrev pub lo : IpRange → ℕ
lo r = address r.from

abbrev pub hi : IpRange → ℕ
hi r = address r.to

module _ (r : IpRange) (ok : IsRange r) where
  pub contains-leb :
      (ip : Ip)
      → IsAddress ip
      → contains r ip ≡ (leb (lo r) (address ip) && leb (address ip) (hi r))
  unfolding contains
  contains-leb ip h = rw (to16_le r.from ip ok.from_ok h, to16_le ip r.to h ok.to_ok)

  -- An address is in a range exactly when its number lies between those of the two ends.
  pub contains_iff :
      (ip : Ip)
      → IsAddress ip
      → (contains r ip ≡ true) ↔ ((lo r ≤ address ip) × (address ip ≤ hi r))
  contains_iff ip h = ground (arith, contains-leb ip h)

-- The increment is by one, and wraps around where every byte is 255.
pub length-inc : (ip : Ip) → length (inc ip) ≡ length ip
unfolding inc
length-inc [] = refl
length-inc (b ∷ bs) = ground (arith, length-inc bs)

inc_digit :
    (p b v w : ℕ)
    → b < 256
    → w + p ≡ v + 1
    → (b + 1) % 256 * p + w + (if (b + 1) % 256 == 0 then 256 * p else 0) ≡ b * p + v + 1
inc_digit p b v w h e = elim (Bool-cases (nat_beq b 255)) [
  | inl last ↦ let d : b ≡ 255 = (nat_beq_iff b 255).0 last in rw d (omega arith)
  | inr more ↦ let d : (b + 1) % 256 ≡ suc b = ground arith in rw d (ground (arith, suc-mul b p))
]

module _ (b : ℕ) (bs : Ip) where
  inc-carries :
      (inc_carry bs).0 ≡ true → inc_carry (b ∷ bs) ≡ ((b + 1) % 256 == 0, (b + 1) % 256 ∷ inc bs)
  unfolding inc
  inc-carries e = rw (e, inc_carry)

  inc-stops : (inc_carry bs).0 ≡ false → inc_carry (b ∷ bs) ≡ (false, b ∷ inc bs)
  unfolding inc
  inc-stops e = rw (e, inc_carry)

abbrev Counts : Ip → Bool × Ip → Type 0
Counts ip r = (value r.1 + (if r.0 then 256 ^ length ip else 0) ≡ value ip + 1) × All IsByte r.1

inc_carry-Counts : (ip : Ip) → All IsByte ip → Counts ip (inc_carry ip)
unfolding inc value
inc_carry-Counts [] h = (omega arith, tt)
inc_carry-Counts (b ∷ bs) h =
    let ih = inc_carry-Counts bs h.1 in
    let same : length (inc_carry bs).1 ≡ length bs = length-inc bs in
    elim (Bool-cases (inc_carry bs).0) [
      | inl carry ↦
          let below : value (inc_carry bs).1 + 256 ^ length bs ≡ value bs + 1 = rw carry at ih.0 in
          subst (Counts (b ∷ bs)) (sym (inc-carries b bs carry)) (
            rw (length-inc bs, pow-succ' 256 (length bs))
              (
                inc_digit (256 ^ length bs) b (value bs) (value (inc_carry bs).1) h.0 below,
                (omega arith, ih.1),
              ))
      | inr stop ↦
          let below : value (inc_carry bs).1 + 0 ≡ value bs + 1 = rw stop at ih.0 in
          subst (Counts (b ∷ bs)) (sym (inc-stops b bs stop))
            (rw (length-inc bs) (omega (arith, below), (h.0, ih.1)))
    ]

-- The increment of an address below the largest is the next number.
pub value-inc :
    (ip : Ip)
    → All IsByte ip
    → value ip + 1 < 256 ^ length ip
    → (value (inc ip) ≡ value ip + 1) × All IsByte (inc ip)
unfolding inc
value-inc ip h room =
    let counts = inc_carry-Counts ip h in
    elim (Bool-cases (inc_carry ip).0) [
      | inl carry ↦ absurd (ground (arith, counts.0))
      | inr stop ↦ (ground (arith, counts.0), counts.1)
    ]

inc-IsWide :
    (ip : Ip)
    → IsWide ip
    → address ip + 1 < 256 ^ 16
    → IsWide (inc ip) × (address (inc ip) ≡ address ip + 1)
inc-IsWide ip w room =
    let raw : value ip + 1 < 256 ^ length ip = rw (w.long, ← to16-wide ip w) room in
    let step = value-inc ip w.bytes raw in
    let wide : IsWide (inc ip) = record { long = length-inc ip ∙ w.long; bytes = step.1 } in
    (wide, rw (to16-wide (inc ip) wide, to16-wide ip w) step.0)

module _ (r : IpRange) (ok : IsRange r) where
  hi-lt : hi r < 256 ^ 16
  hi-lt = let w = to16-IsWide r.to ok.to_ok in rw w.long at (value-lt (to16 r.to) w.bytes)

  next-leb :
      (ip : Ip)
      → IsAddress ip
      → next r ip ≡ (
          if (if leb (lo r) (address ip) then false else true) || leb (hi r) (address ip)
          then []
          else inc ip)
  unfolding next bytes_lt
  next-leb ip h = rw (to16_le r.from ip ok.from_ok h, to16_le r.to ip ok.to_ok h)

  -- Next of a 16-byte address is nil outside of the range and at its end, and otherwise the address
  -- one higher.
  pub next_lem :
      (ip : Ip)
      → IsWide ip
      → ((next r ip ≡ []) × ((address ip < lo r) ⊎ (hi r ≤ address ip)))
        ⊎ (IsWide (next r ip)
            × (address (next r ip) ≡ address ip + 1)
            × (lo r ≤ address ip)
            × (address ip < hi r))
  next_lem ip w =
      let eq = next-leb ip (IsWide-IsAddress ip w) in
      elim (Bool-cases (leb (lo r) (address ip))) [
        | inr low ↦ inl (ground (arith, eq), inl (ground arith))
        | inl above ↦ elim (Bool-cases (leb (hi r) (address ip))) [
          | inl last ↦ inl (ground (arith, eq), inr (ground arith))
          | inr inside ↦
              let more : address ip < hi r = ground arith in
              let e : next r ip ≡ inc ip = ground (arith, eq) in
              let step = inc-IsWide ip w (omega (arith, hi-lt)) in
              inr (rw e (step.0, step.1, ground arith, more))
        ]
      ]
