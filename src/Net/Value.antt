-- ===== src/Net/Value.antt =====
-- The number that a byte string stands for, most significant byte first, and the order of
-- bytes.Compare.
use native.Mathlib.Nat.{
  mul-le-mul_right, suc-mul, zero-add, pow-zero, one-mul, suc-add, mul_assoc, pow-succ',
}
use purelb.Base.{
  zero, ◌++◌, ◌↔◌, ap, true, length-append, inl, inr, sym, ◌∙◌, All-append, ℕ, suc, ◌+◌, ◌*◌, ◌^◌,
  ◌≤◌, ◌<◌, ◌≡◌, refl, List, [], ◌∷◌, length, All, arith, leb,
}
use purelb.Net.{Ip, IsByte, IsWide, IsAddress, to16, bytes_equal, v4_in_v6_prefix, bytes_le}

unfoldable pub value : List ℕ → ℕ
value [] = 0
value (b ∷ bs) = b * 256 ^ length bs + value bs

pub value-lt : (bs : List ℕ) → All IsByte bs → value bs < 256 ^ length bs
unfolding value
value-lt [] h = omega arith
value-lt (b ∷ bs) h = rw (pow-succ' 256 (length bs)) (grind (arith, value-lt bs h.1))

-- A smaller leading digit decides.
digit-lt : (p b c v w : ℕ) → b < c → v < p → b * p + v < c * p + w
digit-lt p b c v w h k =
    let le : suc b * p ≤ c * p = mul-le-mul_right p h in omega (arith, le, suc-mul b p)

pub bytes_le-leb :
    (bs cs : List ℕ)
    → All IsByte bs
    → All IsByte cs
    → length bs ≡ length cs
    → bytes_le bs cs ≡ leb (value bs) (value cs)
unfolding bytes_le value
bytes_le-leb [] [] hb hc e = refl
bytes_le-leb [] (c ∷ cs) hb hc e = absurd (omega arith)
bytes_le-leb (b ∷ bs) [] hb hc e = absurd (omega arith)
bytes_le-leb (b ∷ bs) (c ∷ cs) hb hc e =
    let same : length bs ≡ length cs = omega arith in
    rw (← same) (
      ground (
        arith,
        bytes_le-leb bs cs hb.1 hc.1 same,
        digit-lt (256 ^ length bs) b c (value bs) (value cs),
        digit-lt (256 ^ length bs) c b (value cs) (value bs),
        value-lt bs hb.1,
        value-lt cs hc.1,
      ))

-- The number of an address, of either length.
abbrev pub address : Ip → ℕ
address ip = value (to16 ip)

pub to16-IsWide : (ip : Ip) → IsAddress ip → IsWide (to16 ip)
unfolding to16
to16-IsWide ip h = elim h.long [
  | inl four ↦ record {
    long = ground arith;
    bytes = ground (arith, All-append IsByte v4_in_v6_prefix ip);
  }
  | inr sixteen ↦ record { long = ground arith; bytes = ground (arith, h.bytes) }
]

pub to16-wide : (ip : Ip) → IsWide ip → to16 ip ≡ ip
unfolding to16
to16-wide ip h = ground arith

pub IsWide-IsAddress : (ip : Ip) → IsWide ip → IsAddress ip
IsWide-IsAddress ip h = record { long = inr h.long; bytes = h.bytes }

-- bytes.Compare on addresses of either length compares their numbers.
pub to16_le :
    (a b : Ip)
    → IsAddress a
    → IsAddress b
    → bytes_le (to16 a) (to16 b) ≡ leb (address a) (address b)
to16_le a b ha hb =
    let wa = to16-IsWide a ha in
    let wb = to16-IsWide b hb in
    bytes_le-leb (to16 a) (to16 b) wa.bytes wb.bytes (wa.long ∙ sym wb.long)

pub bytes_equal_iff : (xs ys : List ℕ) → (bytes_equal xs ys ≡ true) ↔ (xs ≡ ys)
unfolding bytes_equal
bytes_equal_iff [] [] = (λ _. refl, λ _. refl)
bytes_equal_iff [] (y ∷ ys) = (λ e. cc, λ e. cc)
bytes_equal_iff (x ∷ xs) [] = (λ e. cc, λ e. cc)
bytes_equal_iff (x ∷ xs) (y ∷ ys) =
    let ih = bytes_equal_iff xs ys in (λ e. ground (arith, ih.0), λ e. ground (arith, ih.1))

pub value-injective :
    (bs cs : List ℕ)
    → All IsByte bs
    → All IsByte cs
    → length bs ≡ length cs
    → value bs ≡ value cs
    → bs ≡ cs
unfolding value
value-injective [] [] hb hc e v = refl
value-injective [] (c ∷ cs) hb hc e v = absurd (omega arith)
value-injective (b ∷ bs) [] hb hc e v = absurd (omega arith)
value-injective (b ∷ bs) (c ∷ cs) hb hc e v =
    let same : length bs ≡ length cs = omega arith in
    let v' : b * 256 ^ length bs + value bs ≡ c * 256 ^ length bs + value cs = rw (← same) at v in
    let below : value cs < 256 ^ length bs = rw same (value-lt cs hc.1) in
    let digit : b ≡ c = ground (
      arith,
      digit-lt (256 ^ length bs) b c (value bs) (value cs),
      digit-lt (256 ^ length bs) c b (value cs) (value bs),
      value-lt bs hb.1,
      below,
      v',
    ) in
    let rest : value bs ≡ value cs = omega (arith, ap (λ (d : ℕ). d * 256 ^ length bs) digit, v') in
    cc (digit, value-injective bs cs hb.1 hc.1 same rest)

pow-add : (b m n : ℕ) → b ^ (m + n) ≡ b ^ m * b ^ n
pow-add b zero n = simp (zero-add, pow-zero, one-mul)
pow-add b (suc m) n = simp (suc-add, pow-succ', pow-add b m n, mul_assoc)

pub value-append : (xs ys : List ℕ) → value (xs ++ ys) ≡ value xs * 256 ^ length ys + value ys
unfolding value
value-append [] ys = omega arith
value-append (x ∷ xs) ys =
    rw (value-append xs ys, length-append xs ys, pow-add 256 (length xs) (length ys)) (omega arith)
