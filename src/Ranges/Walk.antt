-- ===== src/Ranges/Walk.antt =====
-- The walk of assignFamily over a list of ranges: from an address to the next, until none is left.
use purelb.Base.{
  ℕ, suc, ◌+◌, ◌-◌, ◌≤◌, ◌<◌, ◌≡◌, refl, sym, ap, ◌∙◌, ◌⊎◌, inl, inr, true, false, List, [], ◌∷◌,
  is_nil, All, arith, if◌then◌else◌, Bool-cases,
}
use purelb.Net.{Ip, IsWide}
use purelb.Net.Value.{value, address, value-injective, to16-wide, IsWide-IsAddress}
use purelb.IpRange
use purelb.IpRange.{IpRange}
use purelb.IpRange.Bounds.{IsRange, lo, hi, contains_iff, next_lem}
use purelb.Ranges.{first_of, next_in, any_contains}

-- A range as the parsers return it, whose ends are in order.
pub record IsOrdered (r : IpRange) : Type 0 where
  pub range : IsRange r
  pub wide : IsWide r.from
  pub ordered : lo r ≤ hi r

-- No address is in two of the ranges.
abbrev pub Disjoint : List IpRange → Type 0
Disjoint [] = Unit {0}
Disjoint (r ∷ rs) =
    ((ip : Ip) → IsWide ip → IpRange.contains r ip ≡ true → any_contains rs ip ≡ false)
    × Disjoint rs

-- How many addresses the ranges have.
abbrev pub total : List IpRange → ℕ
total [] = 0
total (r ∷ rs) = hi r + 1 - lo r + total rs

-- How many of them come from an address on.
abbrev pub rank : List IpRange → Ip → ℕ
rank [] ip = 0
rank (r ∷ rs) ip = if IpRange.contains r ip then hi r + 1 - address ip + total rs else rank rs ip

pub address-injective : (a b : Ip) → IsWide a → IsWide b → address a ≡ address b → a ≡ b
address-injective a b wa wb e =
    let same : value a ≡ value b =
      ap value (sym (to16-wide a wa)) ∙ e ∙ ap value (to16-wide b wb) in
    value-injective a b wa.bytes wb.bytes (wa.long ∙ sym wb.long) same

pub IsWide-is_nil : (ip : Ip) → IsWide ip → is_nil ip ≡ false
IsWide-is_nil [] w = absurd (omega (arith, w.long))
IsWide-is_nil (b ∷ bs) w = refl

module _ (r : IpRange) (o : IsOrdered r) where
  contains_first : IpRange.contains r r.from ≡ true
  contains_first = (contains_iff r o.range r.from o.range.from_ok).1 (omega (arith, o.ordered))

  -- A step inside of one range.
  abbrev StepIn : Ip → Type 0
  StepIn ip =
      ((IpRange.next r ip ≡ []) × (address ip ≡ hi r))
      ⊎ (IsWide (IpRange.next r ip)
          × (IpRange.contains r (IpRange.next r ip) ≡ true)
          × (address (IpRange.next r ip) ≡ address ip + 1)
          × (address ip < hi r))

  pub step_in : (ip : Ip) → IsWide ip → IpRange.contains r ip ≡ true → StepIn ip
  step_in ip w h =
      let (low, high) = (contains_iff r o.range ip (IsWide-IsAddress ip w)).0 h in
      elim (next_lem r o.range ip w) [
        | inl (nil, out) ↦ inl (nil, omega (arith, low, high, out))
        | inr (wide, e, _, below) ↦ inr (
          wide,
          (contains_iff r o.range _ (IsWide-IsAddress _ wide)).1 (omega (arith, low, e, below)),
          e,
          below,
        )
      ]

pub rank-le :
    (rs : List IpRange) (ip : Ip)
    → All IsOrdered rs
    → IsWide ip
    → any_contains rs ip ≡ true
    → (0 < rank rs ip) × (rank rs ip ≤ total rs)
unfolding any_contains
rank-le [] ip os w h = cc
rank-le (r ∷ rs) ip os w h = elim (Bool-cases (IpRange.contains r ip)) [
  | inl here ↦
      let (low, high) = (contains_iff r os.0.range ip (IsWide-IsAddress ip w)).0 here in
      rw here (omega (arith, low, high))
  | inr not_here ↦ let ih = rank-le rs ip os.1 w (ground arith) in rw not_here (omega (arith, ih))
]

-- Where the walk begins: at no address, or at the first of them all.
abbrev pub Starts : List IpRange → Ip → Type 0
Starts rs ip =
    ((ip ≡ []) × (total rs ≡ 0))
    ⊎ (IsWide ip × (any_contains rs ip ≡ true) × (rank rs ip ≡ total rs))

pub first_of-Starts : (rs : List IpRange) → All IsOrdered rs → Starts rs (first_of rs)
unfolding first_of any_contains IpRange.first
first_of-Starts [] os = inl (refl, refl)
first_of-Starts (r ∷ rs) os =
    let here = contains_first r os.0 in inr (os.0.wide, ground arith, rw here)

-- A step of the walk: the end after the last address, or an address with one fewer to come.
abbrev pub Steps : List IpRange → Ip → Ip → Type 0
Steps rs ip n =
    ((n ≡ []) × (rank rs ip ≡ 1))
    ⊎ (IsWide n × (any_contains rs n ≡ true) × (rank rs ip ≡ suc (rank rs n)))

-- An address of the later ranges is not in the first.
later :
    (r : IpRange) (rs : List IpRange) (n : Ip)
    → Disjoint (r ∷ rs)
    → IsWide n
    → any_contains rs n ≡ true
    → IpRange.contains r n ≡ false
later r rs n d w h = ground (arith, d.0 n w)

leave_first :
    (r : IpRange) (rs : List IpRange) (ip n : Ip)
    → Disjoint (r ∷ rs)
    → Starts rs n
    → rank (r ∷ rs) ip ≡ 1 + total rs
    → Steps (r ∷ rs) ip n
unfolding any_contains
leave_first r rs ip n d start e = elim start [
  | inl (nil, none_left) ↦ inl (nil, omega (arith, e, none_left))
  | inr (w, h, all) ↦
      let out = later r rs n d w h in inr (w, ground arith, rw out (omega (arith, e, all)))
]

module _ (r : IpRange) (rs : List IpRange) (ip : Ip) where
  pub next_in-exhausted :
      IpRange.contains r ip ≡ true → IpRange.next r ip ≡ [] → next_in (r ∷ rs) ip ≡ first_of rs
  unfolding next_in
  next_in-exhausted here nil = rw here (rw nil)

  pub next_in-inside :
      IpRange.contains r ip ≡ true
      → is_nil (IpRange.next r ip) ≡ false
      → next_in (r ∷ rs) ip ≡ IpRange.next r ip
  unfolding next_in
  next_in-inside here more = rw here (rw more)

  next_in-later : IpRange.contains r ip ≡ false → next_in (r ∷ rs) ip ≡ next_in rs ip
  unfolding next_in
  next_in-later out = rw out

  Steps-later :
      Disjoint (r ∷ rs)
      → IpRange.contains r ip ≡ false
      → (n : Ip) → Steps rs ip n
      → Steps (r ∷ rs) ip n
  unfolding any_contains
  Steps-later d out n step = elim step [
    | inl (nil, one) ↦ inl (nil, rw out one)
    | inr (w, h, e) ↦ let out' = later r rs n d w h in inr (w, ground arith, rw out (rw out' e))
  ]

-- Over ordered ranges with no address in two of them, the next of a 16-byte address of the ranges
-- is an address of them with one address fewer to come, or nil at the last of them.
pub next_in-Steps :
    (rs : List IpRange) (ip : Ip)
    → All IsOrdered rs
    → Disjoint rs
    → IsWide ip
    → any_contains rs ip ≡ true
    → Steps rs ip (next_in rs ip)
unfolding any_contains
next_in-Steps [] ip os d w h = cc
next_in-Steps (r ∷ rs) ip os d w h = elim (Bool-cases (IpRange.contains r ip)) [
  | inl here ↦ elim (step_in r os.0 ip w here) [
    | inl (nil, last) ↦ rw (next_in-exhausted r rs ip here nil) (
        leave_first r rs ip (first_of rs) d (first_of-Starts rs os.1)
          (rw here (omega (arith, last))))
    | inr (wide, inside, e, below) ↦
        rw (next_in-inside r rs ip here (IsWide-is_nil _ wide))
          (inr (wide, ground arith, rw here (rw inside (omega (arith, e, below)))))
  ]
  | inr out ↦
      rw (next_in-later r rs ip out)
        (Steps-later r rs ip d out (next_in rs ip) (next_in-Steps rs ip os.1 d.1 w (ground arith)))
]

-- An address of the first range has more to come than the later ranges have in all.
rank-here :
    (r : IpRange) (rs : List IpRange) (ip : Ip)
    → IsOrdered r
    → IsWide ip
    → IpRange.contains r ip ≡ true
    → (rank (r ∷ rs) ip + address ip ≡ suc (hi r + total rs)) × (address ip ≤ hi r)
rank-here r rs ip o w here =
    let (low, high) = (contains_iff r o.range ip (IsWide-IsAddress ip w)).0 here in
    rw here (omega (arith, high))

rank-there :
    (r : IpRange) (rs : List IpRange) (ip : Ip)
    → All IsOrdered rs
    → IsWide ip
    → IpRange.contains r ip ≡ false
    → any_contains (r ∷ rs) ip ≡ true
    → (rank (r ∷ rs) ip ≡ rank rs ip) × (rank rs ip ≤ total rs) × (any_contains rs ip ≡ true)
unfolding any_contains
rank-there r rs ip os w out h =
    let h' : any_contains rs ip ≡ true = ground arith in (rw out, (rank-le rs ip os w h').1, h')

-- Two addresses with as many to come are one.
pub rank-injective :
    (rs : List IpRange) (a b : Ip)
    → All IsOrdered rs
    → Disjoint rs
    → IsWide a
    → IsWide b
    → any_contains rs a ≡ true
    → any_contains rs b ≡ true
    → rank rs a ≡ rank rs b
    → a ≡ b
unfolding any_contains
rank-injective [] a b os d wa wb ha hb e = cc
rank-injective (r ∷ rs) a b os d wa wb ha hb e = elim (Bool-cases (IpRange.contains r a)) [
  | inl a_here ↦
      let ra = rank-here r rs a os.0 wa a_here in
      elim (Bool-cases (IpRange.contains r b)) [
        | inl b_here ↦
            let rb = rank-here r rs b os.0 wb b_here in
            address-injective a b wa wb (omega (arith, ra, rb, e))
        | inr b_out ↦
            let rb = rank-there r rs b os.1 wb b_out hb in absurd (omega (arith, ra, rb.0, rb.1, e))
      ]
  | inr a_out ↦
      let ra = rank-there r rs a os.1 wa a_out ha in
      elim (Bool-cases (IpRange.contains r b)) [
        | inl b_here ↦
            let rb = rank-here r rs b os.0 wb b_here in absurd (omega (arith, ra.0, ra.1, rb, e))
        | inr b_out ↦
            let rb = rank-there r rs b os.1 wb b_out hb in
            rank-injective rs a b os.1 d.1 wa wb ra.2 rb.2 (omega (arith, ra.0, rb.0, e))
      ]
]
