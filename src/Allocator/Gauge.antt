-- ===== src/Allocator/Gauge.antt =====
-- float64(n) of internal/allocator/allocator.go: the whole number that a gauge shows of an integer of
-- 64 bits. A float64 has 53 bits for its digits, and the conversion goes to the nearest one, and to the
-- even one of two.
use purelb.Base.{
  ℕ, zero, suc, ◌+◌, ◌-◌, ◌*◌, ◌/◌, ◌%◌, ◌^◌, ◌<◌, ◌≡◌, refl, true, arith, ltb, ◌==◌, nat_eq,
  if◌then◌else◌,
}

-- How many bits are too many for a float64's digits; of 64 bits 11 are at most.
unfoldable pub excess : ℕ → ℕ → ℕ
excess zero n = 0
excess (suc fuel) n = let rest = excess fuel (n / 2) in if ltb n (2 ^ 53) then 0 else rest + 1

-- q units of u and a rest r of a unit, to a number of units.
unfoldable pub nearest : ℕ → ℕ → ℕ → ℕ
nearest q r u =
    if ltb (2 * r) u
    then q * u
    else if ltb u (2 * r)
    then (q + 1) * u
    else if q % 2 == 0
    then q * u
    else (q + 1) * u

unfoldable pub float64 : ℕ → ℕ
unfolding excess nearest
float64 n = let u = 2 ^ excess 11 n in nearest (n / u) (n % u) u

few : (n : ℕ) → n < 2 ^ 53 → ltb n (2 ^ 53) ≡ true
few n h = ground arith

excess_few : (fuel n : ℕ) → n < 2 ^ 53 → excess fuel n ≡ 0
unfolding excess
excess_few zero n h = refl
excess_few (suc fuel) n h = rw (few n h)

nearest_whole : (n : ℕ) → nearest (n / 1) (n % 1) 1 ≡ n
unfolding nearest
nearest_whole n = ground arith

-- A number of at most 53 bits is shown as it is.
pub float64_exact : (n : ℕ) → n < 2 ^ 53 → float64 n ≡ n
unfolding float64
float64_exact n h = rw (excess_few 11 n h, float64) (nearest_whole n)

float64_above : float64 (2 ^ 53 + 1) ≡ 2 ^ 53
unfolding float64 excess nearest
float64_above = refl

float64_tie : float64 (2 ^ 53 + 3) ≡ 2 ^ 53 + 4
unfolding float64 excess nearest
float64_tie = refl

-- A pool of 2^64 - 1 addresses is shown as one of 2^64.
float64_limit : float64 (2 ^ 64 - 1) ≡ 2 ^ 64
unfolding float64 excess nearest
float64_limit = refl
