-- ===== src/Discovery/Delays/Doubling.antt =====
-- The local wait of database/poc/discovery_execution.py, `_backoff`, as a formula.
use pepeuchiacluster.Prelude.{
  ℕ, zero, suc, ◌-◌, ◌*◌, ◌^◌, ◌≤◌, min, ◌≡◌, leb, ◌==◌, arith, Bool-cases, inl, inr,
}
use pepeuchiacluster.Discovery.Delays.{backoff_from, backoff_delay}

power_positive : (n : ℕ) → 1 ≤ 2 ^ n
power_positive zero = omega arith
power_positive (suc n) = omega (arith, power_positive n)

doubled : (delay n : ℕ) → delay * 2 ^ suc n ≡ delay * 2 * 2 ^ n
doubled delay n = grind arith

at_least : (limit delay p : ℕ) → 1 ≤ p → limit ≤ 2 * delay → limit ≤ delay * 2 * p
at_least limit delay zero h le = omega arith
at_least limit delay (suc p) h le = grind arith

backoff_from_lem : (limit n delay : ℕ) → backoff_from limit n delay ≡ min (delay * 2 ^ n) limit
unfolding backoff_from
backoff_from_lem limit zero delay = omega arith
backoff_from_lem limit (suc n) delay =
    let same = doubled delay n in
    let rest = backoff_from_lem limit n (delay * 2) in
    let more = at_least limit delay (2 ^ n) (power_positive n) in
    elim (Bool-cases (delay == 0)) [
      | inl none_ ↦ let zero_ : delay ≡ 0 = ground arith in rw zero_ (omega arith)
      | inr some_ ↦ elim (Bool-cases (leb limit (2 * delay))) [
        | inl full ↦
            rw (some_, full)
              (let much : limit ≤ delay * 2 * 2 ^ n = more (ground arith) in omega arith)
        | inr room ↦ rw (some_, room) (omega arith)
      ]
    ]

-- The local wait after an attempt is the first wait, doubled for every attempt before this one, and
-- cut at the limit.
pub backoff_delay_lem :
    (limit first attempt : ℕ)
    → 1 ≤ attempt
    → backoff_delay limit first attempt ≡ min (first * 2 ^ (attempt - 1)) limit
unfolding backoff_delay
backoff_delay_lem limit first attempt some_ = backoff_from_lem limit (attempt - 1) first
