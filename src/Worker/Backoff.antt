-- ===== src/Worker/Backoff.antt =====
-- The delay before another attempt (boundedBackoff, baseBackoff and maxBackoff of
-- internal/worker/inbox.go and internal/worker/outbox.go). Durations are `int64`, which wraps.
use agent_federation_hub.Base.{
  ℕ, zero, suc, ◌-◌, ◌/◌, ◌≤◌, ◌≡◌, arith, if◌then◌else◌, Bool-cases, inl, inr, ◌⊎◌,
}
use agent_federation_hub.Base.Int.{
  ℤ, pos, negsuc, pos_part, ◌+ℤ◌, ◌-ℤ◌, ◌≤ℤ◌, ◌<ℤ◌, ltb_ℤ, i64, i64_in_range, max_int64,
}
use agent_federation_hub.Model.{Duration}

-- maximum / 2, which Go rounds towards zero.
abbrev half : ℤ → ℤ
half (pos n) = pos (n / 2)
half (negsuc n) = pos 0 -ℤ pos (suc n / 2)

-- The loop, with the rounds that its index leaves.
unfoldable double_while : ℕ → Duration → Duration → Duration
double_while zero maximum delay = delay
double_while (suc rounds) maximum delay =
    let later = double_while rounds maximum (i64 (delay +ℤ delay)) in
    if ltb_ℤ delay (half maximum) then later else delay

unfoldable pub bounded_backoff : ℕ → Duration → Duration → Duration
unfolding double_while
bounded_backoff attempt base maximum =
    let delay = double_while (attempt - 1) maximum base in
    if ltb_ℤ maximum delay then maximum else delay

-- The configured durations, and one second and one minute where they are not positive.
unfoldable pub base_backoff : Duration → Duration
base_backoff configured = if ltb_ℤ (pos 0) configured then configured else pos 1000000000

unfoldable pub max_backoff : Duration → Duration
max_backoff configured = if ltb_ℤ (pos 0) configured then configured else pos 60000000000

-- A positive duration within `int64`.
abbrev pub IsPositive : Duration → Type 0
IsPositive d = (pos 0 <ℤ d) × (pos_part d ≤ max_int64)

doubled :
    (maximum delay : ℤ)
    → IsPositive maximum
    → pos 0 <ℤ delay
    → delay <ℤ half maximum
    → (i64 (delay +ℤ delay) ≡ delay +ℤ delay)
      × (delay <ℤ delay +ℤ delay)
      × (delay +ℤ delay ≤ℤ maximum)
unfolding ◌+ℤ◌
doubled (negsuc m) delay h p k = absurd (ground arith)
doubled (pos m) (negsuc d) h p k = absurd (ground arith)
doubled (pos m) (pos d) h p k =
    (i64_in_range (pos d +ℤ pos d) (ground arith) (ground arith), ground arith, ground arith)

double_while_bounds :
    (rounds : ℕ) (maximum delay top : ℤ)
    → IsPositive maximum
    → pos 0 <ℤ delay
    → delay ≤ℤ top
    → maximum ≤ℤ top
    → (delay ≤ℤ double_while rounds maximum delay) × (double_while rounds maximum delay ≤ℤ top)
unfolding double_while
double_while_bounds zero maximum delay top h p a b = (ground arith, a)
double_while_bounds (suc n) maximum delay top h p a b =
    elim (Bool-cases (ltb_ℤ delay (half maximum))) [
      | inl t ↦
          let d = doubled maximum delay h p (ground arith) in
          let rest =
            double_while_bounds n maximum (i64 (delay +ℤ delay)) top h (rw d.0 (ground arith))
              (rw d.0 (ground arith)) b in
          rw t (ground (arith, d, rest))
      | inr f ↦ rw f (ground arith, a)
    ]

more_rounds :
    (rounds : ℕ) (maximum delay : ℤ)
    → IsPositive maximum
    → IsPositive delay
    → double_while rounds maximum delay ≤ℤ double_while (suc rounds) maximum delay
unfolding double_while
more_rounds zero maximum delay h p = elim (Bool-cases (ltb_ℤ delay (half maximum))) [
  | inl t ↦ let d = doubled maximum delay h p.0 (ground arith) in rw (t, d.0) (ground (arith, d))
  | inr f ↦ rw f (ground arith)
]
more_rounds (suc n) maximum delay h p = elim (Bool-cases (ltb_ℤ delay (half maximum))) [
  | inl t ↦
      let d = doubled maximum delay h p.0 (ground arith) in
      let rest = more_rounds n maximum (i64 (delay +ℤ delay)) h (rw d.0 (ground (arith, d))) in
      rw t rest
  | inr f ↦ rw f (ground arith)
]

-- For a positive base and maximum within int64 the delay is positive, at most the maximum, at least
-- the base or at least the maximum, and not shorter for the next attempt.
pub backoff_bounds :
    (attempt : ℕ) (base maximum : Duration)
    → IsPositive base
    → IsPositive maximum
    → let delay = bounded_backoff attempt base maximum in
      (pos 0 <ℤ delay)
      × (delay ≤ℤ maximum)
      × ((base ≤ℤ delay) ⊎ (maximum ≤ℤ delay))
      × (delay ≤ℤ bounded_backoff (suc attempt) base maximum)
unfolding bounded_backoff
backoff_bounds zero base maximum p h = (ground arith, ground arith, ground arith, ground arith)
backoff_bounds (suc n) base maximum p h =
    let bounds =
      double_while_bounds n maximum base (base +ℤ maximum) h p.0 (unfold ◌+ℤ◌ in ground arith)
        (unfold ◌+ℤ◌ in ground arith) in
    let more = more_rounds n maximum base h p in
    (ground (arith, bounds), ground (arith, bounds), ground (arith, bounds), ground (arith, more))
