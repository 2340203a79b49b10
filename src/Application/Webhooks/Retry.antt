-- ===== src/Application/Webhooks/Retry.antt =====
-- When a delivery is tried again, and when no more.
use pvlog.Common.{
  ℕ, zero, suc, ◌+◌, ◌-◌, ◌*◌, ◌/◌, ◌^◌, ◌≤◌, ◌<◌, ◌≡◌, refl, sym, subst, inl, inr, min, Bool, true,
  false, List, [], ◌∷◌, ◌++◌, none, some, ltb, leb, length, Bool-cases, ℤ, pos, negsuc, ◌&&◌, ◌+ℤ◌,
  ◌≤ℤ◌, InI64, in_i64, InI64→in_i64, +ℤ_parts, Result, ok, ◌>>=◌, >>=-eq-ok, ok_injective,
  err_ne_ok, ◌==◌, passes, passes_at, arith,
}
use pvlog.Application.Webhooks.{
  DeliveryAttempt, WebhookDelivery, DeliveryServiceError, delivered, retrying, dead_letter,
  attempt_of, backoff, delay, add, settle, with_state, to_u32_or_max,
}

-- The base, doubled for each attempt after the first, up to the maximum.
doubles : ℕ → Bool
doubles n = backoff (n + 2) == min (2 * backoff (n + 1)) 3600000

first_doublings : passes doubles 40 ≡ true
unfolding passes doubles backoff
first_doublings = refl

late_backoff : (n : ℕ) → 32 ≤ n → backoff n ≡ 3600000
unfolding backoff
late_backoff n h = let capped : min (to_u32_or_max (n - 1)) 31 ≡ 31 = omega arith in rw capped refl

-- The waiting time starts at a second and doubles with each attempt up to an hour.
pub backoff-doubles : (n : ℕ) → backoff (n + 2) ≡ min (2 * backoff (n + 1)) 3600000
unfolding doubles
backoff-doubles n = elim (Bool-cases (ltb n 40)) [
  | inl early ↦ let same = passes_at doubles 40 n (ground arith) first_doublings in ground arith
  | inr late ↦
      let far : 40 ≤ n = ground arith in
      rw (late_backoff (n + 2) (omega (arith, far)), late_backoff (n + 1) (omega (arith, far))) refl
]

pub backoff_bounds : (n : ℕ) → (1000 ≤ backoff (n + 1)) × (backoff (n + 1) ≤ 3600000)
backoff_bounds zero = unfold backoff in (omega arith, omega arith)
backoff_bounds (suc n) =
    let before = backoff_bounds n in
    let step = backoff-doubles n in
    let same : suc n + 1 ≡ n + 2 = omega arith in
    rw same (omega (arith, step, before.0), omega (arith, step))

pub delay_bounds :
    (jitter : ℕ → ℕ) (n : ℕ)
    → ((upper : ℕ) → 0 < upper → jitter upper < upper)
    → 0 < n
    → (1000 ≤ delay jitter n) × (delay jitter n ≤ 4500000)
delay_bounds jitter zero law h = absurd (omega (arith, h))
delay_bounds jitter (suc n) law h =
    let b = backoff_bounds n in
    let same : suc n ≡ n + 1 = omega arith in
    let small = law (backoff (n + 1) / 4 + 1) (omega arith) in
    rw same (omega (arith, b.0, b.1, small), omega (arith, b.0, b.1, small))

pub add_value :
    (in_calendar : ℤ → Bool) (value : ℤ) (milliseconds : ℕ) (at : ℤ)
    → add in_calendar value milliseconds ≡ ok at
    → at ≡ value +ℤ pos milliseconds
unfolding add
add_value in_calendar value milliseconds at e =
    elim (Bool-cases
      (in_i64 (value +ℤ pos milliseconds) && in_calendar (value +ℤ pos milliseconds))) [
        | inl fits ↦ sym (ok_injective _ at (rw fits at e))
        | inr out ↦ absurd (err_ne_ok (rw out at e))
      ]

-- How an attempt leaves a delivery: delivered on success; dead after the last attempt that is allowed;
-- otherwise to be tried again, a second to an hour and a quarter after the attempt.
pub data Settled (attempts : List DeliveryAttempt) (maximum_attempts : ℕ) (finished : ℤ)
    (before : WebhookDelivery) : Bool → WebhookDelivery → Type 0 where
  arrived :
      Settled attempts maximum_attempts finished before true
        (with_state before delivered attempts none)
  given_up :
      maximum_attempts ≤ length attempts
      → Settled attempts maximum_attempts finished before false
          (with_state before dead_letter attempts none)
  postponed :
      (wait : ℕ)
      → length attempts < maximum_attempts
      → 1000 ≤ wait
      → wait ≤ 4500000
      → Settled attempts maximum_attempts finished before false
          (with_state before retrying attempts (some (finished +ℤ pos wait)))

pub settle-Settled :
    (in_calendar : ℤ → Bool) (jitter : ℕ → ℕ) (before : WebhookDelivery)
    (attempts : List DeliveryAttempt) (success : Bool) (maximum_attempts : ℕ) (finished : ℤ)
    (after : WebhookDelivery)
    → ((upper : ℕ) → 0 < upper → jitter upper < upper)
    → 0 < length attempts
    → settle in_calendar jitter before attempts success maximum_attempts finished ≡ ok after
    → Settled attempts maximum_attempts finished before success after
unfolding settle
settle-Settled in_calendar jitter before attempts true maximum_attempts finished after law h e =
    subst (Settled attempts maximum_attempts finished before true) (ok_injective _ after e) arrived
settle-Settled in_calendar jitter before attempts false maximum_attempts finished after law h e =
    elim (Bool-cases (leb maximum_attempts (length attempts))) [
      | inl last ↦
          subst (Settled attempts maximum_attempts finished before false)
            (ok_injective _ after (rw last at e)) (given_up (ground arith))
      | inr left ↦
          let (at, made, e1) =
            >>=-eq-ok (add in_calendar finished (delay jitter (length attempts))) _
              (rw left at e) in
          let bounds = delay_bounds jitter (length attempts) law h in
          subst (Settled attempts maximum_attempts finished before false) (ok_injective _ after e1)
            (rw (add_value in_calendar finished (delay jitter (length attempts)) at made)
              (postponed (delay jitter (length attempts)) (ground arith) bounds.0 bounds.1))
    ]

-- Attempts that all fail, at the instants given.
unfoldable pub fail_all :
    (ℤ → Bool)
    → (ℕ → ℕ)
    → ℕ
    → WebhookDelivery
    → List ℤ
    → Result DeliveryServiceError WebhookDelivery
fail_all in_calendar jitter maximum_attempts delivery [] = ok delivery
fail_all in_calendar jitter maximum_attempts delivery (t ∷ times) = do
  after ←
      settle in_calendar jitter delivery (delivery.attempts ++ (attempt_of t t none ∷ [])) false
        maximum_attempts t
  fail_all in_calendar jitter maximum_attempts after times

pub add-ok :
    (in_calendar : ℤ → Bool) (limit : ℕ) (t : ℤ) (wait : ℕ)
    → ((s : ℤ) → pos 0 ≤ℤ s → s ≤ℤ pos limit → in_calendar s ≡ true)
    → limit < 2 ^ 63
    → pos 0 ≤ℤ t
    → t +ℤ pos wait ≤ℤ pos limit
    → add in_calendar t wait ≡ ok (t +ℤ pos wait)
unfolding add
add-ok in_calendar limit t wait known small start end =
    let s = t +ℤ pos wait in
    let parts = +ℤ_parts t (pos wait) in
    let after : pos 0 ≤ℤ s = omega (arith, parts, start) in
    let fits : InI64 s = (sum_fits s after end) in rw (InI64→in_i64 s fits, known s after end) refl
  where
    sum_fits : (s : ℤ) → pos 0 ≤ℤ s → s ≤ℤ pos limit → InI64 s
    sum_fits (pos n) h k = (omega arith, omega (arith, k, small))
    sum_fits (negsuc n) h k = absurd (omega (arith, h))
