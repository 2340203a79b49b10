-- ===== src/Application/Webhooks/Ending.antt =====
-- A delivery that always fails ends as a dead letter.
use pvlog.Common.{
  ℕ, ◌+◌, ◌^◌, ◌<◌, ◌≡◌, refl, Bool, true, false, List, [], ◌∷◌, ◌++◌, none, some, leb, length,
  length-append, All, ℤ, pos, ◌+ℤ◌, ◌≤ℤ◌, +ℤ_parts, ok, arith,
}
use pvlog.Application.Webhooks.{
  DeliveryAttempt, WebhookDelivery, retrying, dead_letter, attempt_of, delay, settle, with_state,
}
use pvlog.Application.Webhooks.Retry.{delay_bounds, add-ok, fail_all}

module _ (in_calendar : ℤ → Bool) (jitter : ℕ → ℕ) (limit : ℕ)
    (law : (upper : ℕ) → 0 < upper → jitter upper < upper)
    (known : (s : ℤ) → pos 0 ≤ℤ s → s ≤ℤ pos limit → in_calendar s ≡ true) (small : limit < 2 ^ 63)
    (maximum_attempts : ℕ) where
  last_attempt :
      (delivery : WebhookDelivery) (attempts : List DeliveryAttempt) (t : ℤ)
      → length attempts ≡ maximum_attempts
      → settle in_calendar jitter delivery attempts false maximum_attempts t
        ≡ ok (with_state delivery dead_letter attempts none)
  unfolding settle
  last_attempt delivery attempts t h =
      let last : leb maximum_attempts (length attempts) ≡ true = ground arith in rw last refl

  early_attempt :
      (delivery : WebhookDelivery) (attempts : List DeliveryAttempt) (t : ℤ)
      → 0 < length attempts
      → length attempts < maximum_attempts
      → pos 0 ≤ℤ t
      → t +ℤ pos 4500000 ≤ℤ pos limit
      → settle in_calendar jitter delivery attempts false maximum_attempts t
        ≡ ok (
            with_state delivery retrying attempts
              (some (t +ℤ pos (delay jitter (length attempts)))))
  unfolding settle
  early_attempt delivery attempts t begun left start end =
      let more : leb maximum_attempts (length attempts) ≡ false = ground arith in
      let wait = delay jitter (length attempts) in
      let bounds = delay_bounds jitter (length attempts) law begun in
      let in_time : t +ℤ pos wait ≤ℤ pos limit =
        omega (arith, +ℤ_parts t (pos wait), +ℤ_parts t (pos 4500000), end, bounds.1) in
      rw (more, add-ok in_calendar limit t wait known small start in_time) refl

  -- If the calendar has every instant up to a limit and the jitter is below its bound, then as many attempts
  -- as the delivery has left, all of them failing and at least four and a half million milliseconds before
  -- the limit, are settled without an error and leave a dead letter with all attempts made and no next one.
  pub fails_to_the_end :
      (delivery : WebhookDelivery) (times : List ℤ)
      → All (λ t. (pos 0 ≤ℤ t) × (t +ℤ pos 4500000 ≤ℤ pos limit)) times
      → 0 < length times
      → length delivery.attempts + length times ≡ maximum_attempts
      → (after : WebhookDelivery) × (fail_all in_calendar jitter maximum_attempts delivery times
          ≡ ok after)
        × (after.state ≡ dead_letter)
        × (after.next_attempt_at ≡ none)
        × (length after.attempts ≡ maximum_attempts)
  unfolding fail_all
  fails_to_the_end delivery [] inside some_time count = absurd (omega (arith, some_time))
  fails_to_the_end delivery (t ∷ []) inside some_time count =
      let attempts = delivery.attempts ++ (attempt_of t t none ∷ []) in
      let all_made : length attempts ≡ maximum_attempts =
        omega (arith, count, length-append delivery.attempts (attempt_of t t none ∷ [])) in
      (
        with_state delivery dead_letter attempts none,
        rw (last_attempt delivery attempts t all_made) refl,
        refl,
        refl,
        all_made,
      )
  fails_to_the_end delivery (t ∷ u ∷ times) inside some_time count =
      let attempts = delivery.attempts ++ (attempt_of t t none ∷ []) in
      let one_more = length-append delivery.attempts (attempt_of t t none ∷ []) in
      let next =
        with_state delivery retrying attempts (some (t +ℤ pos (delay jitter (length attempts)))) in
      let step =
        early_attempt delivery attempts t (omega (arith, one_more)) (omega (arith, one_more, count))
          inside.0.0 inside.0.1 in
      let rest =
        fails_to_the_end next (u ∷ times) inside.1 (omega arith) (omega (arith, one_more, count)) in
      (rest.0, rw step rest.1, rest.2, rest.3, rest.4)
