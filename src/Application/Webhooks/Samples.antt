-- ===== src/Application/Webhooks/Samples.antt =====
-- src/crates/application/src/webhook_delivery.rs: a delivery with three attempts to an end point that is down.
use pvlog.Common.{
  ℕ, ◌<◌, ◌≤◌, ◌≡◌, refl, Bool, true, [], ◌∷◌, Option, none, some, length, ℤ, pos, ◌+ℤ◌, ◌≤ℤ◌, All,
  +ℤ_parts, ok, arith,
}
use pvlog.Application.Webhooks.{
  WebhookDelivery, WebhookDeliveryState, pending, retrying, dead_letter, DeliveryWorkItem,
  DeliveryMetrics, DeliveryRepository, with_state, with_delivery,
}
use pvlog.Application.Webhooks.Service.{run_once, replay}
use pvlog.Application.Webhooks.Retry.{fail_all}
use pvlog.Application.Webhooks.Ending.{fails_to_the_end}
use pvlog.Application.Webhooks.Follows.{Ran, run_once-Delivers, replay-Revives}

abbrev calendar : ℤ → Bool
calendar t = true

abbrev no_jitter : ℕ → ℕ
no_jitter upper = 0

below : (upper : ℕ) → 0 < upper → no_jitter upper < upper
below upper h = h

abbrev fresh : WebhookDelivery
fresh = record {
  id = 1;
  subscription_id = 2;
  event_id = "e";
  schema_version = 1;
  state = pending;
  attempts = [];
  next_attempt_at = some (pos 0);
}

abbrev item : DeliveryWorkItem (Unit {0})
item = record { delivery = fresh; request = tt; maximum_attempts = 3; lease_expires_at = pos 30000 }

-- A world of one item, which every claim gets.
abbrev one_item : DeliveryRepository (Unit {0}) (DeliveryWorkItem (Unit {0}))
one_item = record {
  claim = λ worker now until w. (ok (some w), w);
  save = λ i w. (ok tt, i);
  find = λ id w. (ok (some w), w);
}

abbrev down : Unit {0} → DeliveryWorkItem (Unit {0}) → Option ℕ × DeliveryWorkItem (Unit {0})
down request w = (some 503, w)

abbrev counts : DeliveryMetrics
counts = record { attempts = 0; delivered = 0; retries = 0; dead_letters = 0; replays = 0 }

starts : (n : ℕ) → n ≤ 500000 → pos n +ℤ pos 4500000 ≤ℤ pos 5000000
starts n h = omega (arith, +ℤ_parts (pos n) (pos 4500000), h)

fails_to_the_end_example :
    (after : WebhookDelivery) × (fail_all calendar no_jitter 3 fresh
        (pos 0 ∷ pos 2000 ∷ pos 9000 ∷ [])
      ≡ ok after)
    × (after.state ≡ dead_letter)
    × (after.next_attempt_at ≡ none)
    × (length after.attempts ≡ 3)
fails_to_the_end_example =
    fails_to_the_end calendar no_jitter 5000000 below (λ s h k. refl) (omega arith) 3 fresh
      (pos 0 ∷ pos 2000 ∷ pos 9000 ∷ []) within (omega arith) refl
  where
    within :
        All
          (λ t. (pos 0 ≤ℤ t) × (t +ℤ pos 4500000 ≤ℤ pos 5000000))
          (pos 0 ∷ pos 2000 ∷ pos 9000 ∷ [])
    within = (
      (omega arith, starts 0 (omega arith)),
      ((omega arith, starts 2000 (omega arith)), ((omega arith, starts 9000 (omega arith)), tt)),
    )

tried_again :
    (run_once calendar one_item down no_jitter "w" (pos 0) (pos 0) (pos 10) (counts, item)).0
    ≡ ok (some retrying)
unfolding run_once pvlog.Application.Webhooks.add ◌+ℤ◌ pvlog.Application.Webhooks.Service.stored
    pvlog.Application.Webhooks.Service.deliver_claimed pvlog.Application.Webhooks.Service.deliver
    pvlog.Application.Webhooks.Service.sent pvlog.Application.Webhooks.Service.metric
    pvlog.Application.Webhooks.settle pvlog.Application.Webhooks.backoff
tried_again = refl

run_once-Delivers_example :
    (claimed : Option (DeliveryWorkItem (Unit {0}))) × ((one_item.claim "w"
        (pos 0)
        (pos 0 +ℤ pos 30000)
        item).0
      ≡ ok claimed)
    × Ran one_item down
        (pos 0)
        (pos 10)
        claimed
        item
        (some retrying)
        (run_once calendar one_item down no_jitter "w" (pos 0) (pos 0) (pos 10) (counts, item)).1.1
run_once-Delivers_example =
    run_once-Delivers calendar one_item down no_jitter "w" (pos 0) (pos 0) (pos 10) counts item
      (some retrying) below tried_again

abbrev dead : DeliveryWorkItem (Unit {0})
dead = with_delivery item (with_state fresh dead_letter [] none)

revived :
    (replay one_item 1 (pos 5) (counts, dead)).0 ≡ ok (with_state fresh pending [] (some (pos 5)))
unfolding replay pvlog.Application.Webhooks.Service.stored pvlog.Application.Webhooks.Service.metric
revived = refl

replay-Revives_example :
    (i : DeliveryWorkItem (Unit {0})) × ((one_item.find 1 dead).0 ≡ ok (some i))
    × (i.delivery.state ≡ dead_letter)
    × (with_state fresh pending [] (some (pos 5)) ≡ with_state i.delivery pending [] (some (pos 5)))
    × ((one_item.save (with_delivery i (with_state fresh pending [] (some (pos 5)))) dead).0
        ≡ ok tt)
replay-Revives_example =
    replay-Revives one_item 1 (pos 5) counts dead (with_state fresh pending [] (some (pos 5)))
      revived
