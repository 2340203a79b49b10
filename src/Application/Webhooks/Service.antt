-- ===== src/Application/Webhooks/Service.antt =====
-- src/crates/application/src/webhook_delivery.rs: a delivery is claimed, sent, settled and saved.
use Prim.Native.String.{String}
use pvlog.Common.{ℕ, Bool, [], ◌∷◌, ◌++◌, Option, none, some, ℤ, Result, ok, err, ok_or}
use pvlog.Common.Stateful.{Stateful, ◌>>=◌, ◌>>◌, returning}
use pvlog.Application.Webhooks.{
  WebhookDelivery, WebhookDeliveryState, pending, dead_letter, DeliveryWorkItem,
  DeliveryServiceError, not_found, not_dead_letter, DeliveryMetrics, DeliveryRepository, attempt_of,
  is_success, add, settle, with_state, with_delivery, count_attempt, count_outcome, count_replay,
}

-- A call that does not touch the metrics, and one that only does.
unfoldable pub stored : {M W E A : Type 0} → Stateful W E A → Stateful (M × W) E A
stored call (m, w) = let (r, v) = call w in (r, (m, v))

unfoldable pub metric : {M W E : Type 0} → (M → M) → Stateful (M × W) E (Unit {0})
metric update (m, w) = (ok tt, (update m, w))

unfoldable pub sent :
    {M W E Request : Type 0}
    → (Request → W → Option ℕ × W)
    → Request
    → Stateful (M × W) E (Option ℕ)
sent send request (m, w) = let (status, v) = send request w in (ok status, (m, v))

module _ {Request W : Type 0} (in_calendar : ℤ → Bool) (repository : DeliveryRepository Request W)
    (send : Request → W → Option ℕ × W) (jitter : ℕ → ℕ) where
  -- What is done with an item that was claimed.
  unfoldable pub deliver :
      ℤ
      → ℤ
      → DeliveryWorkItem Request
      → Stateful (DeliveryMetrics × W) DeliveryServiceError (Option WebhookDeliveryState)
  deliver started finished item = do
    status ← sent send item.request
    metric count_attempt
    delivery ← returning (
        settle in_calendar jitter item.delivery
          (item.delivery.attempts ++ (attempt_of started finished status ∷ [])) (is_success status)
          item.maximum_attempts finished)
    metric (count_outcome delivery.state)
    stored (repository.save (with_delivery item delivery))
    returning (ok (some delivery.state))

  unfoldable pub deliver_claimed :
      ℤ
      → ℤ
      → Option (DeliveryWorkItem Request)
      → Stateful (DeliveryMetrics × W) DeliveryServiceError (Option WebhookDeliveryState)
  deliver_claimed started finished none = returning (ok none)
  deliver_claimed started finished (some item) = deliver started finished item

  unfoldable pub run_once :
      String
      → ℤ
      → ℤ
      → ℤ
      → Stateful (DeliveryMetrics × W) DeliveryServiceError (Option WebhookDeliveryState)
  run_once worker_id now started finished = do
    lease_until ← returning (add in_calendar now 30000)
    claimed ← stored (repository.claim worker_id now lease_until)
    deliver_claimed started finished claimed

-- Only a dead letter is replayed.
abbrev pub must_be_dead : WebhookDeliveryState → Result DeliveryServiceError (Unit {0})
must_be_dead dead_letter = ok tt
must_be_dead state = err not_dead_letter

module _ {Request W : Type 0} (repository : DeliveryRepository Request W) where
  unfoldable pub replay :
      ℕ → ℤ → Stateful (DeliveryMetrics × W) DeliveryServiceError WebhookDelivery
  replay id now = do
    found ← stored (repository.find id)
    item ← returning (ok_or found not_found)
    returning (must_be_dead item.delivery.state)
    stored (repository.save (with_delivery item (with_state item.delivery pending [] (some now))))
    metric count_replay
    returning (ok (with_state item.delivery pending [] (some now)))
