-- ===== src/Application/Webhooks/Follows.antt =====
-- What a run of the delivery service does.
use Prim.Native.String.{String}
use pvlog.Common.{
  ok_or-ok, ℕ, ◌<◌, ◌≡◌, refl, sym, ap, subst, ◌∙◌, Bool, [], ◌∷◌, ◌++◌, length-append, Option,
  none, some, ℤ, pos, ◌+ℤ◌, Result, ok, err, ok_or, ok_injective, err_ne_ok, arith,
}
use pvlog.Common.Stateful.{Stateful, and_then, and_then-eq-ok}
use pvlog.Application.Webhooks.{
  WebhookDelivery, WebhookDeliveryState, pending, dead_letter, DeliveryWorkItem, not_found,
  DeliveryMetrics, DeliveryRepository, attempt_of, is_success, add, settle, with_state,
  with_delivery, count_attempt, count_outcome,
}
use pvlog.Application.Webhooks.Service.{
  stored, metric, sent, deliver, deliver_claimed, run_once, must_be_dead, replay,
}
use pvlog.Application.Webhooks.Retry.{add_value, Settled, settle-Settled}

-- A claimed item was sent once, settled by the answer, and saved, its state was returned, and the sending
-- and the saving are all that changed the world.
pub record Delivers {Request W : Type 0} (repository : DeliveryRepository Request W)
    (send : Request → W → Option ℕ × W) (started finished : ℤ) (item : DeliveryWorkItem Request)
    (w : W) (state : WebhookDeliveryState) (final : W) : Type 0 where
  pub status : Option ℕ
  pub answered : (send item.request w).0 ≡ status
  pub after : WebhookDelivery
  pub settled :
      Settled
        (item.delivery.attempts ++ (attempt_of started finished status ∷ []))
        item.maximum_attempts
        finished
        item.delivery
        (is_success status)
        after
  pub saved : (repository.save (with_delivery item after) (send item.request w).1).0 ≡ ok tt
  pub left : final ≡ (repository.save (with_delivery item after) (send item.request w).1).1
  pub returned : state ≡ after.state

-- A run with what was claimed.
abbrev pub Ran :
    {Request W : Type 0}
    → DeliveryRepository Request W
    → (Request → W → Option ℕ × W)
    → ℤ
    → ℤ
    → Option (DeliveryWorkItem Request)
    → W
    → Option WebhookDeliveryState
    → W
    → Type 0
Ran repository send started finished none w result final = (result ≡ none) × (final ≡ w)
Ran repository send started finished (some item) w result final =
    (state : WebhookDeliveryState) × (result ≡ some state)
    × Delivers repository send started finished item w state final

-- A call that succeeds after another one: what the first returns, and the result and the world of the
-- second.
and_then-run :
    {W E A B : Type 0} (next : A → Stateful W E B) (r : Result E A × W) {b : B}
    → (and_then next r).0 ≡ ok b
    → (a : A) × (r.0 ≡ ok a) × ((next a r.1).0 ≡ ok b) × ((and_then next r).1 ≡ (next a r.1).1)
and_then-run next (err e, w) h = absurd (err_ne_ok h)
and_then-run next (ok a, w) h = (a, refl, h, refl)

module _ {Request W : Type 0} (in_calendar : ℤ → Bool) (repository : DeliveryRepository Request W)
    (send : Request → W → Option ℕ × W) (jitter : ℕ → ℕ)
    (law : (upper : ℕ) → 0 < upper → jitter upper < upper) where
  deliver-Delivers :
      (started finished : ℤ) (item : DeliveryWorkItem Request) (m : DeliveryMetrics) (w : W)
      (result : Option WebhookDeliveryState)
      → (deliver in_calendar repository send jitter started finished item (m, w)).0 ≡ ok result
      → (state : WebhookDeliveryState) × (result ≡ some state)
        × Delivers repository send started finished item w state
            (deliver in_calendar repository send jitter started finished item (m, w)).1.1
  unfolding deliver sent metric stored
  deliver-Delivers started finished item m w result e =
      let status = (send item.request w).0 in
      let v = (send item.request w).1 in
      let attempts = item.delivery.attempts ++ (attempt_of started finished status ∷ []) in
      let one_more =
        length-append item.delivery.attempts (attempt_of started finished status ∷ []) in
      let (after, settled, e1, left1) =
        and_then-run _
          (
            settle in_calendar jitter item.delivery attempts (is_success status)
                item.maximum_attempts finished,
            (count_attempt m, v),
          )
          e in
      let (done, saved, e2, left2) =
        and_then-run _
          (
            (repository.save (with_delivery item after) v).0,
            (
              count_outcome after.state (count_attempt m),
              (repository.save (with_delivery item after) v).1,
            ),
          )
          e1 in
      (
        after.state,
        sym (ok_injective _ result e2),
        record {
          status = status;
          answered = refl;
          after = after;
          settled =
              settle-Settled in_calendar jitter item.delivery attempts (is_success status)
                item.maximum_attempts finished after law (omega (arith, one_more)) settled;
          saved = saved;
          left = ap (λ (u : DeliveryMetrics × W). u.1) (left1 ∙ left2);
          returned = refl;
        },
      )

  deliver_claimed-Ran :
      (started finished : ℤ) (claimed : Option (DeliveryWorkItem Request)) (m : DeliveryMetrics)
      (w : W) (result : Option WebhookDeliveryState)
      → (deliver_claimed in_calendar repository send jitter started finished claimed (m, w)).0
        ≡ ok result
      → Ran repository send started finished claimed w result
          (deliver_claimed in_calendar repository send jitter started finished claimed (m, w)).1.1
  unfolding deliver_claimed
  deliver_claimed-Ran started finished none m w result e = (sym (ok_injective none result e), refl)
  deliver_claimed-Ran started finished (some item) m w result e =
      deliver-Delivers started finished item m w result e

-- With a jitter below its bound, if a run succeeds, then the claim succeeded with a lease of thirty seconds;
-- if it claimed no item, nothing is returned; otherwise the item is sent once, the delivery gets the
-- attempt and is delivered on a success, dead after the last attempt allowed, and else to be tried again a
-- second to an hour and a quarter after the attempt; it is saved so, and its state is returned. The world
-- is left as the claim leaves it if nothing is claimed, and else as one claim, one sending and one saving,
-- in this order, leave it.
pub run_once-Delivers :
    {Request W : Type 0} (in_calendar : ℤ → Bool) (repository : DeliveryRepository Request W)
    (send : Request → W → Option ℕ × W) (jitter : ℕ → ℕ) (worker_id : String)
    (now started finished : ℤ) (m : DeliveryMetrics) (w : W) (result : Option WebhookDeliveryState)
    → ((upper : ℕ) → 0 < upper → jitter upper < upper)
    → (run_once in_calendar repository send jitter worker_id now started finished (m, w)).0
      ≡ ok result
    → (claimed : Option (DeliveryWorkItem Request)) × ((repository.claim worker_id now
          (now +ℤ pos 30000)
          w).0
        ≡ ok claimed)
      × Ran repository send started finished claimed
          (repository.claim worker_id now (now +ℤ pos 30000) w).1
          result
          (run_once in_calendar repository send jitter worker_id now started finished (m, w)).1.1
unfolding run_once stored
run_once-Delivers in_calendar repository send jitter worker_id now started finished m w result law
      e =
    let (until, lease, e1, left1) = and_then-run _ (add in_calendar now 30000, (m, w)) e in
    let (claimed, got, e2, left2) =
      and_then-run _
        (
          (repository.claim worker_id now until w).0,
          (m, (repository.claim worker_id now until w).1),
        )
        e1 in
    subst
      (λ u.
        (c : Option (DeliveryWorkItem _)) × ((repository.claim worker_id now u w).0 ≡ ok c)
        × Ran repository send started finished c (repository.claim worker_id now u w).1 result
            (run_once in_calendar repository send jitter worker_id now started finished (m, w)).1.1)
      (add_value in_calendar now 30000 until lease)
      (
        claimed,
        got,
        subst (Ran repository send started finished claimed _ result)
            (ap (λ (u : DeliveryMetrics × _). u.1) (sym (left1 ∙ left2)))
            (deliver_claimed-Ran in_calendar repository send jitter law started finished claimed m _
              result e2),
      )

dead_only :
    (state : WebhookDeliveryState) {u : Unit {0}} → must_be_dead state ≡ ok u → state ≡ dead_letter
dead_only dead_letter e = refl
dead_only pending e = absurd (err_ne_ok e)
dead_only WebhookDeliveryState.delivered e = absurd (err_ne_ok e)
dead_only WebhookDeliveryState.retrying e = absurd (err_ne_ok e)

-- If a replay succeeds, then the delivery was found as a dead letter, and it is saved and returned as
-- pending at the present instant, with no attempts made.
pub replay-Revives :
    {Request W : Type 0} (repository : DeliveryRepository Request W) (id : ℕ) (now : ℤ)
    (m : DeliveryMetrics) (w : W) (after : WebhookDelivery)
    → (replay repository id now (m, w)).0 ≡ ok after
    → (item : DeliveryWorkItem Request) × ((repository.find id w).0 ≡ ok (some item))
      × (item.delivery.state ≡ dead_letter)
      × (after ≡ with_state item.delivery pending [] (some now))
      × ((repository.save (with_delivery item after) (repository.find id w).1).0 ≡ ok tt)
unfolding replay stored metric
replay-Revives repository id now m w after e =
    let v = (repository.find id w).1 in
    let (found, got, e1) = and_then-eq-ok _ ((repository.find id w).0, (m, v)) e in
    let (item, there, e2) = and_then-eq-ok _ (ok_or found not_found, (m, v)) e1 in
    let (done, dead, e3) = and_then-eq-ok _ (must_be_dead item.delivery.state, (m, v)) e2 in
    let revived = with_state item.delivery pending [] (some now) in
    let (kept, saved, e4) =
      and_then-eq-ok _
        (
          (repository.save (with_delivery item revived) v).0,
          (m, (repository.save (with_delivery item revived) v).1),
        )
        e3 in
    let same : revived ≡ after = ok_injective revived after e4 in
    (
      item,
      got ∙ ap ok (ok_or-ok found not_found there),
      dead_only item.delivery.state dead,
      sym same,
      subst (λ d. (repository.save (with_delivery item d) v).0 ≡ ok tt) same saved,
    )
