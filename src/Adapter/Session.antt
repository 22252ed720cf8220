-- ===== src/Adapter/Session.antt =====
-- When a session counts as usable, and the watch over its subscriptions.
use aiot_powerguard.Prelude.{
  ℕ, ◌+◌, ◌≡◌, refl, ◌⊎◌, inl, inr, Bool, true, false, none, some, List, [], ◌∷◌, ◌==◌, nat_eq,
  any_of, arith, Bool-cases, Option-cases,
}
use aiot_powerguard.Prelude.Dict.{lookup, erase}
use aiot_powerguard.Adapter.State.{
  InboundMessage, ack, withhold, TopicFilter, ReasonCode, Reason, suback_timeout,
  subscription_refused, subscribe_rejected, ingress_saturated, withheld_acknowledgement,
  handler_failed, Pending, LoopCall, arm_suback_timer, disarm_suback_timer, supersede, schedule,
  enqueue, reconnect, subscribe, Adapter,
}
use aiot_powerguard.Adapter.Actions.{
  count, send, request_reconnect, disarm_suback, arm_suback, fail_session, on_suback_timeout,
  supersede_retry_for, schedule_on_loop, attempt_reconnect, withhold_delivery,
}
use aiot_powerguard.Adapter.Callbacks.{
  Replies, accepted, await_suback, subscriptions, subscribe_from, on_connect, on_disconnect,
  answer_suback, on_subscribe, on_message, enqueue_record, worker_take, Handled, decided,
  handler_raised, ack_raised, handle_outcome, worker_finish, run_reconnect_end, connect_blocking,
  attempt_raises, stop_begin, stop_unsubscribe, stop_end,
}
use aiot_powerguard.Adapter.Machine.{
  Event, connack, connection_lost, suback, delivery, loop_tick, suback_timer_fires,
  reconnect_timer_fires, worker_takes, worker_finishes, attempt_connects, attempt_fails,
  attempt_ends, stop_begins, stop_unsubscribes, stop_ends, run_call, run_oldest, step,
}
use aiot_powerguard.Adapter.Codes.{is_nil, granted_qos, too_low}

-- a SUBACK that grants every filter it answers at QoS 1 or more
abbrev pub Grants : List ReasonCode → Type 0
Grants codes = (is_nil codes ≡ false) × (any_of (λ c. too_low (granted_qos c)) codes ≡ false)

-- a SUBACK for the one subscription of the current session that is not answered yet
abbrev pub Completes : ℕ → List ReasonCode → Adapter → Type 0
Completes mid codes a =
    (p : Pending) × (lookup mid a.pending_subacks ≡ some p)
    × (p.generation ≡ a.generation)
    × Grants codes
    × (is_nil (erase mid a.pending_subacks) ≡ true)

abbrev Dims : Adapter → Adapter → Type 0
Dims a b = b.session_healthy ≡ true → a.session_healthy ≡ true

request_reconnect-Dims : (r : Reason) (a : Adapter) → Dims a (request_reconnect r a)
unfolding request_reconnect
request_reconnect-Dims r a h = ground arith

fail_session_ends : (r : Reason) (a : Adapter) → (fail_session r a).session_healthy ≡ false
unfolding fail_session
fail_session_ends r a = ground arith

subscribe_from-Dims :
    (replies : Replies) (g : ℕ) (fs : List TopicFilter) (a : Adapter)
    → Dims a (subscribe_from replies g fs a)
unfolding subscribe_from
subscribe_from-Dims replies g [] a h = h
subscribe_from-Dims replies g (f ∷ fs) a h = elim (Option-cases (accepted (replies f))) [
  | inl e ↦ ground (
    arith,
    fail_session_ends subscribe_rejected (
        count (λ c. record c { subscribe_failures = c.subscribe_failures + 1 })
          (send (subscribe f) a)),
  )
  | inr (mid, e) ↦ subscribe_from-Dims replies g fs (await_suback g mid f a) (ground arith)
]

on_connect-Dims :
    (reason : ReasonCode) (replies : Replies) (a : Adapter) → Dims a (on_connect reason replies a)
unfolding on_connect
on_connect-Dims reason replies a h = ground (
  arith,
  subscribe_from-Dims replies (a.generation + 1) subscriptions (record a {
    pending_subacks = [];
    generation = a.generation + 1;
    connect_unanswered = false;
  }),
)

answer_suback-healthy :
    (mid : ℕ) (p : Pending) (codes : List ReasonCode) (a : Adapter)
    → (answer_suback mid p codes a).session_healthy ≡ true
    → (a.session_healthy ≡ true) ⊎ (Grants codes × (is_nil (erase mid a.pending_subacks) ≡ true))
unfolding answer_suback
answer_suback-healthy mid p codes a h = ground (
  arith,
  fail_session_ends subscription_refused
      (count (λ c. record c { subscriptions_refused = c.subscriptions_refused + 1 }) a),
)

on_subscribe-healthy :
    (mid : ℕ) (codes : List ReasonCode) (a : Adapter)
    → (on_subscribe mid codes a).session_healthy ≡ true
    → (a.session_healthy ≡ true) ⊎ Completes mid codes a
unfolding on_subscribe
on_subscribe-healthy mid codes a h = elim (Option-cases (lookup mid a.pending_subacks)) [
  | inl e ↦ inl (ground arith)
  | inr (p, e) ↦ elim (Bool-cases (p.generation == a.generation)) [
    | inr old ↦ inl (ground arith)
    | inl now ↦ elim (answer_suback-healthy mid p codes a (ground arith)) [
      | inl was ↦ inl was
      | inr done ↦ inr (p, e, ground arith, done.0, done.1)
    ]
  ]
]

enqueue_record-Dims : (m : InboundMessage) (a : Adapter) → Dims a (enqueue_record m a)
unfolding enqueue_record
enqueue_record-Dims m a h = ground (
  arith,
  request_reconnect-Dims ingress_saturated
      (count (λ c. record c { saturated = c.saturated + 1 }) a),
)

run_call-Dims : (draw : ℕ) (c : LoopCall) (a : Adapter) → Dims a (run_call draw c a)
unfolding run_call arm_suback supersede_retry_for schedule_on_loop
run_call-Dims draw arm_suback_timer a h = ground arith
run_call-Dims draw disarm_suback_timer a h = ground arith
run_call-Dims draw (supersede g) a h = ground arith
run_call-Dims draw (schedule r i) a h = ground arith
run_call-Dims draw (enqueue m) a h = enqueue_record-Dims m a h

run_oldest-Dims : (draw : ℕ) (cs : List LoopCall) (a : Adapter) → Dims a (run_oldest draw cs a)
unfolding run_oldest
run_oldest-Dims draw [] a h = h
run_oldest-Dims draw (c ∷ cs) a h = run_call-Dims draw c (record a { loop_calls = cs }) h

withhold_delivery-Dims : (r : Reason) (a : Adapter) → Dims a (withhold_delivery r a)
unfolding withhold_delivery
withhold_delivery-Dims r a h = ground (
  arith,
  request_reconnect-Dims r (record (count (λ c. record c { withheld = c.withheld + 1 }) a) {
    redelivery_requested = true;
  }),
)

handle_outcome-Dims :
    (m : InboundMessage) (k : Handled) (a : Adapter) → Dims a (handle_outcome m k a)
unfolding handle_outcome
handle_outcome-Dims m (decided ack) a h = h
handle_outcome-Dims m (decided withhold) a h = withhold_delivery-Dims withheld_acknowledgement a h
handle_outcome-Dims m handler_raised a h = withhold_delivery-Dims handler_failed _ h
handle_outcome-Dims m ack_raised a h = withhold_delivery-Dims handler_failed _ h

worker_finish-Dims : (k : Handled) (a : Adapter) → Dims a (worker_finish k a)
unfolding worker_finish
worker_finish-Dims k a h = elim (Option-cases a.in_hand) [
  | inl e ↦ ground arith
  | inr (m, e) ↦ ground (arith, handle_outcome-Dims m k (record a { in_hand = none }))
]

run_reconnect_end-Dims : (failed : Bool) (a : Adapter) → Dims a (run_reconnect_end failed a)
unfolding run_reconnect_end
run_reconnect_end-Dims failed a h = ground arith

-- A session becomes usable by one event only: a SUBACK of the current session that grants QoS 1 or
-- more and answers the last subscription that was open.
pub step-healthy :
    (e : Event) (a : Adapter)
    → (step e a).session_healthy ≡ true
    → (a.session_healthy ≡ true)
      ⊎ ((mid : ℕ) × (codes : List ReasonCode) × (e ≡ suback mid codes) × Completes mid codes a)
unfolding step
step-healthy (suback mid codes) a h = elim (on_subscribe-healthy mid codes a h) [
  | inl was ↦ inl was
  | inr done ↦ inr (mid, codes, refl, done)
]
step-healthy (connack reason replies) a h = inl (on_connect-Dims reason replies a h)
step-healthy connection_lost a h = inl (unfold on_disconnect in ground arith)
step-healthy (delivery m) a h = inl (unfold on_message in ground arith)
step-healthy (loop_tick draw) a h = inl (run_oldest-Dims draw a.loop_calls a h)
step-healthy suback_timer_fires a h = inl (
    unfold on_suback_timeout in
    ground (
      arith,
      fail_session_ends suback_timeout
          (count (λ c. record c { suback_timeouts = c.suback_timeouts + 1 }) (disarm_suback a)),
    ))
step-healthy reconnect_timer_fires a h = inl (unfold attempt_reconnect in ground arith)
step-healthy worker_takes a h = inl (unfold worker_take in ground arith)
step-healthy (worker_finishes k) a h = inl (worker_finish-Dims k a h)
step-healthy attempt_connects a h = inl (unfold connect_blocking in ground arith)
step-healthy attempt_fails a h = inl (
    unfold attempt_raises in
    ground (
      arith,
      run_reconnect_end-Dims true
          (record (count
            (λ c. record c { reconnect_attempt_failures = c.reconnect_attempt_failures + 1 })
            (send reconnect
              (count (λ c. record c { reconnect_attempts = c.reconnect_attempts + 1 }) a))) {
                connect_unanswered = false;
              }),
    ))
step-healthy attempt_ends a h = inl (ground (arith, run_reconnect_end-Dims false a))
step-healthy stop_begins a h = inl (unfold stop_begin in ground arith)
step-healthy stop_unsubscribes a h = inl (unfold stop_unsubscribe in ground arith)
step-healthy (stop_ends t) a h = inl (unfold stop_end in ground arith)
