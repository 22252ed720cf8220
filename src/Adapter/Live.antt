-- ===== src/Adapter/Live.antt =====
-- The adapter never stops trying: while it is not shutting down, a session that is not usable has
-- something under way that leads to a new one.
use aiot_powerguard.Prelude.{
  ℕ, ◌+◌, ◌≡◌, refl, inl, inr, Bool, true, false, ◌||◌, none, some, List, [], ◌∷◌, ◌++◌, nat_eq,
  is_some, arith, Option-cases,
}
use aiot_powerguard.Prelude.Dict.{Dict, lookup, insert, erase}
use aiot_powerguard.Adapter.State.{
  InboundMessage, ack, withhold, TopicFilter, telemetry_filter, status_filter, ReasonCode, Reason,
  suback_timeout, subscription_refused, subscribe_rejected, connack_refused, unexpected_disconnect,
  withheld_acknowledgement, handler_failed, attempt_failed, Pending, disarm_suback_timer, schedule,
  enqueue, subscribe, connecting, returned, Adapter,
}
use aiot_powerguard.Adapter.Actions.{
  count, send, disarm_suback, on_suback_timeout, attempt_reconnect, withhold_delivery,
}
use aiot_powerguard.Adapter.Callbacks.{
  Replies, accepted, await_suback, subscribe_from, on_connect, on_disconnect, confirm,
  answer_suback, on_subscribe, on_message, worker_take, Handled, decided, handler_raised,
  ack_raised, handle_outcome, worker_finish, run_reconnect_end, connect_blocking, attempt_raises,
  start, stop_begin, stop_unsubscribe, stop_end,
}
use aiot_powerguard.Adapter.Machine.{
  Event, connack, connection_lost, suback, delivery, loop_tick, suback_timer_fires,
  reconnect_timer_fires, worker_takes, worker_finishes, attempt_connects, attempt_fails,
  attempt_ends, stop_begins, stop_unsubscribes, stop_ends, step, run-keeps, new_adapter,
  started_run,
}
use aiot_powerguard.Adapter.Codes.{is_nil}
use aiot_powerguard.Adapter.Pursuit.{
  pursues, has_schedule-append, Ready, request_reconnect-IsLive, fail_session-IsLive,
  run_oldest-IsLive, IsLive,
}

insert-ne-nil : (mid : ℕ) (p : Pending) (d : Dict ℕ Pending) → is_nil (insert mid p d) ≡ false
unfolding insert
insert-ne-nil mid p [] = refl
insert-ne-nil mid p (x ∷ d) = ground arith

-- The loop over the filters needs a started adapter, no more: it ends with a SUBSCRIBE that the
-- broker has to answer, or with a failed session.
subscribe_from-IsLive :
    (replies : Replies) (g : ℕ) (f : TopicFilter) (fs : List TopicFilter) (a : Adapter)
    → Ready a
    → IsLive (subscribe_from replies g (f ∷ fs) a)
unfolding subscribe_from
subscribe_from-IsLive replies g f [] a h = elim (Option-cases (accepted (replies f))) [
  | inl refused ↦ ground (
    arith,
    fail_session-IsLive subscribe_rejected
        (count (λ c. record c { subscribe_failures = c.subscribe_failures + 1 })
          (send (subscribe f) a))
        h,
  )
  | inr (mid, e) ↦
      ground (arith, insert-ne-nil mid (record { generation = g; topic = f }) a.pending_subacks)
]
subscribe_from-IsLive replies g f (f' ∷ fs) a h = elim (Option-cases (accepted (replies f))) [
  | inl refused ↦ ground (
    arith,
    fail_session-IsLive subscribe_rejected
        (count (λ c. record c { subscribe_failures = c.subscribe_failures + 1 })
          (send (subscribe f) a))
        h,
  )
  | inr (mid, e) ↦
      rw (e, subscribe_from) (subscribe_from-IsLive replies g f' fs (await_suback g mid f a) h)
]

on_connect-IsLive :
    (reason : ReasonCode) (replies : Replies) (a : Adapter)
    → IsLive a
    → IsLive (on_connect reason replies a)
unfolding on_connect
on_connect-IsLive reason replies a h = ground (
  arith,
  has_schedule-append a.loop_calls (schedule connack_refused false ∷ []),
  subscribe_from-IsLive replies (a.generation + 1) telemetry_filter (status_filter ∷ []) (record a {
    pending_subacks = [];
    generation = a.generation + 1;
    connect_unanswered = false;
  }),
)

on_disconnect-IsLive : (a : Adapter) → IsLive a → IsLive (on_disconnect a)
unfolding on_disconnect
on_disconnect-IsLive a h = ground (
  arith,
  has_schedule-append (a.loop_calls ++ disarm_suback_timer ∷ [])
      (schedule unexpected_disconnect false ∷ []),
)

confirm-IsLive : (g : ℕ) (a : Adapter) → Ready a → IsLive (confirm g a)
unfolding confirm
confirm-IsLive g a h = ground arith

abbrev refused_count : Adapter → Adapter
refused_count = count (λ c. record c { subscriptions_refused = c.subscriptions_refused + 1 })

abbrev subscribed : ℕ → Adapter → Adapter
subscribed mid a = record (count (λ c. record c { subscribed = c.subscribed + 1 }) a) {
  pending_subacks = erase mid a.pending_subacks;
}

answer_suback-IsLive :
    (mid : ℕ) (p : Pending) (codes : List ReasonCode) (a : Adapter)
    → Ready a
    → IsLive (answer_suback mid p codes a)
unfolding answer_suback
answer_suback-IsLive mid p codes a h = ground (
  arith,
  fail_session-IsLive subscription_refused (refused_count a) h,
  confirm-IsLive p.generation (subscribed mid a) h,
)

on_subscribe-IsLive :
    (mid : ℕ) (codes : List ReasonCode) (a : Adapter) → IsLive a → IsLive (on_subscribe mid codes a)
unfolding on_subscribe
on_subscribe-IsLive mid codes a h = elim (Option-cases (lookup mid a.pending_subacks)) [
  | inl e ↦ ground arith
  | inr (p, e) ↦ ground (arith, answer_suback-IsLive mid p codes a (h.is_started, h.exclusive))
]

run_reconnect_end-IsLive :
    (failed : Bool) (a : Adapter)
    → a.started ≡ true
    → a.reconnect_timer ≡ none
    → (a.stopping ≡ false
        → (failed || (pursues (record a { reconnect_task = some returned }))) ≡ true)
    → IsLive (run_reconnect_end failed a)
unfolding run_reconnect_end
run_reconnect_end-IsLive failed a s t w = elim (Option-cases a.deferred_failure) [
  | inl e ↦ ground (arith, has_schedule-append a.loop_calls (schedule attempt_failed false ∷ []))
  | inr (r, e) ↦ ground (
    arith,
    has_schedule-append a.loop_calls (schedule attempt_failed false ∷ []),
    has_schedule-append a.loop_calls (schedule r false ∷ []),
  )
]

withhold_delivery-IsLive : (r : Reason) (a : Adapter) → IsLive a → IsLive (withhold_delivery r a)
unfolding withhold_delivery
withhold_delivery-IsLive r a h = ground (
  arith,
  request_reconnect-IsLive r
      (record (count (λ c. record c { withheld = c.withheld + 1 }) a) {
        redelivery_requested = true;
      })
      (h.is_started, h.exclusive),
)

handle_outcome-IsLive :
    (m : InboundMessage) (k : Handled) (a : Adapter) → IsLive a → IsLive (handle_outcome m k a)
unfolding handle_outcome
handle_outcome-IsLive m (decided ack) a h = ground arith
handle_outcome-IsLive m (decided withhold) a h =
    withhold_delivery-IsLive withheld_acknowledgement a h
handle_outcome-IsLive m handler_raised a h =
    withhold_delivery-IsLive handler_failed _ (ground arith)
handle_outcome-IsLive m ack_raised a h = withhold_delivery-IsLive handler_failed _ (ground arith)

worker_finish-IsLive : (k : Handled) (a : Adapter) → IsLive a → IsLive (worker_finish k a)
unfolding worker_finish
worker_finish-IsLive k a h = elim (Option-cases a.in_hand) [
  | inl e ↦ ground arith
  | inr (m, e) ↦ ground (arith, handle_outcome-IsLive m k (record a { in_hand = none }))
]

worker_take-IsLive : (a : Adapter) → IsLive a → IsLive (worker_take a)
unfolding worker_take
worker_take-IsLive a h = ground arith

attempt_raises-IsLive :
    (a : Adapter) → a.reconnect_task ≡ some connecting → IsLive a → IsLive (attempt_raises a)
unfolding attempt_raises run_reconnect_end
attempt_raises-IsLive a e h =
    ground (arith, has_schedule-append a.loop_calls (schedule attempt_failed false ∷ []))

on_message-IsLive : (m : InboundMessage) (a : Adapter) → IsLive a → IsLive (on_message m a)
unfolding on_message
on_message-IsLive m a h = ground (arith, has_schedule-append a.loop_calls (enqueue m ∷ []))

on_suback_timeout-IsLive : (a : Adapter) → IsLive a → IsLive (on_suback_timeout a)
unfolding on_suback_timeout
on_suback_timeout-IsLive a h = ground (
  arith,
  fail_session-IsLive suback_timeout
      (count (λ c. record c { suback_timeouts = c.suback_timeouts + 1 }) (disarm_suback a))
      (h.is_started, h.exclusive),
)

attempt_reconnect-IsLive :
    (a : Adapter) → is_some a.reconnect_timer ≡ true → IsLive a → IsLive (attempt_reconnect a)
unfolding attempt_reconnect
attempt_reconnect-IsLive a t h = ground arith

connect_blocking-IsLive :
    (a : Adapter) → a.reconnect_task ≡ some connecting → IsLive a → IsLive (connect_blocking a)
unfolding connect_blocking
connect_blocking-IsLive a e h = ground arith

step-IsLive : (e : Event) (a : Adapter) → IsLive a → IsLive (step e a)
unfolding step
step-IsLive (connack reason replies) a h = on_connect-IsLive reason replies a h
step-IsLive connection_lost a h = on_disconnect-IsLive a h
step-IsLive (suback mid codes) a h = on_subscribe-IsLive mid codes a h
step-IsLive (delivery m) a h = on_message-IsLive m a h
step-IsLive (loop_tick draw) a h = run_oldest-IsLive draw a.loop_calls a refl h
step-IsLive suback_timer_fires a h = ground (arith, on_suback_timeout-IsLive a h)
step-IsLive reconnect_timer_fires a h = ground (arith, attempt_reconnect-IsLive a)
step-IsLive worker_takes a h = worker_take-IsLive a h
step-IsLive (worker_finishes k) a h = worker_finish-IsLive k a h
step-IsLive attempt_connects a h = ground (arith, connect_blocking-IsLive a)
step-IsLive attempt_fails a h = ground (arith, attempt_raises-IsLive a)
step-IsLive attempt_ends a h = ground (arith, run_reconnect_end-IsLive false a h.is_started)
step-IsLive stop_begins a h = unfold stop_begin in ground arith
step-IsLive stop_unsubscribes a h = unfold stop_unsubscribe in ground arith
step-IsLive (stop_ends t) a h = unfold stop_end in ground arith

-- In every state that a started adapter reaches, by any events in any order, unless shutdown has
-- begun: the session is usable, or a retry is armed or handed to the loop, or the broker owes an
-- answer to a SUBSCRIBE or a CONNECT, or an attempt is in flight that has not connected yet or that
-- has a failure to act on when it ends. A retry is never armed while an attempt is in flight.
pub started_run-IsLive : (size : ℕ) (events : List Event) → IsLive (started_run size events)
unfolding start new_adapter
started_run-IsLive size events = run-keeps IsLive step-IsLive events _ (ground arith)
