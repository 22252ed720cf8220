-- ===== src/Adapter/Ledger.antt =====
-- No delivery is lost silently: each is waiting for the loop, in the queue, in the worker's hand, or
-- counted by what became of it; and the queue keeps its bound.
use aiot_powerguard.Prelude.{
  ℕ, ◌+◌, ◌≡◌, refl, inl, inr, true, false, none, some, List, [], ◌∷◌, nat_eq, arith, Option-cases,
  length-append,
}
use aiot_powerguard.Adapter.State.{
  InboundMessage, ack, withhold, Reason, ingress_saturated, withheld_acknowledgement,
  handler_failed, LoopCall, arm_suback_timer, disarm_suback_timer, supersede, schedule, enqueue,
  reconnect, Adapter,
}
use aiot_powerguard.Adapter.Actions.{
  count, send, arm_suback, supersede_retry_for, attempt_reconnect, withhold_delivery,
}
use aiot_powerguard.Adapter.Callbacks.{
  on_message, enqueue_record, worker_take, Handled, decided, handler_raised, ack_raised,
  handle_outcome, worker_finish, connect_blocking, attempt_raises, start, stop_begin,
  stop_unsubscribe, stop_end,
}
use aiot_powerguard.Adapter.Machine.{
  Event, connack, connection_lost, suback, delivery, loop_tick, suback_timer_fires,
  reconnect_timer_fires, worker_takes, worker_finishes, attempt_connects, attempt_fails,
  attempt_ends, stop_begins, stop_unsubscribes, stop_ends, run_call, run_oldest, step, run-keeps,
  new_adapter, started_run,
}
use aiot_powerguard.Adapter.Untouched.{
  Untouched-IsAccounted, waiting-append, request_reconnect-Untouched, on_connect-Untouched,
  on_disconnect-Untouched, on_subscribe-Untouched, on_suback_timeout-Untouched,
  run_reconnect_end-Untouched, schedule_on_loop-Untouched, IsAccounted, Untouched,
}

-- One call of the loop: a delivery that waited is queued, refused or dropped.
run_call-IsAccounted :
    (draw : ℕ) (c : LoopCall) (cs : List LoopCall) (a : Adapter)
    → a.loop_calls ≡ c ∷ cs
    → IsAccounted a
    → IsAccounted (run_call draw c (record a { loop_calls = cs }))
unfolding run_call arm_suback enqueue_record supersede_retry_for
run_call-IsAccounted draw arm_suback_timer cs a e h = ground arith
run_call-IsAccounted draw disarm_suback_timer cs a e h = ground arith
run_call-IsAccounted draw (supersede g) cs a e h = ground arith
run_call-IsAccounted draw (schedule r i) cs a e h =
    ground (arith, schedule_on_loop-Untouched draw r i (record a { loop_calls = cs }))
run_call-IsAccounted draw (enqueue m) cs a e h = ground (
  arith,
  length-append a.queue (m ∷ []),
  request_reconnect-Untouched ingress_saturated
      (count (λ c. record c { saturated = c.saturated + 1 }) (record a { loop_calls = cs })),
)

run_oldest-IsAccounted :
    (draw : ℕ) (cs : List LoopCall) (a : Adapter)
    → a.loop_calls ≡ cs
    → IsAccounted a
    → IsAccounted (run_oldest draw cs a)
unfolding run_oldest
run_oldest-IsAccounted draw [] a e h = h
run_oldest-IsAccounted draw (c ∷ cs) a e h = run_call-IsAccounted draw c cs a e h

on_message-IsAccounted :
    (m : InboundMessage) (a : Adapter) → IsAccounted a → IsAccounted (on_message m a)
unfolding on_message
on_message-IsAccounted m a h = ground (arith, waiting-append a.loop_calls (enqueue m ∷ []))

worker_take-IsAccounted : (a : Adapter) → IsAccounted a → IsAccounted (worker_take a)
unfolding worker_take
worker_take-IsAccounted a h = ground arith

-- Withholding counts the message, whatever it asks of the session.
withhold_delivery-counts :
    (r : Reason) (a : Adapter)
    → Untouched (count (λ c. record c { withheld = c.withheld + 1 }) a) (withhold_delivery r a)
unfolding withhold_delivery
withhold_delivery-counts r a = ground (
  arith,
  request_reconnect-Untouched r (record (count (λ c. record c { withheld = c.withheld + 1 }) a) {
    redelivery_requested = true;
  }),
)

abbrev error_counted : Adapter → Adapter
error_counted = count (λ c. record c { handler_errors = c.handler_errors + 1 })

handle_outcome-IsAccounted :
    (m : InboundMessage) (k : Handled) (a : Adapter)
    → a.worker ≡ true
    → a.in_hand ≡ some m
    → IsAccounted a
    → IsAccounted (handle_outcome m k (record a { in_hand = none }))
unfolding handle_outcome
handle_outcome-IsAccounted m (decided ack) a w e h = ground arith
handle_outcome-IsAccounted m (decided withhold) a w e h =
    ground (arith, withhold_delivery-counts withheld_acknowledgement (record a { in_hand = none }))
handle_outcome-IsAccounted m handler_raised a w e h =
    ground
      (arith, withhold_delivery-counts handler_failed (error_counted (record a { in_hand = none })))
handle_outcome-IsAccounted m ack_raised a w e h =
    ground
      (arith, withhold_delivery-counts handler_failed (error_counted (record a { in_hand = none })))

worker_finish-IsAccounted :
    (k : Handled) (a : Adapter) → IsAccounted a → IsAccounted (worker_finish k a)
unfolding worker_finish
worker_finish-IsAccounted k a h = elim (Option-cases a.in_hand) [
  | inl e ↦ ground arith
  | inr (m, e) ↦ ground (arith, handle_outcome-IsAccounted m k a)
]

attempt_raises-Untouched : (a : Adapter) → Untouched a (attempt_raises a)
unfolding attempt_raises
attempt_raises-Untouched a = ground (
  arith,
  run_reconnect_end-Untouched true
      (record (count
        (λ c. record c { reconnect_attempt_failures = c.reconnect_attempt_failures + 1 })
        (send reconnect
          (count (λ c. record c { reconnect_attempts = c.reconnect_attempts + 1 }) a))) {
            connect_unanswered = false;
          }),
)

step-IsAccounted : (e : Event) (a : Adapter) → IsAccounted a → IsAccounted (step e a)
unfolding step
step-IsAccounted (connack reason replies) a h =
    Untouched-IsAccounted a _ (on_connect-Untouched reason replies a) h
step-IsAccounted connection_lost a h = Untouched-IsAccounted a _ (on_disconnect-Untouched a) h
step-IsAccounted (suback mid codes) a h =
    Untouched-IsAccounted a _ (on_subscribe-Untouched mid codes a) h
step-IsAccounted (delivery m) a h = on_message-IsAccounted m a h
step-IsAccounted (loop_tick draw) a h = run_oldest-IsAccounted draw a.loop_calls a refl h
step-IsAccounted suback_timer_fires a h = ground (arith, on_suback_timeout-Untouched a)
step-IsAccounted reconnect_timer_fires a h = unfold attempt_reconnect in ground arith
step-IsAccounted worker_takes a h = worker_take-IsAccounted a h
step-IsAccounted (worker_finishes k) a h = worker_finish-IsAccounted k a h
step-IsAccounted attempt_connects a h = unfold connect_blocking in ground arith
step-IsAccounted attempt_fails a h = ground (arith, attempt_raises-Untouched a)
step-IsAccounted attempt_ends a h = ground (arith, run_reconnect_end-Untouched false a)
step-IsAccounted stop_begins a h = unfold stop_begin in ground arith
step-IsAccounted stop_unsubscribes a h = unfold stop_unsubscribe in ground arith
step-IsAccounted (stop_ends t) a h = unfold stop_end in ground arith

-- In every state that a started adapter reaches: every delivery received is waiting for the loop,
-- was queued, or is counted as saturated or as dropped at shutdown; while there is a worker, every
-- message that was queued is still in the queue, in the worker's hand, or counted as acknowledged or
-- as withheld; and the queue is within its size.
pub started_run-IsAccounted :
    (size : ℕ) (events : List Event) → IsAccounted (started_run size events)
unfolding start new_adapter
started_run-IsAccounted size events = run-keeps IsAccounted step-IsAccounted events _ (ground arith)
