-- ===== src/Adapter/Callbacks.antt =====
-- The callbacks of `PahoMqttAdapter`, its worker, and its life cycle
-- (backend/src/powerguard/mqtt/client.py). Each runs to its end before another begins.
use aiot_powerguard.Prelude.{
  ℕ, ◌+◌, Bool, true, false, not, ◌&&◌, ◌||◌, Option, none, some, List, [], ◌∷◌, ◌++◌, ◌==◌, nat_eq,
  if◌then◌else◌, ltb, length, is_some, any_of,
}
use aiot_powerguard.Prelude.Dict.{lookup, insert, erase}
use aiot_powerguard.Adapter.State.{
  InboundMessage, AckDecision, ack, withhold, TopicFilter, telemetry_filter, status_filter,
  ReasonCode, initial_connect, subscription_refused, subscribe_rejected, connack_refused,
  unexpected_disconnect, ingress_saturated, withheld_acknowledgement, handler_failed,
  attempt_failed, Pending, arm_suback_timer, disarm_suback_timer, supersede, enqueue, connect_async,
  reconnect, loop_start, loop_stop, subscribe, unsubscribe, ack_delivery, returned, Adapter,
}
use aiot_powerguard.Adapter.Actions.{
  count, send, send_disconnect, from_paho_thread, subscriptions_confirmed, report_connection,
  schedule_reconnect, request_reconnect, disarm_suback, fail_session, cancel_reconnect_timer,
  withhold_delivery,
}
use aiot_powerguard.Adapter.Codes.{reason_is_failure, granted_qos, too_low, is_nil}

abbrev pub subscriptions : List TopicFilter
subscriptions = telemetry_filter ∷ status_filter ∷ []

-- `subscribe()` as the transport answers it: a result, 0 for success, and a message id
abbrev pub Replies : Type 0
Replies = TopicFilter → ℕ × Option ℕ

abbrev pub accepted : ℕ × Option ℕ → Option ℕ
accepted (result, mid) = if result == 0 then mid else none

-- a SUBSCRIBE that was queued, under its message id
abbrev pub await_suback : ℕ → ℕ → TopicFilter → Adapter → Adapter
await_suback g mid f a = record (send (subscribe f) a) {
  pending_subacks = insert mid (record { generation = g; topic = f }) a.pending_subacks;
}

-- The loop of `_on_connect` over the filters that are left, with what follows it.
unfoldable pub subscribe_from : Replies → ℕ → List TopicFilter → Adapter → Adapter
subscribe_from replies g [] a = from_paho_thread arm_suback_timer a
subscribe_from replies g (f ∷ fs) a = elim (accepted (replies f)) [
  | none ↦ fail_session subscribe_rejected (
      count (λ c. record c { subscribe_failures = c.subscribe_failures + 1 })
        (send (subscribe f) a))
  | some mid ↦ subscribe_from replies g fs (await_suback g mid f a)
]

unfoldable pub on_connect : ReasonCode → Replies → Adapter → Adapter
unfolding report_connection schedule_reconnect subscribe_from
on_connect reason replies a =
    let g = a.generation + 1 in
    let b = record a { pending_subacks = []; generation = g; connect_unanswered = false } in
    if reason_is_failure reason
    then schedule_reconnect connack_refused false (
        report_connection false
          (count (λ c. record c { connect_failures = c.connect_failures + 1 }) b))
    else if a.stopping
    then b
    else subscribe_from replies g subscriptions b

unfoldable pub on_disconnect : Adapter → Adapter
unfolding report_connection schedule_reconnect
on_disconnect a =
    let b = report_connection false (
      from_paho_thread disarm_suback_timer
        (record (count (λ c. record c { disconnected = c.disconnected + 1 }) a) {
          pending_subacks = [];
          generation = a.generation + 1;
          connect_unanswered = false;
        })) in
    if a.stopping
    then b
    else schedule_reconnect unexpected_disconnect false
        (count (λ c. record c { unexpected_disconnects = c.unexpected_disconnects + 1 }) b)

-- the last SUBACK of the session has come
unfoldable pub confirm : ℕ → Adapter → Adapter
unfolding report_connection
confirm g a = from_paho_thread (supersede g) (
    report_connection true
      (record (count (λ c. record c { connected = c.connected + 1 })
        (from_paho_thread disarm_suback_timer a)) {
          reconnect_attempt = 0;
          redelivery_requested = false;
        }))

-- a SUBACK that answers a pending SUBSCRIBE of this session
unfoldable pub answer_suback : ℕ → Pending → List ReasonCode → Adapter → Adapter
answer_suback mid p codes a =
    if is_nil codes || any_of (λ c. too_low (granted_qos c)) codes
    then fail_session subscription_refused
        (count (λ c. record c { subscriptions_refused = c.subscriptions_refused + 1 }) a)
    else let b = record (count (λ c. record c { subscribed = c.subscribed + 1 }) a) {
      pending_subacks = erase mid a.pending_subacks;
    } in
      if not (is_nil b.pending_subacks) then b else confirm p.generation b

abbrev stale_suback : Adapter → Adapter
stale_suback = count (λ c. record c { stale_subacks_ignored = c.stale_subacks_ignored + 1 })

unfoldable pub on_subscribe : ℕ → List ReasonCode → Adapter → Adapter
unfolding answer_suback
on_subscribe mid codes a = elim (lookup mid a.pending_subacks) [
  | none ↦ stale_suback a
  | some p ↦ if p.generation == a.generation then answer_suback mid p codes a else stale_suback a
]

abbrev drop_delivery : Adapter → Adapter
drop_delivery = count (λ c. record c { dropped_after_shutdown = c.dropped_after_shutdown + 1 })

unfoldable pub on_message : InboundMessage → Adapter → Adapter
on_message m a =
    let b = count (λ c. record c { received = c.received + 1 }) a in
    if a.stopping
    then drop_delivery b
    else if not a.started
    then b
    else from_paho_thread (enqueue m) b

-- `_enqueue`
unfoldable pub enqueue_record : InboundMessage → Adapter → Adapter
enqueue_record m a =
    if a.stopping
    then drop_delivery a
    else if ltb (length a.queue) a.queue_size
    then record (count (λ c. record c { enqueued = c.enqueued + 1 }) a) {
      queue = a.queue ++ m ∷ [];
    }
    else request_reconnect ingress_saturated
        (count (λ c. record c { saturated = c.saturated + 1 }) a)

-- `_drain`, up to the handler
take_head : List InboundMessage → Adapter → Adapter
take_head [] a = a
take_head (m ∷ ms) a = record a { queue = ms; in_hand = some m }

unfoldable pub worker_take : Adapter → Adapter
unfolding take_head
worker_take a = if a.worker && not (is_some a.in_hand) then take_head a.queue a else a

-- how the handling of a message ended: by a decision, with an exception of the handler, or with one
-- of the transport's `ack`
pub data Handled : Type 0 where
  decided : AckDecision → Handled
  handler_raised ack_raised : Handled

unfoldable pub handle_outcome : InboundMessage → Handled → Adapter → Adapter
handle_outcome m (decided ack) a =
    count (λ c. record c { acknowledged = c.acknowledged + 1 }) (send (ack_delivery m.mid m.qos) a)
handle_outcome m (decided withhold) a = withhold_delivery withheld_acknowledgement a
handle_outcome m handler_raised a =
    withhold_delivery handler_failed
      (count (λ c. record c { handler_errors = c.handler_errors + 1 }) a)
handle_outcome m ack_raised a =
    withhold_delivery handler_failed
      (count (λ c. record c { handler_errors = c.handler_errors + 1 }) a)

-- `_drain`, from the handler's end on
unfoldable pub worker_finish : Handled → Adapter → Adapter
unfolding handle_outcome
worker_finish h a =
    if a.worker
    then elim (a.in_hand) [ none ↦ a | some m ↦ handle_outcome m h (record a { in_hand = none }) ]
    else a

abbrev attempt_counted : Adapter → Adapter
attempt_counted = count (λ c. record c { reconnect_attempts = c.reconnect_attempts + 1 })

-- `_run_reconnect` after the attempt, which failed or not
unfoldable pub run_reconnect_end : Bool → Adapter → Adapter
unfolding subscriptions_confirmed schedule_reconnect
run_reconnect_end failed a =
    let b = record a { reconnect_task = none; deferred_failure = none } in
    if a.stopping
    then send loop_stop (
        send_disconnect (
          count
            (λ c. record c {
              reconnects_discarded_after_shutdown = c.reconnects_discarded_after_shutdown + 1;
            })
            b))
    else if failed
    then schedule_reconnect attempt_failed false b
    else elim (a.deferred_failure) [
      | none ↦ b
      | some reason ↦ if subscriptions_confirmed a then b else schedule_reconnect reason false b
    ]

-- `_connect_blocking` when `reconnect()` returns
unfoldable pub connect_blocking : Adapter → Adapter
connect_blocking a =
    let b = record (send reconnect (attempt_counted a)) {
      reconnect_task = some returned;
      connect_unanswered = true;
    } in
    if a.stopping then b else send loop_start b

-- `_connect_blocking` when `reconnect()` raises, with the end of the attempt
unfoldable pub attempt_raises : Adapter → Adapter
attempt_raises a =
    run_reconnect_end true
      (record (count
        (λ c. record c { reconnect_attempt_failures = c.reconnect_attempt_failures + 1 })
        (send reconnect (attempt_counted a))) { connect_unanswered = false })

unfoldable pub start : Adapter → Adapter
unfolding schedule_reconnect
start a =
    schedule_reconnect initial_connect true
      (send connect_async (record a { started = true; worker = true; queue = [] }))

-- `stop` up to its first `await`
unfoldable pub stop_begin : Adapter → Adapter
unfolding cancel_reconnect_timer
stop_begin a = record (cancel_reconnect_timer (disarm_suback (record a { stopping = true }))) {
  deferred_failure = none;
  pending_subacks = [];
}

-- `stop` after it has waited for a running attempt, up to the drain
unfoldable pub stop_unsubscribe : Adapter → Adapter
stop_unsubscribe a = send (unsubscribe status_filter) (send (unsubscribe telemetry_filter) a)

-- `stop` after the drain, which timed out or not, and with the worker retired
unfoldable pub stop_end : Bool → Adapter → Adapter
unfolding report_connection
stop_end timed_out a =
    let b =
      if timed_out then count (λ c. record c { drain_timeouts = c.drain_timeouts + 1 }) a else a in
    report_connection false
      (record (send loop_stop (send_disconnect b)) { worker = false; in_hand = none })
