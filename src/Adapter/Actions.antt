-- ===== src/Adapter/Actions.antt =====
-- The parts of `PahoMqttAdapter` that its callbacks share (backend/src/powerguard/mqtt/client.py).
-- What it asks of its transport is appended to `requests`; what it hands to the application loop
-- is appended to `loop_calls`.
use aiot_powerguard.Prelude.{
  ℕ, ◌+◌, Bool, true, false, not, ◌&&◌, ◌||◌, Option, none, some, [], ◌∷◌, ◌++◌, ◌==◌, nat_eq,
  if◌then◌else◌, ltb, is_some,
}
use aiot_powerguard.Adapter.State.{
  Reason, suback_timeout, LoopCall, schedule, Request, disconnect, MqttCounters, connecting,
  Adapter,
}
use aiot_powerguard.Adapter.Codes.{reconnect_delay, is_nil}

abbrev pub count : (MqttCounters → MqttCounters) → Adapter → Adapter
count f a = record a { counters = f a.counters }

abbrev pub send : Request → Adapter → Adapter
send r a = record a { requests = r ∷ a.requests }

-- `disconnect()` of the transport, which also ends a CONNECT that is on its way
abbrev pub send_disconnect : Adapter → Adapter
send_disconnect a = record (send disconnect a) { connect_unanswered = false }

-- `_from_paho_thread`
abbrev pub from_paho_thread : LoopCall → Adapter → Adapter
from_paho_thread c a = record a { loop_calls = a.loop_calls ++ c ∷ [] }

unfoldable pub subscriptions_confirmed : Adapter → Bool
subscriptions_confirmed a = a.session_healthy && is_nil a.pending_subacks

unfoldable pub report_connection : Bool → Adapter → Adapter
report_connection connected a = record a {
  session_healthy = connected;
  deferred_failure = if connected then none else a.deferred_failure;
  reported = connected;
}

unfoldable pub schedule_reconnect : Reason → Bool → Adapter → Adapter
schedule_reconnect reason immediate a =
    if a.stopping then a else from_paho_thread (schedule reason immediate) a

unfoldable pub request_reconnect : Reason → Adapter → Adapter
unfolding report_connection schedule_reconnect
request_reconnect reason a =
    if a.stopping
    then a
    else schedule_reconnect reason false (
        send_disconnect (
          report_connection false
            (count (λ c. record c { reconnects_requested = c.reconnects_requested + 1 }) a)))

abbrev pub disarm_suback : Adapter → Adapter
disarm_suback a = record a { suback_timer = false }

unfoldable pub arm_suback : Adapter → Adapter
arm_suback a =
    if a.stopping || is_nil a.pending_subacks
    then disarm_suback a
    else record a { suback_timer = true }

unfoldable pub fail_session : Reason → Adapter → Adapter
unfolding report_connection request_reconnect
fail_session reason a = request_reconnect reason (
    report_connection false (
      disarm_suback (
        count (λ c. record c { sessions_failed = c.sessions_failed + 1 })
          (record a { pending_subacks = []; generation = a.generation + 1 }))))

unfoldable pub on_suback_timeout : Adapter → Adapter
on_suback_timeout a =
    if a.stopping || is_nil a.pending_subacks
    then disarm_suback a
    else fail_session suback_timeout
        (count (λ c. record c { suback_timeouts = c.suback_timeouts + 1 }) (disarm_suback a))

unfoldable pub cancel_reconnect_timer : Adapter → Adapter
cancel_reconnect_timer a = record a {
  reconnect_timer = none;
  armed_generation = none;
  armed_is_retry = false;
}

-- the retry is armed for a newer session than the confirmed one
abbrev newer : Option ℕ → ℕ → Bool
newer none g = false
newer (some armed) g = ltb g armed

unfoldable pub supersede_retry_for : ℕ → Adapter → Adapter
unfolding cancel_reconnect_timer
supersede_retry_for g a =
    if not (g == a.generation)
    then count (λ c. record c { stale_health_ignored = c.stale_health_ignored + 1 }) a
    else if not a.session_healthy
    then a
    else let b = record a { deferred_failure = none } in
      if not (is_some a.reconnect_timer)
      then b
      else if not a.armed_is_retry
      then b
      else if newer a.armed_generation g
      then b
      else cancel_reconnect_timer
          (count (λ c. record c { retries_superseded = c.retries_superseded + 1 }) b)

-- `_schedule_on_loop`, with the random draw that a delay takes
unfoldable pub schedule_on_loop : ℕ → Reason → Bool → Adapter → Adapter
schedule_on_loop draw reason immediate a =
    if a.stopping || not a.started
    then a
    else if is_some a.reconnect_task
    then record (count
        (λ c. record c {
          reconnects_coalesced = c.reconnects_coalesced + 1;
          failures_deferred = c.failures_deferred + 1;
        })
        a) { deferred_failure = some reason }
    else if is_some a.reconnect_timer
    then count (λ c. record c { reconnects_coalesced = c.reconnects_coalesced + 1 }) a
    else let (attempt, delay) =
        if immediate then (a.reconnect_attempt, 0) else reconnect_delay draw a.reconnect_attempt in
      record (count (λ c. record c { reconnects_scheduled = c.reconnects_scheduled + 1 }) a) {
        reconnect_attempt = attempt;
        pending_reason = reason;
        armed_generation = some a.generation;
        armed_is_retry = not immediate;
        reconnect_timer = some delay;
      }

-- `_attempt_reconnect`, when the timer fires
unfoldable pub attempt_reconnect : Adapter → Adapter
unfolding cancel_reconnect_timer
attempt_reconnect a =
    let b = cancel_reconnect_timer a in
    if a.stopping || is_some a.reconnect_task
    then b
    else record b { reconnect_task = some connecting }

unfoldable pub withhold_delivery : Reason → Adapter → Adapter
withhold_delivery reason a =
    let b = count (λ c. record c { withheld = c.withheld + 1 }) a in
    if a.stopping || a.redelivery_requested
    then b
    else request_reconnect reason (record b { redelivery_requested = true })
