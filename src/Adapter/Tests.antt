-- ===== src/Adapter/Tests.antt =====
-- Runs of the adapter, and the theorems at concrete inputs.
use aiot_powerguard.Prelude.{
  ℕ, ◌*◌, ◌≤◌, ◌≡◌, refl, ◌⊎◌, true, false, some, List, [], ◌∷◌, ◌++◌, nat_eq, arith, ℕ_discrete,
  ◌^◌, ◌-◌,
}
use aiot_powerguard.Prelude.Int.{pos}
use aiot_powerguard.Prelude.Dict.{lookup, insert, erase}
use aiot_powerguard.Adapter.State.{
  InboundMessage, ack, telemetry_filter, status_filter, ReasonCode, code,
}
use aiot_powerguard.Adapter.Actions.{
  schedule_reconnect, arm_suback, fail_session, supersede_retry_for, schedule_on_loop,
  attempt_reconnect,
}
use aiot_powerguard.Adapter.Callbacks.{
  Replies, subscribe_from, on_connect, confirm, answer_suback, on_subscribe, on_message,
  enqueue_record, worker_take, decided, handle_outcome, worker_finish, run_reconnect_end,
  connect_blocking, start, stop_begin,
}
use aiot_powerguard.Adapter.Machine.{
  Event, connack, suback, delivery, loop_tick, reconnect_timer_fires, worker_takes, worker_finishes,
  attempt_connects, attempt_ends, run_oldest, step, run, new_adapter, started_run,
}
use aiot_powerguard.Adapter.Codes.{
  delay_base, delay_unit, reconnect_max, reason_is_failure, granted_qos, reconnect_delay,
  next_attempt, rounded, round_to, last_place,
}
use aiot_powerguard.Adapter.Live.{started_run-IsLive}
use aiot_powerguard.Adapter.Pursuit.{IsLive}
use aiot_powerguard.Adapter.Ledger.{started_run-IsAccounted}
use aiot_powerguard.Adapter.Untouched.{IsAccounted}
use aiot_powerguard.Adapter.Session.{Completes, step-healthy}
use aiot_powerguard.Adapter.Shutdown.{IsStopped, stop_begin-final}
use aiot_powerguard.Adapter.Delay.{reconnect_delay_bounds}

abbrev granted : List ReasonCode
granted = code (some false) (some (pos 1)) ∷ []

abbrev refused : List ReasonCode
refused = code (some true) (some (pos 128)) ∷ []

abbrev success : ReasonCode
success = code (some false) (some (pos 0))

abbrev replies : Replies
replies telemetry_filter = (0, some 1)
replies status_filter = (0, some 2)

abbrev message : InboundMessage
message = record { topic = []; payload = []; received_at = 0; mid = 7; qos = 1; retained = false }

-- up to the second SUBACK
abbrev connecting_events : List Event
connecting_events =
    loop_tick 0
    ∷ reconnect_timer_fires
    ∷ attempt_connects
    ∷ attempt_ends
    ∷ connack success replies
    ∷ loop_tick 0
    ∷ suback 1 granted
    ∷ []

abbrev happy : List Event
happy =
    connecting_events
    ++ suback 2 granted
      ∷ delivery message
      ∷ loop_tick 0
      ∷ loop_tick 0
      ∷ loop_tick 0
      ∷ worker_takes
      ∷ worker_finishes (decided ack)
      ∷ []

happy_acknowledges :
    let a = started_run 4 happy in
    (a.session_healthy ≡ true) × (a.counters.acknowledged ≡ 1) × (a.queue ≡ [])
unfolding run step start new_adapter run_oldest on_connect subscribe_from on_subscribe on_message
    worker_take worker_finish handle_outcome connect_blocking run_reconnect_end attempt_reconnect
    schedule_on_loop schedule_reconnect fail_session arm_suback supersede_retry_for enqueue_record
    reason_is_failure granted_qos lookup insert erase ℕ_discrete confirm answer_suback
happy_acknowledges = (refl, refl, refl)

-- The other filter is refused: the session ends, and a late SUBACK cannot revive it.
refusal_ends :
    let a = started_run 4 (connecting_events ++ suback 2 refused ∷ suback 2 granted ∷ []) in
    (a.session_healthy ≡ false) × (a.counters.stale_subacks_ignored ≡ 1)
unfolding run step start new_adapter run_oldest on_connect subscribe_from on_subscribe on_message
    worker_take worker_finish handle_outcome connect_blocking run_reconnect_end attempt_reconnect
    schedule_on_loop schedule_reconnect fail_session arm_suback supersede_retry_for enqueue_record
    reason_is_failure granted_qos lookup insert erase ℕ_discrete confirm answer_suback
refusal_ends = (refl, refl)

started_run-IsLive_example : IsLive (started_run 4 (connecting_events ++ suback 2 refused ∷ []))
started_run-IsLive_example = started_run-IsLive 4 (connecting_events ++ suback 2 refused ∷ [])

started_run-IsAccounted_example : IsAccounted (started_run 4 happy)
started_run-IsAccounted_example = started_run-IsAccounted 4 happy

step-healthy_example :
    let a = started_run 4 connecting_events in
    (a.session_healthy ≡ true)
    ⊎ ((mid : ℕ) × (codes : List ReasonCode) × (suback 2 granted ≡ suback mid codes)
        × Completes mid codes a)
unfolding run step start new_adapter run_oldest on_connect subscribe_from on_subscribe on_message
    worker_take worker_finish handle_outcome connect_blocking run_reconnect_end attempt_reconnect
    schedule_on_loop schedule_reconnect fail_session arm_suback supersede_retry_for enqueue_record
    reason_is_failure granted_qos lookup insert erase ℕ_discrete confirm answer_suback
step-healthy_example = step-healthy (suback 2 granted) (started_run 4 connecting_events) refl

stop_begin-final_example :
    IsStopped (started_run 4 happy) (run (delivery message ∷ []) (stop_begin (started_run 4 happy)))
stop_begin-final_example = stop_begin-final (started_run 4 happy) (delivery message ∷ [])

reconnect_delay_bounds_example :
    let (n, delay) = reconnect_delay 5 2 in
    (delay_base n * delay_unit ≤ 2 * delay)
    × (delay ≤ delay_base n * delay_unit)
    × (1 ≤ delay_base n)
    × (delay_base n ≤ reconnect_max)
reconnect_delay_bounds_example = reconnect_delay_bounds 5 2 (omega arith)

-- the largest draw is rounded up to the whole window
whole_window : (reconnect_delay (2 ^ 53 - 1) 0).1 ≡ 2 ^ 54
unfolding reconnect_delay next_attempt delay_base rounded round_to last_place ℕ_discrete
whole_window = refl
