-- ===== src/Adapter/Machine.antt =====
-- The adapter over a schedule of events: every callback of the broker, tick of the application
-- loop, timer, step of the worker and end of a connection attempt, in any order.
use aiot_powerguard.Prelude.{
  ℕ, Bool, false, none, some, List, [], ◌∷◌, nat_eq, if◌then◌else◌, is_some,
}
use aiot_powerguard.Adapter.State.{
  InboundMessage, ReasonCode, initial_connect, LoopCall, arm_suback_timer, disarm_suback_timer,
  supersede, schedule, enqueue, MqttCounters, connecting, returned, Adapter,
}
use aiot_powerguard.Adapter.Actions.{
  disarm_suback, arm_suback, on_suback_timeout, supersede_retry_for, schedule_on_loop,
  attempt_reconnect,
}
use aiot_powerguard.Adapter.Callbacks.{
  Replies, on_connect, on_disconnect, on_subscribe, on_message, enqueue_record, worker_take,
  Handled, worker_finish, run_reconnect_end, connect_blocking, attempt_raises, start, stop_begin,
  stop_unsubscribe, stop_end,
}

abbrev pub no_counts : MqttCounters
no_counts = record {
  connected = 0;
  connect_failures = 0;
  disconnected = 0;
  unexpected_disconnects = 0;
  subscribed = 0;
  subscribe_failures = 0;
  subscriptions_refused = 0;
  suback_timeouts = 0;
  received = 0;
  enqueued = 0;
  saturated = 0;
  dropped_after_shutdown = 0;
  acknowledged = 0;
  withheld = 0;
  handler_errors = 0;
  sessions_failed = 0;
  stale_subacks_ignored = 0;
  reconnects_scheduled = 0;
  reconnects_requested = 0;
  reconnects_coalesced = 0;
  failures_deferred = 0;
  retries_superseded = 0;
  stale_health_ignored = 0;
  reconnect_attempts = 0;
  reconnect_attempt_failures = 0;
  reconnects_discarded_after_shutdown = 0;
  drain_timeouts = 0;
}

-- `PahoMqttAdapter.__init__`
unfoldable pub new_adapter : ℕ → Adapter
new_adapter size = record {
  queue_size = size;
  started = false;
  stopping = false;
  queue = [];
  in_hand = none;
  worker = false;
  redelivery_requested = false;
  reconnect_attempt = 0;
  pending_subacks = [];
  generation = 0;
  suback_timer = false;
  reconnect_timer = none;
  reconnect_task = none;
  pending_reason = initial_connect;
  deferred_failure = none;
  session_healthy = false;
  armed_generation = none;
  armed_is_retry = false;
  reported = false;
  counters = no_counts;
  loop_calls = [];
  requests = [];
  connect_unanswered = false;
}

pub data Event : Type 0 where
  connack : ReasonCode → Replies → Event
  connection_lost : Event
  suback : ℕ → List ReasonCode → Event
  delivery : InboundMessage → Event
  -- the loop runs the oldest call handed to it, with a random draw at hand
  loop_tick : ℕ → Event
  suback_timer_fires reconnect_timer_fires : Event
  worker_takes : Event
  worker_finishes : Handled → Event
  attempt_connects attempt_fails attempt_ends : Event
  stop_begins stop_unsubscribes : Event
  stop_ends : Bool → Event

unfoldable pub run_call : ℕ → LoopCall → Adapter → Adapter
run_call draw arm_suback_timer a = arm_suback a
run_call draw disarm_suback_timer a = disarm_suback a
run_call draw (supersede g) a = supersede_retry_for g a
run_call draw (schedule reason immediate) a = schedule_on_loop draw reason immediate a
run_call draw (enqueue m) a = enqueue_record m a

unfoldable pub run_oldest : ℕ → List LoopCall → Adapter → Adapter
unfolding run_call
run_oldest draw [] a = a
run_oldest draw (c ∷ cs) a = run_call draw c (record a { loop_calls = cs })

-- An event that cannot happen in a state changes nothing.
unfoldable pub step : Event → Adapter → Adapter
step (connack reason replies) a = on_connect reason replies a
step connection_lost a = on_disconnect a
step (suback mid codes) a = on_subscribe mid codes a
step (delivery m) a = on_message m a
step (loop_tick draw) a = run_oldest draw a.loop_calls a
step suback_timer_fires a = if a.suback_timer then on_suback_timeout a else a
step reconnect_timer_fires a = if is_some a.reconnect_timer then attempt_reconnect a else a
step worker_takes a = worker_take a
step (worker_finishes h) a = worker_finish h a
step attempt_connects a = elim (a.reconnect_task) [
  | some connecting ↦ connect_blocking a
  | some returned ↦ a
  | none ↦ a
]
step attempt_fails a = elim (a.reconnect_task) [
  | some connecting ↦ attempt_raises a
  | some returned ↦ a
  | none ↦ a
]
step attempt_ends a = elim (a.reconnect_task) [
  | some returned ↦ run_reconnect_end false a
  | some connecting ↦ a
  | none ↦ a
]
step stop_begins a = stop_begin a
step stop_unsubscribes a = if a.stopping then stop_unsubscribe a else a
step (stop_ends timed_out) a = if a.stopping then stop_end timed_out a else a

unfoldable pub run : List Event → Adapter → Adapter
run [] a = a
run (e ∷ es) a = run es (step e a)

-- every state that the adapter can be in once it was started
abbrev pub started_run : ℕ → List Event → Adapter
started_run size events = run events (start (new_adapter size))

-- A property that every event keeps holds after any run.
pub run-keeps {ℓ} :
    (P : Adapter → Type ℓ)
    → ((e : Event) (a : Adapter) → P a → P (step e a))
    → (es : List Event) (a : Adapter) → P a
    → P (run es a)
unfolding run
run-keeps P keep [] a h = h
run-keeps P keep (e ∷ es) a h = run-keeps P keep es (step e a) (keep e a h)
