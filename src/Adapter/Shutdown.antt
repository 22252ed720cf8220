-- ===== src/Adapter/Shutdown.antt =====
-- After `stop` has begun nothing is taken in, armed or revived, whatever still happens.
use aiot_powerguard.Prelude.{
  ℕ, ◌≡◌, refl, ap, ◌∙◌, Bool, true, false, none, List, [], ◌∷◌, nat_eq, arith,
}
use aiot_powerguard.Prelude.Dict.{lookup}
use aiot_powerguard.Adapter.State.{
  ack, withhold, ReasonCode, Reason, Pending, LoopCall, arm_suback_timer, disarm_suback_timer,
  supersede, schedule, enqueue, Adapter,
}
use aiot_powerguard.Adapter.Actions.{
  arm_suback, supersede_retry_for, schedule_on_loop, withhold_delivery,
}
use aiot_powerguard.Adapter.Callbacks.{
  Replies, on_connect, on_disconnect, on_subscribe, on_message, enqueue_record, worker_take,
  Handled, decided, handler_raised, ack_raised, handle_outcome, worker_finish, run_reconnect_end,
  connect_blocking, attempt_raises, stop_begin, stop_unsubscribe, stop_end,
}
use aiot_powerguard.Adapter.Machine.{
  Event, connack, connection_lost, suback, delivery, loop_tick, suback_timer_fires,
  reconnect_timer_fires, worker_takes, worker_finishes, attempt_connects, attempt_fails,
  attempt_ends, stop_begins, stop_unsubscribes, stop_ends, run_call, run_oldest, step, run,
  run-keeps,
}

-- `a` is a state of the shutdown that began at `b`.
pub record IsStopped (b a : Adapter) : Type 0 where
  pub is_stopping : a.stopping ≡ true
  pub no_timer : a.reconnect_timer ≡ none
  pub no_suback_timer : a.suback_timer ≡ false
  pub no_pending : a.pending_subacks ≡ []
  pub no_deferred : a.deferred_failure ≡ none
  pub no_intake : a.counters.enqueued ≡ b.counters.enqueued
  pub no_attempt : b.reconnect_task ≡ none → a.reconnect_task ≡ none
  pub no_revival : a.counters.connected ≡ b.counters.connected
  pub not_healthier : a.session_healthy ≡ true → b.session_healthy ≡ true

stop_begin-IsStopped : (b : Adapter) → IsStopped b (stop_begin b)
unfolding stop_begin
stop_begin-IsStopped b = ground arith

on_connect-IsStopped :
    (reason : ReasonCode) (replies : Replies) (b a : Adapter)
    → IsStopped b a
    → IsStopped b (on_connect reason replies a)
unfolding on_connect
on_connect-IsStopped reason replies b a h = ground arith

on_subscribe-IsStopped :
    (mid : ℕ) (codes : List ReasonCode) (b a : Adapter)
    → IsStopped b a
    → IsStopped b (on_subscribe mid codes a)
unfolding on_subscribe
on_subscribe-IsStopped mid codes b a h =
    let e : lookup mid a.pending_subacks ≡ none = ap (lookup mid) h.no_pending ∙ lookup-nil in
    ground arith
  where
    lookup-nil : lookup {V = Pending} mid [] ≡ none
    lookup-nil = unfold lookup in refl

run_call-IsStopped :
    (draw : ℕ) (c : LoopCall) (b a : Adapter) → IsStopped b a → IsStopped b (run_call draw c a)
unfolding run_call arm_suback supersede_retry_for schedule_on_loop enqueue_record
run_call-IsStopped draw arm_suback_timer b a h = ground arith
run_call-IsStopped draw disarm_suback_timer b a h = ground arith
run_call-IsStopped draw (supersede g) b a h = ground arith
run_call-IsStopped draw (schedule r i) b a h = ground arith
run_call-IsStopped draw (enqueue m) b a h = ground arith

run_oldest-IsStopped :
    (draw : ℕ) (cs : List LoopCall) (b a : Adapter)
    → IsStopped b a
    → IsStopped b (run_oldest draw cs a)
unfolding run_oldest
run_oldest-IsStopped draw [] b a h = h
run_oldest-IsStopped draw (c ∷ cs) b a h =
    run_call-IsStopped draw c b (record a { loop_calls = cs }) (ground arith)

withhold_delivery-IsStopped :
    (r : Reason) (b a : Adapter) → IsStopped b a → IsStopped b (withhold_delivery r a)
unfolding withhold_delivery
withhold_delivery-IsStopped r b a h = ground arith

worker_finish-IsStopped :
    (k : Handled) (b a : Adapter) → IsStopped b a → IsStopped b (worker_finish k a)
unfolding worker_finish handle_outcome withhold_delivery
worker_finish-IsStopped (decided ack) b a h = ground arith
worker_finish-IsStopped (decided withhold) b a h = ground arith
worker_finish-IsStopped handler_raised b a h = ground arith
worker_finish-IsStopped ack_raised b a h = ground arith

run_reconnect_end-IsStopped :
    (failed : Bool) (b a : Adapter) → IsStopped b a → IsStopped b (run_reconnect_end failed a)
unfolding run_reconnect_end
run_reconnect_end-IsStopped failed b a h = ground arith

attempt_raises-IsStopped : (b a : Adapter) → IsStopped b a → IsStopped b (attempt_raises a)
unfolding attempt_raises run_reconnect_end
attempt_raises-IsStopped b a h = ground arith

step-IsStopped : (b : Adapter) (e : Event) (a : Adapter) → IsStopped b a → IsStopped b (step e a)
unfolding step
step-IsStopped b (connack reason replies) a h = on_connect-IsStopped reason replies b a h
step-IsStopped b connection_lost a h = unfold on_disconnect in ground arith
step-IsStopped b (suback mid codes) a h = on_subscribe-IsStopped mid codes b a h
step-IsStopped b (delivery m) a h = unfold on_message in ground arith
step-IsStopped b (loop_tick draw) a h = run_oldest-IsStopped draw a.loop_calls b a h
step-IsStopped b suback_timer_fires a h = ground arith
step-IsStopped b reconnect_timer_fires a h = ground arith
step-IsStopped b worker_takes a h = unfold worker_take in ground arith
step-IsStopped b (worker_finishes k) a h = worker_finish-IsStopped k b a h
step-IsStopped b attempt_connects a h = unfold connect_blocking in ground arith
step-IsStopped b attempt_fails a h = ground (arith, attempt_raises-IsStopped b a)
step-IsStopped b attempt_ends a h = ground (arith, run_reconnect_end-IsStopped false b a)
step-IsStopped b stop_begins a h = unfold stop_begin in ground arith
step-IsStopped b stop_unsubscribes a h = unfold stop_unsubscribe in ground arith
step-IsStopped b (stop_ends t) a h = unfold stop_end in ground arith

-- Once `stop` has begun, whatever events follow: no timer is armed, no subscription is pending and
-- no failure is kept for later, no further message is queued, no connection attempt begins if none
-- was in flight, and no session is confirmed.
pub stop_begin-final : (b : Adapter) (events : List Event) → IsStopped b (run events (stop_begin b))
stop_begin-final b events =
    run-keeps (IsStopped b) (step-IsStopped b) events (stop_begin b) (stop_begin-IsStopped b)
