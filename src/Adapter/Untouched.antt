-- ===== src/Adapter/Untouched.antt =====
-- What the ledger of the deliveries reads, and the operations that leave it alone.
use aiot_powerguard.Prelude.{
  ℕ, ◌+◌, ◌≤◌, ◌≡◌, inl, inr, Bool, true, false, Option, none, some, List, [], ◌∷◌, ◌++◌, nat_eq,
  length, arith, Option-cases,
}
use aiot_powerguard.Prelude.Dict.{lookup, erase}
use aiot_powerguard.Adapter.State.{
  InboundMessage, TopicFilter, ReasonCode, Reason, suback_timeout, subscription_refused,
  subscribe_rejected, connack_refused, unexpected_disconnect, attempt_failed, Pending, LoopCall,
  arm_suback_timer, disarm_suback_timer, supersede, schedule, enqueue, subscribe, Adapter,
}
use aiot_powerguard.Adapter.Actions.{
  count, send, request_reconnect, disarm_suback, fail_session, on_suback_timeout, schedule_on_loop,
}
use aiot_powerguard.Adapter.Callbacks.{
  Replies, accepted, await_suback, subscriptions, subscribe_from, on_connect, on_disconnect,
  confirm, answer_suback, on_subscribe, run_reconnect_end,
}

-- the deliveries that wait for the loop
abbrev pub waiting : List LoopCall → ℕ
waiting [] = 0
waiting (enqueue _ ∷ cs) = waiting cs + 1
waiting (arm_suback_timer ∷ cs) = waiting cs
waiting (disarm_suback_timer ∷ cs) = waiting cs
waiting (supersede _ ∷ cs) = waiting cs
waiting (schedule _ _ ∷ cs) = waiting cs

abbrev pub held : Option InboundMessage → ℕ
held none = 0
held (some _) = 1

pub record IsAccounted (a : Adapter) : Type 0 where
  pub is_started : a.started ≡ true
  pub arrived :
      a.counters.received
      ≡ a.counters.enqueued
        + (a.counters.saturated + (a.counters.dropped_after_shutdown + waiting a.loop_calls))
  pub handled :
      a.worker ≡ true
      → a.counters.enqueued
        ≡ length a.queue + (held a.in_hand + (a.counters.acknowledged + a.counters.withheld))
  pub bounded : length a.queue ≤ a.queue_size

-- `b` differs from `a` in nothing that the ledger reads.
pub record Untouched (a b : Adapter) : Type 0 where
  pub same_started : b.started ≡ a.started
  pub same_received : b.counters.received ≡ a.counters.received
  pub same_enqueued : b.counters.enqueued ≡ a.counters.enqueued
  pub same_saturated : b.counters.saturated ≡ a.counters.saturated
  pub same_dropped : b.counters.dropped_after_shutdown ≡ a.counters.dropped_after_shutdown
  pub same_acknowledged : b.counters.acknowledged ≡ a.counters.acknowledged
  pub same_withheld : b.counters.withheld ≡ a.counters.withheld
  pub same_waiting : waiting b.loop_calls ≡ waiting a.loop_calls
  pub same_worker : b.worker ≡ a.worker
  pub same_queue : b.queue ≡ a.queue
  pub same_in_hand : b.in_hand ≡ a.in_hand
  pub same_size : b.queue_size ≡ a.queue_size

Untouched-trans : (a b c : Adapter) → Untouched a b → Untouched b c → Untouched a c
Untouched-trans a b c h k = ground arith

pub Untouched-IsAccounted : (a b : Adapter) → Untouched a b → IsAccounted a → IsAccounted b
Untouched-IsAccounted a b u h = ground arith

pub waiting-append : (xs ys : List LoopCall) → waiting (xs ++ ys) ≡ waiting xs + waiting ys
waiting-append [] ys = omega arith
waiting-append (enqueue _ ∷ xs) ys = omega (arith, waiting-append xs ys)
waiting-append (arm_suback_timer ∷ xs) ys = waiting-append xs ys
waiting-append (disarm_suback_timer ∷ xs) ys = waiting-append xs ys
waiting-append (supersede _ ∷ xs) ys = waiting-append xs ys
waiting-append (schedule _ _ ∷ xs) ys = waiting-append xs ys

pub request_reconnect-Untouched : (r : Reason) (a : Adapter) → Untouched a (request_reconnect r a)
unfolding request_reconnect
request_reconnect-Untouched r a =
    ground (arith, waiting-append a.loop_calls (schedule r false ∷ []))

fail_session-Untouched : (r : Reason) (a : Adapter) → Untouched a (fail_session r a)
unfolding fail_session
fail_session-Untouched r a = ground (arith, waiting-append a.loop_calls (schedule r false ∷ []))

subscribe_from-Untouched :
    (replies : Replies) (g : ℕ) (fs : List TopicFilter) (a : Adapter)
    → Untouched a (subscribe_from replies g fs a)
unfolding subscribe_from
subscribe_from-Untouched replies g [] a =
    ground (arith, waiting-append a.loop_calls (arm_suback_timer ∷ []))
subscribe_from-Untouched replies g (f ∷ fs) a = elim (Option-cases (accepted (replies f))) [
  | inl refused ↦ ground (
    arith,
    fail_session-Untouched subscribe_rejected (
        count (λ c. record c { subscribe_failures = c.subscribe_failures + 1 })
          (send (subscribe f) a)),
  )
  | inr (mid, e) ↦
      let b = await_suback g mid f a in
      rw (e, subscribe_from)
        (Untouched-trans a b (subscribe_from replies g fs b) (ground arith)
          (subscribe_from-Untouched replies g fs b))
]

pub on_connect-Untouched :
    (reason : ReasonCode) (replies : Replies) (a : Adapter)
    → Untouched a (on_connect reason replies a)
unfolding on_connect
on_connect-Untouched reason replies a = ground (
  arith,
  waiting-append a.loop_calls (schedule connack_refused false ∷ []),
  subscribe_from-Untouched replies (a.generation + 1) subscriptions (record a {
    pending_subacks = [];
    generation = a.generation + 1;
    connect_unanswered = false;
  }),
)

pub on_disconnect-Untouched : (a : Adapter) → Untouched a (on_disconnect a)
unfolding on_disconnect
on_disconnect-Untouched a = ground (
  arith,
  waiting-append a.loop_calls (disarm_suback_timer ∷ []),
  waiting-append (a.loop_calls ++ disarm_suback_timer ∷ [])
      (schedule unexpected_disconnect false ∷ []),
)

confirm-Untouched : (g : ℕ) (a : Adapter) → Untouched a (confirm g a)
unfolding confirm
confirm-Untouched g a = ground (
  arith,
  waiting-append a.loop_calls (disarm_suback_timer ∷ []),
  waiting-append (a.loop_calls ++ disarm_suback_timer ∷ []) (supersede g ∷ []),
)

answer_suback-Untouched :
    (mid : ℕ) (p : Pending) (codes : List ReasonCode) (a : Adapter)
    → Untouched a (answer_suback mid p codes a)
unfolding answer_suback
answer_suback-Untouched mid p codes a = ground (
  arith,
  fail_session-Untouched subscription_refused
      (count (λ c. record c { subscriptions_refused = c.subscriptions_refused + 1 }) a),
  confirm-Untouched p.generation
      (record (count (λ c. record c { subscribed = c.subscribed + 1 }) a) {
        pending_subacks = erase mid a.pending_subacks;
      }),
)

pub on_subscribe-Untouched :
    (mid : ℕ) (codes : List ReasonCode) (a : Adapter) → Untouched a (on_subscribe mid codes a)
unfolding on_subscribe
on_subscribe-Untouched mid codes a = elim (Option-cases (lookup mid a.pending_subacks)) [
  | inl e ↦ ground arith
  | inr (p, e) ↦ ground (arith, answer_suback-Untouched mid p codes a)
]

pub on_suback_timeout-Untouched : (a : Adapter) → Untouched a (on_suback_timeout a)
unfolding on_suback_timeout
on_suback_timeout-Untouched a = ground (
  arith,
  fail_session-Untouched suback_timeout
      (count (λ c. record c { suback_timeouts = c.suback_timeouts + 1 }) (disarm_suback a)),
)

pub run_reconnect_end-Untouched :
    (failed : Bool) (a : Adapter) → Untouched a (run_reconnect_end failed a)
unfolding run_reconnect_end
run_reconnect_end-Untouched failed a = elim (Option-cases a.deferred_failure) [
  | inl e ↦ ground (arith, waiting-append a.loop_calls (schedule attempt_failed false ∷ []))
  | inr (r, e) ↦ ground (
    arith,
    waiting-append a.loop_calls (schedule attempt_failed false ∷ []),
    waiting-append a.loop_calls (schedule r false ∷ []),
  )
]

pub schedule_on_loop-Untouched :
    (draw : ℕ) (r : Reason) (i : Bool) (a : Adapter) → Untouched a (schedule_on_loop draw r i a)
unfolding schedule_on_loop
schedule_on_loop-Untouched draw r i a = ground arith
