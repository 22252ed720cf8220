-- ===== src/Adapter/Pursuit.antt =====
-- What it means to pursue a session, and the operations that every failure goes through.
use aiot_powerguard.Prelude.{
  ℕ, ◌+◌, ◌≡◌, refl, Bool, true, false, not, ◌||◌, Option, none, some, List, [], ◌∷◌, ◌++◌, nat_eq,
  is_some, arith,
}
use aiot_powerguard.Adapter.State.{
  Reason, ingress_saturated, LoopCall, arm_suback_timer, disarm_suback_timer, supersede, schedule,
  enqueue, Attempt, connecting, returned, Adapter,
}
use aiot_powerguard.Adapter.Actions.{
  count, request_reconnect, arm_suback, fail_session, supersede_retry_for, schedule_on_loop,
}
use aiot_powerguard.Adapter.Callbacks.{enqueue_record}
use aiot_powerguard.Adapter.Machine.{run_call, run_oldest}
use aiot_powerguard.Adapter.Codes.{is_nil}

abbrev has_schedule : List LoopCall → Bool
has_schedule [] = false
has_schedule (schedule _ _ ∷ cs) = true
has_schedule (arm_suback_timer ∷ cs) = has_schedule cs
has_schedule (disarm_suback_timer ∷ cs) = has_schedule cs
has_schedule (supersede _ ∷ cs) = has_schedule cs
has_schedule (enqueue _ ∷ cs) = has_schedule cs

-- an attempt that has not connected yet, or one that has, with a failure to act on at its end
abbrev attempt_covers : Option Attempt → Option Reason → Bool
attempt_covers none d = false
attempt_covers (some connecting) d = true
attempt_covers (some returned) d = is_some d

-- The session is usable, or a retry is armed or handed to the loop, or the broker owes an answer
-- to a SUBSCRIBE or a CONNECT, or an attempt in flight will go on.
abbrev pub pursues : Adapter → Bool
pursues a =
    a.session_healthy
    || (is_some a.reconnect_timer
        || (has_schedule a.loop_calls
            || (not (is_nil a.pending_subacks)
                || (a.connect_unanswered || attempt_covers a.reconnect_task a.deferred_failure))))

pub record IsLive (a : Adapter) : Type 0 where
  pub is_started : a.started ≡ true
  pub exclusive : is_some a.reconnect_timer ≡ true → is_some a.reconnect_task ≡ false
  pub alive : a.stopping ≡ false → pursues a ≡ true

pub has_schedule-append :
    (xs ys : List LoopCall) → has_schedule (xs ++ ys) ≡ (has_schedule xs || has_schedule ys)
has_schedule-append [] ys = refl
has_schedule-append (schedule _ _ ∷ xs) ys = refl
has_schedule-append (arm_suback_timer ∷ xs) ys = has_schedule-append xs ys
has_schedule-append (disarm_suback_timer ∷ xs) ys = has_schedule-append xs ys
has_schedule-append (supersede _ ∷ xs) ys = has_schedule-append xs ys
has_schedule-append (enqueue _ ∷ xs) ys = has_schedule-append xs ys

-- The parts of `IsLive` that no failure touches.
abbrev pub Ready : Adapter → Type 0
Ready a = (a.started ≡ true) × (is_some a.reconnect_timer ≡ true → is_some a.reconnect_task ≡ false)

-- A failure that is reported leaves a retry to come.
pub request_reconnect-IsLive : (r : Reason) (a : Adapter) → Ready a → IsLive (request_reconnect r a)
unfolding request_reconnect
request_reconnect-IsLive r a h =
    ground (arith, has_schedule-append a.loop_calls (schedule r false ∷ []))

pub fail_session-IsLive : (r : Reason) (a : Adapter) → Ready a → IsLive (fail_session r a)
unfolding fail_session
fail_session-IsLive r a h = ground (arith, has_schedule-append a.loop_calls (schedule r false ∷ []))

supersede_retry_for-IsLive : (g : ℕ) (a : Adapter) → IsLive a → IsLive (supersede_retry_for g a)
unfolding supersede_retry_for
supersede_retry_for-IsLive g a h = ground arith

schedule_on_loop-IsLive :
    (draw : ℕ) (r : Reason) (i : Bool) (a : Adapter)
    → Ready a
    → IsLive (schedule_on_loop draw r i a)
unfolding schedule_on_loop
schedule_on_loop-IsLive draw r i a h = ground arith

-- What a call on the loop needs of the state that it runs in: all of `IsLive` but the call itself.
run_call-IsLive :
    (draw : ℕ) (c : LoopCall) (cs : List LoopCall) (a : Adapter)
    → a.loop_calls ≡ c ∷ cs
    → IsLive a
    → IsLive (run_call draw c (record a { loop_calls = cs }))
unfolding run_call arm_suback enqueue_record supersede_retry_for
run_call-IsLive draw arm_suback_timer cs a e h = ground arith
run_call-IsLive draw disarm_suback_timer cs a e h = ground arith
run_call-IsLive draw (supersede g) cs a e h = ground arith
run_call-IsLive draw (schedule r i) cs a e h =
    schedule_on_loop-IsLive draw r i (record a { loop_calls = cs }) (h.is_started, h.exclusive)
run_call-IsLive draw (enqueue m) cs a e h = ground (
  arith,
  request_reconnect-IsLive ingress_saturated
      (count (λ c. record c { saturated = c.saturated + 1 }) (record a { loop_calls = cs }))
      (h.is_started, h.exclusive),
)

pub run_oldest-IsLive :
    (draw : ℕ) (cs : List LoopCall) (a : Adapter)
    → a.loop_calls ≡ cs
    → IsLive a
    → IsLive (run_oldest draw cs a)
unfolding run_oldest
run_oldest-IsLive draw [] a e h = h
run_oldest-IsLive draw (c ∷ cs) a e h = run_call-IsLive draw c cs a e h
