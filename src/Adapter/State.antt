-- ===== src/Adapter/State.antt =====
-- The state of `PahoMqttAdapter` (backend/src/powerguard/mqtt/client.py), the messages of
-- backend/src/powerguard/mqtt/ports.py, and what the adapter asks of its transport.
use aiot_powerguard.Prelude.{ℕ, Bool, Option, List}
use aiot_powerguard.Prelude.Int.{ℤ}
use aiot_powerguard.Prelude.Dict.{Dict}
use aiot_powerguard.Text.{Text}

pub record InboundMessage : Type 0 where
  pub topic : Text
  pub payload : List ℕ
  pub received_at : ℕ
  pub mid : ℕ
  pub qos : ℕ
  pub retained : Bool

pub data AckDecision : Type 0 where
  ack withhold : AckDecision

-- `SUBSCRIPTIONS`
pub data TopicFilter : Type 0 where
  telemetry_filter status_filter : TopicFilter

-- An object of Paho's: `None`, or one with perhaps a Boolean `is_failure` and perhaps an `int`.
pub data ReasonCode : Type 0 where
  absent : ReasonCode
  code : Option Bool → Option ℤ → ReasonCode

-- the texts that name why a connection attempt is wanted
pub data Reason : Type 0 where
  initial_connect suback_timeout subscription_refused subscribe_rejected connack_refused : Reason
  unexpected_disconnect ingress_saturated withheld_acknowledgement handler_failed : Reason
  attempt_failed : Reason

pub record Pending : Type 0 where
  pub generation : ℕ
  pub topic : TopicFilter

-- what `_from_paho_thread` hands to the application loop
pub data LoopCall : Type 0 where
  arm_suback_timer disarm_suback_timer : LoopCall
  supersede : ℕ → LoopCall
  schedule : Reason → Bool → LoopCall
  enqueue : InboundMessage → LoopCall

-- the calls of the transport
pub data Request : Type 0 where
  connect_async reconnect loop_start loop_stop disconnect : Request
  subscribe unsubscribe : TopicFilter → Request
  ack_delivery : ℕ → ℕ → Request

pub record MqttCounters : Type 0 where
  pub connected : ℕ
  pub connect_failures : ℕ
  pub disconnected : ℕ
  pub unexpected_disconnects : ℕ
  pub subscribed : ℕ
  pub subscribe_failures : ℕ
  pub subscriptions_refused : ℕ
  pub suback_timeouts : ℕ
  pub received : ℕ
  pub enqueued : ℕ
  pub saturated : ℕ
  pub dropped_after_shutdown : ℕ
  pub acknowledged : ℕ
  pub withheld : ℕ
  pub handler_errors : ℕ
  pub sessions_failed : ℕ
  pub stale_subacks_ignored : ℕ
  pub reconnects_scheduled : ℕ
  pub reconnects_requested : ℕ
  pub reconnects_coalesced : ℕ
  pub failures_deferred : ℕ
  pub retries_superseded : ℕ
  pub stale_health_ignored : ℕ
  pub reconnect_attempts : ℕ
  pub reconnect_attempt_failures : ℕ
  pub reconnects_discarded_after_shutdown : ℕ
  pub drain_timeouts : ℕ

-- an attempt in flight: before and after the blocking `reconnect()` has returned
pub data Attempt : Type 0 where
  connecting returned : Attempt

pub record Adapter : Type 0 where
  pub queue_size : ℕ
  pub started : Bool
  pub stopping : Bool
  pub queue : List InboundMessage
  -- the message that the worker is handling, and whether there is a worker
  pub in_hand : Option InboundMessage
  pub worker : Bool
  pub redelivery_requested : Bool
  pub reconnect_attempt : ℕ
  pub pending_subacks : Dict ℕ Pending
  pub generation : ℕ
  pub suback_timer : Bool
  -- the delay of the armed timer
  pub reconnect_timer : Option ℕ
  pub reconnect_task : Option Attempt
  pub pending_reason : Reason
  pub deferred_failure : Option Reason
  pub session_healthy : Bool
  pub armed_generation : Option ℕ
  pub armed_is_retry : Bool
  -- what `on_connection_change` was last told
  pub reported : Bool
  pub counters : MqttCounters
  pub loop_calls : List LoopCall
  -- the requests made so far, the newest first
  pub requests : List Request
  -- of the transport: a CONNECT is on its way that the broker has not answered
  pub connect_unanswered : Bool
