-- ===== src/Hub/Tests.antt =====
-- The hub at concrete inputs.
use aiot_powerguard.Prelude.{
  ℕ, ◌≡◌, ◌≤◌, refl, arith, true, false, none, [], length, list_eq, nat_eq, ℕ_discrete,
  if◌then◌else◌, contains,
}
use aiot_powerguard.Prelude.Dict.{lookup, insert}
use aiot_powerguard.Text.{Text, codes}
use aiot_powerguard.Entities.{online}
use aiot_powerguard.Hub.{
  Hub, Event, status_event, ids_of, subscribe, unsubscribe, dispatch, next_event, connection_count,
  deliver_all, deliver,
}
use aiot_powerguard.Hub.Accounts.{
  IsValid, subscribe-IsValid, unsubscribe-IsValid, dispatch-IsValid, next_event-IsValid,
}
use aiot_powerguard.Hub.Queues.{offered, dispatch-objects, dispatch-Bounded}

abbrev meter : Text
meter = codes "m1"

abbrev empty_hub : Hub ℕ
empty_hub = record {
  max_connections = 2;
  queue_size = 1;
  counters = record {
    opened = 0;
    closed = 0;
    rejected = 0;
    slow_clients_dropped = 0;
    events_published = 0;
    events_delivered = 0;
  };
  subscriptions = [];
  objects = λ _. record { device_id = []; queue = []; dropped = false; closed = false };
  fresh = 0;
}

empty_hub-IsValid : IsValid empty_hub
unfolding connection_count
empty_hub-IsValid = record { registry = tt; numbered = tt; counted = refl; capped = omega arith }

abbrev one_client : Hub ℕ
one_client = (subscribe meter empty_hub).0

abbrev came_online : Event ℕ
came_online =
    status_event
      (record {
        id = meter;
        firmware_version = codes "1.0.0";
        status = online;
        first_seen_at = 5;
        last_seen_at = 9;
        last_boot_id = none;
      })
      10

subscribe-IsValid_example : IsValid one_client
subscribe-IsValid_example = subscribe-IsValid meter empty_hub empty_hub-IsValid

one_client-IsValid : IsValid one_client
one_client-IsValid = subscribe-IsValid meter empty_hub empty_hub-IsValid

unsubscribe-IsValid_example : IsValid (unsubscribe 0 one_client)
unsubscribe-IsValid_example = unsubscribe-IsValid 0 one_client one_client-IsValid

dispatch-IsValid_example : IsValid (dispatch came_online one_client)
dispatch-IsValid_example = dispatch-IsValid came_online one_client one_client-IsValid

next_event-IsValid_example : IsValid (next_event 0 one_client).0
next_event-IsValid_example = next_event-IsValid 0 one_client one_client-IsValid

dispatch-objects_example : (dispatch came_online one_client).objects 0 ≡ (
    if contains (ids_of (lookup meter one_client.subscriptions)) 0
    then offered one_client.queue_size came_online (one_client.objects 0)
    else one_client.objects 0)
unfolding status_event
dispatch-objects_example = dispatch-objects came_online one_client 0 one_client-IsValid

dispatch-Bounded_example :
    length ((dispatch came_online one_client).objects 0).queue
    ≤ (dispatch came_online one_client).queue_size
unfolding subscribe connection_count ℕ_discrete
dispatch-Bounded_example =
    dispatch-Bounded came_online one_client 0 one_client-IsValid (omega arith) (omega arith)

one_delivered : length ((dispatch came_online one_client).objects 0).queue ≡ 1
unfolding subscribe connection_count status_event dispatch deliver_all deliver lookup insert list_eq
    ℕ_discrete
one_delivered = refl

second_drops : ((dispatch came_online (dispatch came_online one_client)).objects 0).dropped ≡ true
unfolding subscribe connection_count status_event dispatch deliver_all deliver lookup insert list_eq
    ℕ_discrete
second_drops = refl
