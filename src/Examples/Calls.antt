-- ===== src/Examples/Calls.antt =====
-- The theorems on events, Actions and whole histories of calls at a Bridge with one session.
use agentpulse_rs.Common.{◌≡◌, ◌⊎◌, refl, true, false, List, [], ◌∷◌}
use agentpulse_rs.Domain.Command.{AgentCommand, AgentCommandPayload}
use agentpulse_rs.Aggregate.State.{default_config}
use agentpulse_rs.Bridge.State.{
  accept_interaction_response, accept_command, is_subscribed, session_subscribers, send,
}
use agentpulse_rs.Bridge.Events.{
  handle_provider_event, plan_routes, commit, reduce_event, fan_out, deliver_all, deliver_one,
  routing_session, compute_routes, event_updates_session_view, has_failures,
}
use agentpulse_rs.Bridge.Events.FanOut.{is_applied, IsCalled, handle_provider_event-IsCalled}
use agentpulse_rs.Common.Map.{get, insert}
use agentpulse_rs.Domain.Value.{checked_next}
use agentpulse_rs.Domain.Event.{event_capability}
use agentpulse_rs.Domain.Event.Equality.{same_event}
use agentpulse_rs.Aggregate.Apply.{apply, apply_payload, validate_cursor, record_event, evict}
use agentpulse_rs.Routing.{
  validate_provider_event, validate_provider_session, validate_session_id,
  validate_provider_capabilities, channel_event_route,
}
use agentpulse_rs.Bridge.Events.Handled.{Handled, handle_provider_event-Handled}
use agentpulse_rs.Bridge.Actions.{
  interaction_response, command, provider_of, handle_interaction_response, handle_command,
}
use agentpulse_rs.Bridge.Actions.Checks.{MayRespond, MayCommand}
use agentpulse_rs.Bridge.Actions.Handed.{
  Acted, handle_interaction_response-Acted, handle_command-Acted,
}
use agentpulse_rs.Bridge.Consistent.{IsConsistent}
use agentpulse_rs.Bridge.Reachable.{
  Call, registers_provider, registers_channel, sends_event, responds, subscribes, after_calls,
  after_calls-IsConsistent,
}
use agentpulse_rs.Examples.{bits, willing, provider, answering, begun, asked, busy, response}
use agentpulse_rs.Examples.Core.{begun-IsWellFormed, asked-IsWellFormed}
use agentpulse_rs.Examples.Bridges.{watched, watched-IsConsistent}

handle_provider_event_example :
    Handled bits willing 1 watched busy (handle_provider_event bits willing 1 busy watched)
handle_provider_event_example = handle_provider_event-Handled bits willing 1 busy watched tt

busy_applied : is_applied (handle_provider_event bits willing 1 busy watched).1 ≡ true
unfolding handle_provider_event plan_routes commit reduce_event fan_out deliver_all deliver_one
    routing_session compute_routes session_subscribers event_updates_session_view has_failures send
    validate_provider_event validate_provider_session validate_session_id
    validate_provider_capabilities channel_event_route event_capability get insert apply
    apply_payload validate_cursor record_event evict checked_next same_event
busy_applied = refl

handle_provider_event_fan_out_example :
    let channels = (handle_provider_event bits willing 1 busy watched).0.channels in
    ((is_subscribed watched 7 10 ≡ true) × IsCalled bits watched 1 busy 7 channels)
    ⊎ ((is_subscribed watched 7 10 ≡ false) × (get 7 channels ≡ get 7 watched.channels))
handle_provider_event_fan_out_example =
    handle_provider_event-IsCalled bits willing 1 busy watched 7 watched-IsConsistent busy_applied

handle_interaction_response_example :
    Acted
      (MayRespond bits watched 5 response)
      willing
      watched
      (provider_of watched 10)
      interaction_response
      (accept_interaction_response response)
      (handle_interaction_response bits willing 5 response watched)
handle_interaction_response_example =
    handle_interaction_response-Acted bits willing 5 response watched

abbrev status : AgentCommand
status = record {
  id = 50;
  session_id = 10;
  channel_id = 5;
  issued_at = 160;
  payload = AgentCommandPayload.status;
}

handle_command_example :
    Acted
      (MayCommand bits watched 5 status)
      willing
      watched
      (provider_of watched 10)
      command
      (accept_command status)
      (handle_command bits willing 5 status watched)
handle_command_example = handle_command-Acted bits willing 5 status watched

-- A session is started, asks for an approval and gets the answer.
abbrev history : List Call
history =
    responds 5 response
    ∷ subscribes 5 10
    ∷ sends_event 1 asked asked-IsWellFormed
    ∷ sends_event 1 begun begun-IsWellFormed
    ∷ registers_channel answering
    ∷ registers_provider provider
    ∷ []

after_calls_example : IsConsistent (after_calls bits willing default_config history)
after_calls_example = after_calls-IsConsistent bits willing default_config history
