-- ===== src/Examples/Hosts.antt =====
-- The theorems on a started Host, whose Sources refuse to stop at the first time.
use agentpulse_rs.Common.{is_ok, ◌≡◌, [], ◌∷◌, none, some, true, inl, inr, refl, arith}
use agentpulse_rs.Bridge.State.{AdapterError}
use agentpulse_rs.Bridge.Runtime.State.{
  RuntimeHost, RuntimeHostState, provider, channel, persistent, source_generation,
  AdapterLifecycleState, AdapterLifecyclePhase,
}
use agentpulse_rs.Bridge.Runtime.Ingress.{subscribe_to, unsubscribe_from, call_all}
use agentpulse_rs.Bridge.Runtime.Lifecycle.{Sources, start_host, stop_host}
use agentpulse_rs.Bridge.Runtime.Steps.{done, starts, stops, stop_host_permanent}
use agentpulse_rs.Bridge.Runtime.Stopping.{StopsAll, stop_host-StopsAll}
use agentpulse_rs.Examples.{bits, willing}
use agentpulse_rs.Examples.Bridges.{watched}

abbrev started_host : RuntimeHost
started_host = record {
  state = RuntimeHostState.started;
  adapters =
      record {
        endpoint = provider 1;
        subscription_scope = persistent;
        state = AdapterLifecycleState.running;
        permit = some 0;
        callbacks = AdapterLifecyclePhase.start ∷ [];
      }
      ∷ record {
        endpoint = channel 7;
        subscription_scope = source_generation;
        state = AdapterLifecycleState.running;
        permit = some 1;
        callbacks = AdapterLifecyclePhase.start ∷ [];
      }
      ∷ [];
  bridge = watched;
  permits = (0, true) ∷ (1, true) ∷ [];
  next_permit = 2;
}

-- Every Source answers that it has succeeded.
abbrev obliging : Sources
obliging = record { calls = λ e p done b. []; answer = λ e p done b. none }

-- Every Source makes a call while it stops, and fails.
abbrev failing : Sources
failing = record {
  calls = λ e p done b. unsubscribe_from 10 ∷ [];
  answer = λ e p done b. some refusal;
}
  where
    refusal : AdapterError
    refusal = 3

abbrev restarted : RuntimeHost
restarted =
    let failed = (stop_host bits willing failing started_host).0 in
    let stopped = (stop_host bits willing obliging failed).0 in
    (start_host bits willing obliging stopped).0

stop_host_permanent_example :
    call_all bits willing (channel 7) 1 (subscribe_to 10 ∷ unsubscribe_from 10 ∷ []) restarted
    ≡ restarted
stop_host_permanent_example =
    stop_host_permanent bits willing failing 1 started_host (λ q. absurd (ground arith))
      (inr (inl refl)) (omega arith) restarted (starts obliging (stops obliging done)) (channel 7)
      (subscribe_to 10 ∷ unsubscribe_from 10 ∷ [])

stop_host-StopsAll_example :
    let out = stop_host bits willing failing started_host in
    StopsAll started_host out.0 (is_ok out.1)
stop_host-StopsAll_example =
    stop_host-StopsAll bits willing failing started_host (λ q. absurd (ground arith))
