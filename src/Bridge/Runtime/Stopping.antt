-- ===== src/Bridge/Runtime/Stopping.antt =====
-- What `stop` of agentpulse-bridge/src/runtime.rs does to the adapters of the Host.
use agentpulse_rs.Common.{
  Bool, true, false, not, ◌&&◌, List, [], ◌∷◌, ◌≡◌, ◌≢◌, ◌⊎◌, refl, inl, inr, arith, any-append,
  is_ok, if◌then◌else◌, Bool-cases,
}
use agentpulse_rs.Domain.Capability.{Flags}
use agentpulse_rs.Bridge.State.{Ports}
use agentpulse_rs.Bridge.Runtime.State.{
  RuntimeHost, RuntimeHostState, RegisteredAdapter, AdapterLifecycleState, AdapterLifecyclePhase,
}
use agentpulse_rs.Bridge.Runtime.Lifecycle.{
  Sources, AdapterLifecycleResult, is_success, any_failed, revoke_all_ingress,
  clear_source_generation_subscriptions, stop_adapter, stop_one, stop_all, stop_active, stop_host,
}

abbrev pub is_stopped : AdapterLifecycleState → Bool
is_stopped AdapterLifecycleState.stopped = true
is_stopped _ = false

-- A stopped adapter is passed over, and any other one is told once to stop.
abbrev pub Stops : RegisteredAdapter → RegisteredAdapter → Type 0
Stops a a' =
    (is_stopped a.state ≡ true × a' ≡ a)
    ⊎ ((is_stopped a.state ≡ false)
        × (a'.callbacks ≡ AdapterLifecyclePhase.stop ∷ a.callbacks)
        × (a'.endpoint ≡ a.endpoint)
        × (a'.permit ≡ a.permit))

abbrev pub AllStop : List RegisteredAdapter → List RegisteredAdapter → Type 0
AllStop [] [] = Unit {0}
AllStop (a ∷ as') (b ∷ bs) = Stops a b × AllStop as' bs
AllStop _ _ = ⊥

abbrev pub all_stopped : List RegisteredAdapter → Bool
all_stopped [] = true
all_stopped (a ∷ as') = is_stopped a.state && all_stopped as'

-- What a call of `stop` makes of a Host.
abbrev pub StopsAll : RuntimeHost → RuntimeHost → Bool → Type 0
StopsAll h h' answers_ok =
    AllStop h.adapters h'.adapters
    × (h'.state ≡ (
        if all_stopped h'.adapters then RuntimeHostState.stopped else RuntimeHostState.stop_failed))
    × (answers_ok ≡ all_stopped h'.adapters)

module _ (flags : Flags) (ports : Ports) (sources : Sources) where
  stop_one-Stops :
      (a : RegisteredAdapter) (h : RuntimeHost)
      → let out = stop_one flags ports sources a h in
        Stops a out.0 × (is_success out.1 ≡ is_stopped out.0.state)
  unfolding stop_one stop_adapter
  stop_one-Stops a h = ground arith

  stop_all-AllStop :
      (as' : List RegisteredAdapter) (h : RuntimeHost)
      → let out = stop_all flags ports sources as' h in
        AllStop as' out.0 × (any_failed out.1 ≡ not (all_stopped out.0))
  unfolding stop_all
  stop_all-AllStop [] h = (tt, refl)
  stop_all-AllStop (a ∷ as') h =
      let rest = stop_all-AllStop as' h in
      let out = stop_all flags ports sources as' h in
      let this = stop_one-Stops a out.2 in
      let r = (stop_one flags ports sources a out.2).1 in
      let joined = any-append (λ (x : AdapterLifecycleResult). not (is_success x)) out.1 (r ∷ []) in
      ((this.0, rest.0), ground arith)

  stop_active-StopsAll :
      (h : RuntimeHost)
      → let out = stop_active flags ports sources h in StopsAll h out.0 (is_ok out.1)
  stop_active-StopsAll h =
      let revoked = revoke_all_ingress h.adapters h in
      let cleared = record revoked {
        bridge = clear_source_generation_subscriptions h.adapters revoked.bridge;
      } in
      let all = stop_all-AllStop h.adapters cleared in
      elim (Bool-cases (any_failed (stop_all flags ports sources h.adapters cleared).1)) [
        | inl q ↦ ground arith
        | inr q ↦ ground arith
      ]

  -- `stop` on a Host that is not stopped tells every adapter that is not stopped exactly once to
  -- stop, even if another one fails, and leaves the stopped ones as they are. The Host is then
  -- stopped if all its adapters are and has failed to stop otherwise, and the answer is a success
  -- exactly in the first case.
  pub stop_host-StopsAll :
      (h : RuntimeHost)
      → h.state ≢ RuntimeHostState.stopped
      → let out = stop_host flags ports sources h in StopsAll h out.0 (is_ok out.1)
  unfolding stop_host
  stop_host-StopsAll h n = let active = stop_active-StopsAll h in ground arith
