-- ===== src/Bridge/Runtime/Steps.antt =====
-- agentpulse-bridge/src/runtime.rs: the operations of a Runtime Host in any order, and its handles.
use agentpulse_rs.Common.{
  List, [], ◌∷◌, Option, none, some, ◌≡◌, ◌≢◌, ◌<◌, refl, inl, inr, arith, ok, err, Bool-cases,
  Result,
}
use agentpulse_rs.Domain.Session.{Uuid}
use agentpulse_rs.Domain.Endpoint.{ProviderDescriptor, ChannelDescriptor}
use agentpulse_rs.Domain.Capability.{Flags}
use agentpulse_rs.Bridge.State.{
  Ports, Bridge, EndpointRegistrationError, register_provider, register_channel,
}
use agentpulse_rs.Bridge.Runtime.State.{
  RuntimeHost, RuntimeHostState, RegisteredAdapter, RuntimeEndpointId, ChannelSubscriptionScope,
  AdapterLifecyclePhase, Permit, register_provider_host, register_channel_host, add_registered,
  enter, revoke, revoke_opt, new_adapter, provider, channel, persistent,
}
use agentpulse_rs.Bridge.Runtime.Ingress.{IngressCall, call_all}
use agentpulse_rs.Bridge.Runtime.Host.{subscribe_host, unsubscribe_host}
use agentpulse_rs.Bridge.Runtime.Lifecycle.{
  Sources, start_adapter, start_all, start_host, stop_adapter, stop_one, stop_all, stop_host,
  call_opt, any_failed, stop_active, revoke_all_ingress, clear_source_generation_subscriptions,
}
use agentpulse_rs.Bridge.Runtime.Revoked.{Holds, call_all-refused, revoke_all-IsRefused}
use agentpulse_rs.Bridge.Runtime.Permanent.{
  IsDead, revoke-IsDead, revoke_opt-IsDead, revoke_all-IsDead, issue-IsDead, call_all-IsDead,
}

revoke_all-next_permit :
    (as' : List RegisteredAdapter) (h : RuntimeHost)
    → (revoke_all_ingress as' h).next_permit ≡ h.next_permit
unfolding revoke_all_ingress revoke
revoke_all-next_permit [] h = refl
revoke_all-next_permit (a ∷ as') h =
    let rest = revoke_all-next_permit as' (revoke_opt a.permit h) in ground arith

module _ (flags : Flags) (ports : Ports) (sources : Sources) (p : Permit) where
  start_adapter-IsDead :
      (a : RegisteredAdapter) (h : RuntimeHost)
      → IsDead p h
      → IsDead p (start_adapter flags ports sources a h).2
  unfolding start_adapter
  start_adapter-IsDead a h d =
      let permit = h.next_permit in
      let calls = sources.calls a.endpoint AdapterLifecyclePhase.start a.callbacks h.bridge in
      let ran = call_all-IsDead flags ports a.endpoint permit p calls _ (issue-IsDead p h d) in
      let off = revoke-IsDead permit p _ ran in ground arith

  start_all-IsDead :
      (as' : List RegisteredAdapter) (h : RuntimeHost)
      → IsDead p h
      → IsDead p (start_all flags ports sources as' h).2
  unfolding start_all
  start_all-IsDead [] h d = d
  start_all-IsDead (a ∷ as') h d =
      start_all-IsDead as' (start_adapter flags ports sources a h).2 (start_adapter-IsDead a h d)

  start_host-IsDead : (h : RuntimeHost) → IsDead p h → IsDead p (start_host flags ports sources h).0
  unfolding start_host enter
  start_host-IsDead h d = let all = start_all-IsDead h.adapters h d in ground arith

  call_opt-IsDead :
      (endpoint : RuntimeEndpointId) (o : Option Permit) (cs : List IngressCall) (h : RuntimeHost)
      → IsDead p h
      → IsDead p (call_opt flags ports sources endpoint o cs h)
  call_opt-IsDead endpoint none cs h d = d
  call_opt-IsDead endpoint (some q) cs h d = call_all-IsDead flags ports endpoint q p cs h d

  stop_adapter-IsDead :
      (a : RegisteredAdapter) (h : RuntimeHost)
      → IsDead p h
      → IsDead p (stop_adapter flags ports sources a h).2
  unfolding stop_adapter
  stop_adapter-IsDead a h d =
      let calls = sources.calls a.endpoint AdapterLifecyclePhase.stop a.callbacks h.bridge in
      let ran = call_opt-IsDead a.endpoint a.permit calls _ (revoke_opt-IsDead a.permit p h d) in
      ground arith

  stop_all-IsDead :
      (as' : List RegisteredAdapter) (h : RuntimeHost)
      → IsDead p h
      → IsDead p (stop_all flags ports sources as' h).2
  unfolding stop_all stop_one
  stop_all-IsDead [] h d = d
  stop_all-IsDead (a ∷ as') h d =
      let rest = stop_all-IsDead as' h d in
      let this = stop_adapter-IsDead a (stop_all flags ports sources as' h).2 rest in ground arith

  stop_active_from :
      (h : RuntimeHost)
      → IsDead p (revoke_all_ingress h.adapters h)
      → IsDead p (stop_active flags ports sources h).0
  unfolding enter
  stop_active_from h d =
      let revoked = revoke_all_ingress h.adapters h in
      let cleared = record revoked {
        bridge = clear_source_generation_subscriptions h.adapters revoked.bridge;
      } in
      let all = stop_all-IsDead h.adapters cleared d in
      elim (Bool-cases (any_failed (stop_all flags ports sources h.adapters cleared).1)) [
        | inl q ↦ ground arith
        | inr q ↦ ground arith
      ]

  stop_active-IsDead :
      (h : RuntimeHost) → IsDead p h → IsDead p (stop_active flags ports sources h).0
  stop_active-IsDead h d = stop_active_from h (revoke_all-IsDead h.adapters p h d)

  -- The revocation itself makes the permits of the adapters dead.
  stop_active_kills :
      (h : RuntimeHost)
      → Holds p h.adapters
      → p < h.next_permit
      → IsDead p (stop_active flags ports sources h).0
  stop_active_kills h m i =
      let off = revoke_all-IsRefused h.adapters p h m in
      let same = revoke_all-next_permit h.adapters h in stop_active_from h (ground arith)

  stop_host_kills :
      (h : RuntimeHost)
      → h.state ≢ RuntimeHostState.stopped
      → Holds p h.adapters
      → p < h.next_permit
      → IsDead p (stop_host flags ports sources h).0
  unfolding stop_host
  stop_host_kills h n m i = let active = stop_active_kills h m i in ground arith

  stop_host-IsDead : (h : RuntimeHost) → IsDead p h → IsDead p (stop_host flags ports sources h).0
  unfolding stop_host
  stop_host-IsDead h d = let active = stop_active-IsDead h d in ground arith

add_registered-IsDead :
    (p : Permit) (a : RegisteredAdapter) (r : Bridge × Result EndpointRegistrationError (Unit {0}))
    (h : RuntimeHost)
    → IsDead p h
    → IsDead p (add_registered a r h).0
unfolding enter
add_registered-IsDead p a (b, ok u) h d = d
add_registered-IsDead p a (b, err x) h d = d

register_provider_host-IsDead :
    (p : Permit) (d : ProviderDescriptor) (h : RuntimeHost)
    → IsDead p h
    → IsDead p (register_provider_host d h).0
unfolding register_provider_host
register_provider_host-IsDead p d h i =
    let new = new_adapter (provider d.id) persistent in
    let added = add_registered-IsDead p new (register_provider d h.bridge) h i in ground arith

register_channel_host-IsDead :
    (p : Permit) (d : ChannelDescriptor) (s : ChannelSubscriptionScope) (h : RuntimeHost)
    → IsDead p h
    → IsDead p (register_channel_host d s h).0
unfolding register_channel_host
register_channel_host-IsDead p d s h i =
    let new = new_adapter (channel d.id) s in
    let added = add_registered-IsDead p new (register_channel d h.bridge) h i in ground arith

subscribe_host-IsDead :
    (flags : Flags) (ports : Ports) (p : Permit) (c s : Uuid) (h : RuntimeHost)
    → IsDead p h
    → IsDead p (subscribe_host flags ports c s h).0
unfolding subscribe_host enter
subscribe_host-IsDead flags ports p c s h d = d

unsubscribe_host-IsDead :
    (p : Permit) (c s : Uuid) (h : RuntimeHost) → IsDead p h → IsDead p (unsubscribe_host c s h).0
unfolding unsubscribe_host enter
unsubscribe_host-IsDead p c s h d = d

-- A Host comes to be another one by its operations and by calls through any handles.
pub data Runs (flags : Flags) (ports : Ports) (h : RuntimeHost) : RuntimeHost → Type 0 where
  done : Runs flags ports h h
  starts :
      (sources : Sources) {k : RuntimeHost}
      → Runs flags ports h k
      → Runs flags ports h (start_host flags ports sources k).0
  stops :
      (sources : Sources) {k : RuntimeHost}
      → Runs flags ports h k
      → Runs flags ports h (stop_host flags ports sources k).0
  calls_through :
      (endpoint : RuntimeEndpointId) (permit : Permit) (cs : List IngressCall) {k : RuntimeHost}
      → Runs flags ports h k
      → Runs flags ports h (call_all flags ports endpoint permit cs k)
  registers_provider :
      (d : ProviderDescriptor) {k : RuntimeHost}
      → Runs flags ports h k
      → Runs flags ports h (register_provider_host d k).0
  registers_channel :
      (d : ChannelDescriptor) (scope : ChannelSubscriptionScope) {k : RuntimeHost}
      → Runs flags ports h k
      → Runs flags ports h (register_channel_host d scope k).0
  subscribes :
      (channel_id session_id : Uuid) {k : RuntimeHost}
      → Runs flags ports h k
      → Runs flags ports h (subscribe_host flags ports channel_id session_id k).0
  unsubscribes :
      (channel_id session_id : Uuid) {k : RuntimeHost}
      → Runs flags ports h k
      → Runs flags ports h (unsubscribe_host channel_id session_id k).0

module _ (flags : Flags) (ports : Ports) where
  Runs-IsDead : (p : Permit) {h k : RuntimeHost} → Runs flags ports h k → IsDead p h → IsDead p k
  Runs-IsDead p done d = d
  Runs-IsDead p (starts sources r) d = start_host-IsDead flags ports sources p _ (Runs-IsDead p r d)
  Runs-IsDead p (stops sources r) d = stop_host-IsDead flags ports sources p _ (Runs-IsDead p r d)
  Runs-IsDead p (calls_through endpoint permit cs r) d =
      call_all-IsDead flags ports endpoint permit p cs _ (Runs-IsDead p r d)
  Runs-IsDead p (registers_provider d' r) d =
      register_provider_host-IsDead p d' _ (Runs-IsDead p r d)
  Runs-IsDead p (registers_channel d' scope r) d =
      register_channel_host-IsDead p d' scope _ (Runs-IsDead p r d)
  Runs-IsDead p (subscribes channel_id session_id r) d =
      subscribe_host-IsDead flags ports p channel_id session_id _ (Runs-IsDead p r d)
  Runs-IsDead p (unsubscribes channel_id session_id r) d =
      unsubscribe_host-IsDead p channel_id session_id _ (Runs-IsDead p r d)

  -- Once `stop` has been called on a Host that was not stopped, a handle whose permit was the
  -- current one of an adapter has no effect ever again: through whatever starts, stops,
  -- registrations, subscriptions and calls the Host goes on, with whatever Sources, calls with that permit leave
  -- it as it is. The permit is one that the Host has issued.
  pub stop_host_permanent :
      (sources : Sources) (p : Permit) (h : RuntimeHost)
      → h.state ≢ RuntimeHostState.stopped
      → Holds p h.adapters
      → p < h.next_permit
      → (k : RuntimeHost) → Runs flags ports (stop_host flags ports sources h).0 k
      → (endpoint : RuntimeEndpointId) (cs : List IngressCall)
      → call_all flags ports endpoint p cs k ≡ k
  stop_host_permanent sources p h n m i k r endpoint cs =
      let dead = stop_host_kills flags ports sources p h n m i in
      call_all-refused flags ports endpoint p cs k (Runs-IsDead p r dead).0
