-- ===== src/Bridge/Runtime/Permanent.antt =====
-- The permits of agentpulse-bridge/src/runtime.rs over any later operations of the Host.
use agentpulse_rs.Common.{
  suc, true, false, List, [], ◌∷◌, Option, none, some, ◌≡◌, ◌<◌, refl, arith, Result,
}
use agentpulse_rs.Common.Map.{insert, get-insert}
use agentpulse_rs.Domain.Capability.{Flags}
use agentpulse_rs.Bridge.State.{Ports, Bridge}
use agentpulse_rs.Bridge.Runtime.State.{
  RuntimeHost, RegisteredAdapter, RuntimeEndpointId, provider, channel, Permit, enter, revoke,
  revoke_opt,
}
use agentpulse_rs.Bridge.Runtime.Ingress.{
  IngressHandle, IngressCall, publish, subscribe_to, sync_with, unsubscribe_from, respond, submit,
  ChannelActionIngressError, publish_event_handle, with_bridge_access, subscribe_handle,
  sync_session_handle, unsubscribe_handle, submit_response_handle, submit_command_handle,
  call_handle, call_all,
}
use agentpulse_rs.Bridge.Runtime.Lifecycle.{revoke_all_ingress}
use agentpulse_rs.Bridge.Runtime.Revoked.{IsRefused}

-- The permit has been issued and is refused.
abbrev pub IsDead : Permit → RuntimeHost → Type 0
IsDead p h = IsRefused p h × (p < h.next_permit)

-- The second Host has the permits of the first.
abbrev pub SamePermits : RuntimeHost → RuntimeHost → Type 0
SamePermits h h' = (h'.permits ≡ h.permits) × (h'.next_permit ≡ h.next_permit)

pub SamePermits-IsDead :
    (p : Permit) (h h' : RuntimeHost) → SamePermits h h' → IsDead p h → IsDead p h'
unfolding enter
SamePermits-IsDead p h h' s d = ground arith

with_bridge_access-SamePermits {ℓ} :
    {R : Type ℓ} (k : IngressHandle)
    → (operation : Bridge → Bridge × Result ChannelActionIngressError R) (h : RuntimeHost)
    → SamePermits h (with_bridge_access k operation h).0
unfolding with_bridge_access
with_bridge_access-SamePermits k operation h = ground arith

call_handle-SamePermits :
    (flags : Flags) (ports : Ports) (endpoint : RuntimeEndpointId) (permit : Permit)
    → (c : IngressCall) (h : RuntimeHost)
    → SamePermits h (call_handle flags ports endpoint permit c h)
unfolding call_handle publish_event_handle subscribe_handle sync_session_handle unsubscribe_handle
    submit_response_handle submit_command_handle
call_handle-SamePermits f ps (provider id) p (publish e) h = ground arith
call_handle-SamePermits f ps (provider id) p (subscribe_to s) h = (refl, refl)
call_handle-SamePermits f ps (provider id) p (sync_with s a n) h = (refl, refl)
call_handle-SamePermits f ps (provider id) p (unsubscribe_from s) h = (refl, refl)
call_handle-SamePermits f ps (provider id) p (respond r) h = (refl, refl)
call_handle-SamePermits f ps (provider id) p (submit c) h = (refl, refl)
call_handle-SamePermits f ps (channel id) p (publish e) h = (refl, refl)
call_handle-SamePermits f ps (channel id) p (subscribe_to s) h =
    with_bridge_access-SamePermits (record { id = id; permit = p }) _ h
call_handle-SamePermits f ps (channel id) p (sync_with s a n) h =
    with_bridge_access-SamePermits (record { id = id; permit = p }) _ h
call_handle-SamePermits f ps (channel id) p (unsubscribe_from s) h =
    with_bridge_access-SamePermits (record { id = id; permit = p }) _ h
call_handle-SamePermits f ps (channel id) p (respond r) h =
    with_bridge_access-SamePermits (record { id = id; permit = p }) _ h
call_handle-SamePermits f ps (channel id) p (submit c) h =
    with_bridge_access-SamePermits (record { id = id; permit = p }) _ h

pub revoke-IsDead : (q p : Permit) (h : RuntimeHost) → IsDead p h → IsDead p (revoke q h)
unfolding enter revoke
revoke-IsDead q p h d = ground (arith, get-insert q p false h.permits)

module _ (flags : Flags) (ports : Ports) where
  call_handle-IsDead :
      (endpoint : RuntimeEndpointId) (q p : Permit) (c : IngressCall) (h : RuntimeHost)
      → IsDead p h
      → IsDead p (call_handle flags ports endpoint q c h)
  call_handle-IsDead endpoint q p c h =
      SamePermits-IsDead p h _ (call_handle-SamePermits flags ports endpoint q c h)

  pub call_all-IsDead :
      (endpoint : RuntimeEndpointId) (q p : Permit) (cs : List IngressCall) (h : RuntimeHost)
      → IsDead p h
      → IsDead p (call_all flags ports endpoint q cs h)
  unfolding call_all
  call_all-IsDead endpoint q p [] h d = d
  call_all-IsDead endpoint q p (c ∷ cs) h d =
      call_all-IsDead endpoint q p cs _ (call_handle-IsDead endpoint q p c h d)

pub revoke_opt-IsDead :
    (o : Option Permit) (p : Permit) (h : RuntimeHost) → IsDead p h → IsDead p (revoke_opt o h)
revoke_opt-IsDead none p h d = d
revoke_opt-IsDead (some q) p h d = revoke-IsDead q p h d

pub revoke_all-IsDead :
    (as' : List RegisteredAdapter) (p : Permit) (h : RuntimeHost)
    → IsDead p h
    → IsDead p (revoke_all_ingress as' h)
unfolding revoke_all_ingress
revoke_all-IsDead [] p h d = d
revoke_all-IsDead (a ∷ as') p h d =
    revoke_all-IsDead as' p (revoke_opt a.permit h) (revoke_opt-IsDead a.permit p h d)

pub issue-IsDead :
    (p : Permit) (h : RuntimeHost)
    → IsDead p h
    → IsDead p (record h {
      permits = insert h.next_permit true h.permits;
      next_permit = suc h.next_permit;
    })
unfolding enter
issue-IsDead p h d = ground (arith, get-insert h.next_permit p true h.permits)
