-- ===== src/Bridge/Runtime/Revoked.antt =====
-- The permits of agentpulse-bridge/src/runtime.rs: what `stop` revokes, and what is left of a handle.
use agentpulse_rs.Common.{
  false, List, [], ◌∷◌, Option, none, some, ◌≡◌, ◌⊎◌, inl, inr, refl, subst, ap, ◌∙◌, arith,
  ==_self, Result,
}
use agentpulse_rs.Common.Map.{get-insert}
use agentpulse_rs.Domain.Capability.{Flags}
use agentpulse_rs.Bridge.State.{Ports, Bridge}
use agentpulse_rs.Bridge.Runtime.State.{
  RuntimeHost, RegisteredAdapter, RuntimeEndpointId, provider, channel, Permit, enter, revoke,
  revoke_opt,
}
use agentpulse_rs.Bridge.Runtime.Ingress.{
  IngressHandle, IngressCall, publish, subscribe_to, sync_with, unsubscribe_from, respond, submit,
  publish_event_handle, with_bridge_access, subscribe_handle, sync_session_handle,
  ChannelActionIngressError, unsubscribe_handle, submit_response_handle, submit_command_handle,
  call_handle, call_all,
}
use agentpulse_rs.Bridge.Runtime.Lifecycle.{revoke_all_ingress}

-- The permit is refused.
abbrev pub IsRefused : Permit → RuntimeHost → Type 0
IsRefused permit h = enter permit h ≡ false

with_bridge_access-refused {ℓ} :
    {R : Type ℓ} (k : IngressHandle)
    → (operation : Bridge → Bridge × Result ChannelActionIngressError R) (h : RuntimeHost)
    → IsRefused k.permit h
    → (with_bridge_access k operation h).0 ≡ h
unfolding with_bridge_access
with_bridge_access-refused k operation h q = ground arith

revoke-IsRefused : (permit : Permit) (h : RuntimeHost) → IsRefused permit (revoke permit h)
unfolding enter revoke
revoke-IsRefused p h = ground (arith, get-insert p p false h.permits, ==_self p)

revoke_keeps :
    (permit other : Permit) (h : RuntimeHost)
    → IsRefused other h
    → IsRefused other (revoke permit h)
unfolding enter revoke
revoke_keeps p o h q = ground (arith, get-insert p o false h.permits)

-- An adapter of the list holds the permit.
abbrev pub Holds : Permit → List RegisteredAdapter → Type 0
Holds permit [] = ⊥
Holds permit (a ∷ as') = (a.permit ≡ some permit) ⊎ Holds permit as'

call_handle-refused :
    (flags : Flags) (ports : Ports) (endpoint : RuntimeEndpointId) (permit : Permit)
    → (c : IngressCall) (h : RuntimeHost) → IsRefused permit h
    → call_handle flags ports endpoint permit c h ≡ h
unfolding call_handle publish_event_handle subscribe_handle sync_session_handle unsubscribe_handle
    submit_response_handle submit_command_handle
call_handle-refused f ps (provider id) p (publish e) h q = ground arith
call_handle-refused f ps (provider id) p (subscribe_to s) h q = refl
call_handle-refused f ps (provider id) p (sync_with s a n) h q = refl
call_handle-refused f ps (provider id) p (unsubscribe_from s) h q = refl
call_handle-refused f ps (provider id) p (respond r) h q = refl
call_handle-refused f ps (provider id) p (submit c) h q = refl
call_handle-refused f ps (channel id) p (publish e) h q = refl
call_handle-refused f ps (channel id) p (subscribe_to s) h q =
    with_bridge_access-refused (record { id = id; permit = p }) _ h q
call_handle-refused f ps (channel id) p (sync_with s a n) h q =
    with_bridge_access-refused (record { id = id; permit = p }) _ h q
call_handle-refused f ps (channel id) p (unsubscribe_from s) h q =
    with_bridge_access-refused (record { id = id; permit = p }) _ h q
call_handle-refused f ps (channel id) p (respond r) h q =
    with_bridge_access-refused (record { id = id; permit = p }) _ h q
call_handle-refused f ps (channel id) p (submit c) h q =
    with_bridge_access-refused (record { id = id; permit = p }) _ h q

pub call_all-refused :
    (flags : Flags) (ports : Ports) (endpoint : RuntimeEndpointId) (permit : Permit)
    → (cs : List IngressCall) (h : RuntimeHost) → IsRefused permit h
    → call_all flags ports endpoint permit cs h ≡ h
unfolding call_all
call_all-refused f ps endpoint p [] h q = refl
call_all-refused f ps endpoint p (c ∷ cs) h q =
    ap (call_all f ps endpoint p cs) (call_handle-refused f ps endpoint p c h q)
    ∙ call_all-refused f ps endpoint p cs h q

revoke_opt_keeps :
    (o : Option Permit) (other : Permit) (h : RuntimeHost)
    → IsRefused other h
    → IsRefused other (revoke_opt o h)
revoke_opt_keeps none other h q = q
revoke_opt_keeps (some p) other h q = revoke_keeps p other h q

revoke_opt-IsRefused :
    (o : Option Permit) (p : Permit) (h : RuntimeHost) → o ≡ some p → IsRefused p (revoke_opt o h)
revoke_opt-IsRefused none p h q = absurd (ground arith)
revoke_opt-IsRefused (some o) p h q =
    let same : o ≡ p = ground arith in
    subst (λ x. IsRefused x (revoke o h)) same (revoke-IsRefused o h)

revoke_all_keeps :
    (as' : List RegisteredAdapter) (p : Permit) (h : RuntimeHost)
    → IsRefused p h
    → IsRefused p (revoke_all_ingress as' h)
unfolding revoke_all_ingress
revoke_all_keeps [] p h q = q
revoke_all_keeps (a ∷ as') p h q =
    revoke_all_keeps as' p (revoke_opt a.permit h) (revoke_opt_keeps a.permit p h q)

pub revoke_all-IsRefused :
    (as' : List RegisteredAdapter) (p : Permit) (h : RuntimeHost)
    → Holds p as'
    → IsRefused p (revoke_all_ingress as' h)
unfolding revoke_all_ingress
revoke_all-IsRefused [] p h m = absurd m
revoke_all-IsRefused (a ∷ as') p h (inl q) =
    revoke_all_keeps as' p (revoke_opt a.permit h) (revoke_opt-IsRefused a.permit p h q)
revoke_all-IsRefused (a ∷ as') p h (inr m) = revoke_all-IsRefused as' p (revoke_opt a.permit h) m
