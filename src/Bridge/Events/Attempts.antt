-- ===== src/Bridge/Events/Attempts.antt =====
-- The calls of the delivery loop of `handle_provider_event` in agentpulse-bridge/src/bridge.rs, as a
-- relation between its routes, the Channels before and after, and its report.
use agentpulse_rs.Common.{
  ◌≡◌, refl, subst, true, false, List, [], ◌∷◌, Option, none, some, ok, arith, any, All, ◌>>=◌,
  bind-ok, Option-cases, Bool-cases, inl, inr,
}
use agentpulse_rs.Common.Map.{Map, get, insert}
use agentpulse_rs.Domain.Session.{Uuid, AgentSession}
use agentpulse_rs.Domain.Event.{AgentEvent}
use agentpulse_rs.Aggregate.State.{SessionAggregate}
use agentpulse_rs.Bridge.State.{
  AdapterError, Ports, RegisteredChannel, ChannelDelivery, deliver_event, deliver_session,
}
use agentpulse_rs.Bridge.Events.{
  Route, ChannelDeliveryKind, event, session, ChannelDeliveryResult, delivered, failed, deliver_one,
  deliver_all, view_for,
}
use agentpulse_rs.Bridge.Events.Deliveries.{AreRegistered, AreRegistered-insert}

-- The Channel after a call has reached it.
abbrev pub reached : ChannelDelivery → RegisteredChannel → RegisteredChannel
reached d c = record c { received = d ∷ c.received }

-- What is reported of a Channel that answered the call of this kind.
abbrev pub reported : Uuid → ChannelDeliveryKind → Option AdapterError → ChannelDeliveryResult
reported id kind none = delivered id
reported id kind (some x) = failed (record { channel_id = id; delivery = kind; source = x })

module _ (ports : Ports) (e : AgentEvent) (s : AgentSession) where
  -- The calls for one route: the event, and after it the session if the route has it and the event
  -- was taken. The last answer is the one reported.
  pub data Attempt (r : Route) (c c' : RegisteredChannel) (d : ChannelDeliveryResult) : Type 0 where
    event_refused :
        (x : AdapterError)
        → ports.channel_answer r.channel_id c.received (deliver_event e r.route) ≡ some x
        → c' ≡ reached (deliver_event e r.route) c
        → d ≡ reported r.channel_id event (some x)
        → Attempt r c c' d
    event_only :
        ports.channel_answer r.channel_id c.received (deliver_event e r.route) ≡ none
        → r.with_session ≡ false
        → c' ≡ reached (deliver_event e r.route) c
        → d ≡ reported r.channel_id event none
        → Attempt r c c' d
    event_and_session :
        ports.channel_answer r.channel_id c.received (deliver_event e r.route) ≡ none
        → r.with_session ≡ true
        → c' ≡ reached (deliver_session s) (reached (deliver_event e r.route) c)
        → d
          ≡ reported r.channel_id session (
              ports.channel_answer r.channel_id
                (deliver_event e r.route ∷ c.received)
                (deliver_session s))
        → Attempt r c c' d

  -- The calls for the routes, one after the other.
  pub data Attempts
      : List Route
        → Map RegisteredChannel
        → Map RegisteredChannel
        → List ChannelDeliveryResult
        → Type 0 where
    none_left : (channels : Map RegisteredChannel) → Attempts [] channels channels []
    attempted :
        (r : Route) (rs : List Route) (channels final : Map RegisteredChannel)
        (c c' : RegisteredChannel) (d : ChannelDeliveryResult) (ds : List ChannelDeliveryResult)
        → get r.channel_id channels ≡ some c
        → Attempt r c c' d
        → Attempts rs (insert r.channel_id c' channels) final ds
        → Attempts (r ∷ rs) channels final (d ∷ ds)

-- The session is there for every route that has it.
abbrev pub Shows : AgentSession → Option AgentSession → List Route → Type 0
Shows s view routes = All (λ r. r.with_session ≡ true → view ≡ some s) routes

module _ (ports : Ports) (e : AgentEvent) (s : AgentSession) (view : Option AgentSession) where
  deliver_one-Attempt :
      (r : Route) (c : RegisteredChannel)
      → (r.with_session ≡ true → view ≡ some s)
      → (let out = deliver_one ports e view r c in Attempt ports e s r c out.0 out.1)
  unfolding deliver_one
  deliver_one-Attempt r c shown =
      elim (Option-cases (ports.channel_answer r.channel_id c.received (deliver_event e r.route))) [
        | inr (x, refused) ↦ event_refused x refused (ground arith) (ground arith)
        | inl fine ↦ elim (Bool-cases r.with_session) [
          | inr plain ↦ event_only fine plain (ground arith) (ground arith)
          | inl wanted ↦
              let there = shown wanted in
              elim (Option-cases (
                ports.channel_answer r.channel_id (deliver_event e r.route ∷ c.received)
                  (deliver_session s))) [
                    | inl taken ↦ event_and_session fine wanted (ground arith) (ground arith)
                    | inr (x, refused) ↦ event_and_session fine wanted (ground arith) (ground arith)
                  ]
        ]
      ]

  -- With every Channel registered the loop attempts every route, whatever the Channels answer.
  pub deliver_all-Attempts :
      (rs : List Route) (channels : Map RegisteredChannel)
      → AreRegistered channels rs
      → Shows s view rs
      → (ds : List ChannelDeliveryResult) → (deliver_all ports e view rs channels).1 ≡ ok ds
      → Attempts ports e s rs channels (deliver_all ports e view rs channels).0 ds
  unfolding deliver_all
  deliver_all-Attempts [] channels h shown ds q =
      subst (Attempts ports e s [] channels channels) (ground arith) (none_left channels)
  deliver_all-Attempts (r ∷ rs) channels h shown ds q =
      elim (Option-cases (get r.channel_id channels)) [
        | inl absent ↦ ground arith
        | inr (c, found) ↦
            let (c', d) = deliver_one ports e view r c in
            let (later, results) = deliver_all ports e view rs (insert r.channel_id c' channels) in
            let joined : results >>= (λ ds'. ok (d ∷ ds')) ≡ ok ds = ground arith in
            let (ds', p, q') = bind-ok results (λ ds'. ok (d ∷ ds')) ds joined in
            let ends : d ∷ ds' ≡ ds = ground arith in
            let rest =
              deliver_all-Attempts rs (insert r.channel_id c' channels)
                (AreRegistered-insert r.channel_id c' channels rs h.1) shown.1 ds' p in
            rw (found, deliver_all, ← ends)
              (attempted r rs channels later c c' d ds' found (deliver_one-Attempt r c shown.0)
                rest)
      ]

any-Shows :
    (s : AgentSession) (view : Option AgentSession) (routes : List Route)
    → (any (λ r. r.with_session) routes ≡ true → view ≡ some s)
    → Shows s view routes
any-Shows s view [] h = tt
any-Shows s view (r ∷ rs) h =
    (λ wanted. h (ground arith), any-Shows s view rs (λ wanted. h (ground arith)))

-- The session goes out with every route that has it.
pub view_for-Shows :
    (routes : List Route) (next : SessionAggregate)
    → Shows next.session (view_for routes next) routes
view_for-Shows routes next =
    any-Shows next.session (view_for routes next) routes (λ wanted. rw wanted refl)
