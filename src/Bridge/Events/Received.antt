-- ===== src/Bridge/Events/Received.antt =====
-- What the Channels receive from the fan-out of `handle_provider_event` in
-- agentpulse-bridge/src/bridge.rs.
use agentpulse_rs.Common.{
  suc, ◌<◌, ◌≤◌, ◌≡◌, refl, sym, subst, true, false, List, [], ◌∷◌, Option, none, some, ok, arith,
  inl, inr, ◌⊎◌, Option-cases, Result-cases, Bool-cases, ◌==◌, if◌then◌else◌, ==_iff,
}
use agentpulse_rs.Common.Map.{Map, get, insert, contains_key, keys, get-insert, RisesFrom, IsSorted}
use agentpulse_rs.Domain.Session.{Uuid, AgentSession}
use agentpulse_rs.Domain.Capability.{Flags}
use agentpulse_rs.Domain.Endpoint.{ProviderDescriptor}
use agentpulse_rs.Domain.Event.{AgentEvent}
use agentpulse_rs.Routing.{ChannelEventRoute, channel_event_route}
use agentpulse_rs.Bridge.State.{Ports, RegisteredChannel, IdSet, deliver_event, deliver_session}
use agentpulse_rs.Bridge.Events.Deliveries.{AreRegistered, AreRegistered-insert}
use agentpulse_rs.Bridge.Events.{Route, compute_routes, deliver_one, deliver_all}

-- A Channel got the event with its route, and after it possibly the view of the session.
abbrev pub Gets : AgentEvent → ChannelEventRoute → RegisteredChannel → RegisteredChannel → Type 0
Gets e route c c' =
    (c'.received ≡ deliver_event e route ∷ c.received)
    ⊎ ((view : AgentSession) × (c'.received
          ≡ deliver_session view ∷ deliver_event e route ∷ c.received))

-- The routes rise by the identifiers of their Channels, from `k` on.
abbrev pub RoutesRise : Uuid → List Route → Type 0
RoutesRise k [] = Unit {0}
RoutesRise k (r ∷ rs) = (k ≤ r.channel_id) × RoutesRise (suc r.channel_id) rs

abbrev pub KeysRise : Uuid → IdSet → Type 0
KeysRise k [] = Unit {0}
KeysRise k ((j, u) ∷ set) = (k ≤ j) × KeysRise (suc j) set

pub RisesFrom-KeysRise : (k : Uuid) (set : IdSet) → RisesFrom k set → KeysRise (suc k) set
RisesFrom-KeysRise k [] r = tt
RisesFrom-KeysRise k ((j, u) ∷ set) r = (omega arith, RisesFrom-KeysRise j set r.1)

pub IsSorted-KeysRise : (set : IdSet) → IsSorted set → KeysRise 0 set
IsSorted-KeysRise [] r = tt
IsSorted-KeysRise ((j, u) ∷ set) r = (omega arith, RisesFrom-KeysRise j set r)

abbrev pub route_of : Uuid → List Route → Option ChannelEventRoute
route_of id [] = none
route_of id (r ∷ rs) = if r.channel_id == id then some r.route else route_of id rs

RoutesRise-skips :
    (id k : Uuid) (rs : List Route) → RoutesRise k rs → id < k → route_of id rs ≡ none
RoutesRise-skips id k [] h le = refl
RoutesRise-skips id k (r ∷ rs) h le = ground (arith, RoutesRise-skips id (suc r.channel_id) rs)

module _ (ports : Ports) (e : AgentEvent) (view : Option AgentSession) where
  deliver_one-Gets :
      (r : Route) (c : RegisteredChannel) → Gets e r.route c (deliver_one ports e view r c).0
  unfolding deliver_one
  deliver_one-Gets r c =
      elim (Option-cases (ports.channel_answer r.channel_id c.received (deliver_event e r.route))) [
        | inr (x, failed) ↦ inl (ground arith)
        | inl fine ↦ elim (Bool-cases r.with_session) [
          | inr unwanted ↦ inl (ground arith)
          | inl wanted ↦ elim (Option-cases view) [
            | inl hidden ↦ inl (ground arith)
            | inr (v, shown) ↦ inr (v, ground arith)
          ]
        ]
      ]

  -- A Channel that no route names is not called.
  pub deliver_all-skips :
      (id : Uuid) (rs : List Route) (channels : Map RegisteredChannel)
      → route_of id rs ≡ none
      → get id (deliver_all ports e view rs channels).0 ≡ get id channels
  unfolding deliver_all
  deliver_all-skips id [] channels h = refl
  deliver_all-skips id (r ∷ rs) channels h = elim (Option-cases (get r.channel_id channels)) [
    | inl absent ↦ ground arith
    | inr (c, found) ↦
        let c' = (deliver_one ports e view r c).0 in
        ground (
          arith,
          deliver_all-skips id rs (insert r.channel_id c' channels),
          get-insert r.channel_id id c' channels,
        )
  ]

  -- A Channel that one route names is called once.
  pub deliver_all-Gets :
      (id k : Uuid) (rs : List Route) (channels : Map RegisteredChannel) (c : RegisteredChannel)
      (route : ChannelEventRoute)
      → RoutesRise k rs
      → AreRegistered channels rs
      → route_of id rs ≡ some route
      → get id channels ≡ some c
      → (c' : RegisteredChannel) × (get id (deliver_all ports e view rs channels).0 ≡ some c')
        × Gets e route c c'
  unfolding deliver_all
  deliver_all-Gets id k [] channels c route h a q found = cc
  deliver_all-Gets id k (r ∷ rs) channels c route h a q found =
      elim (Option-cases (get r.channel_id channels)) [
        | inl absent ↦ ground arith
        | inr (c0, known) ↦
            let c1 = (deliver_one ports e view r c0).0 in
            let channels' = insert r.channel_id c1 channels in
            elim (Bool-cases (r.channel_id == id)) [
              | inl same ↦
                  let here : r.channel_id ≡ id = (==_iff r.channel_id id).0 same in
                  let rest =
                    deliver_all-skips id rs channels'
                      (RoutesRise-skips id (suc r.channel_id) rs h.1 (omega arith)) in
                  let same_route : r.route ≡ route = ground arith in
                  let same_c : c0 ≡ c = ground arith in
                  let got : Gets e route c c1 =
                    subst (λ u. Gets e u c c1) same_route
                      (subst (λ u. Gets e r.route u c1) same_c (deliver_one-Gets r c0)) in
                  (c1, ground (arith, rest, get-insert r.channel_id id c1 channels), got)
              | inr other ↦
                  let kept : get id channels' ≡ some c =
                    ground (arith, get-insert r.channel_id id c1 channels) in
                  let next : route_of id rs ≡ some route = ground arith in
                  let (c', final, got) =
                    deliver_all-Gets id (suc r.channel_id) rs channels' c route h.1
                      (AreRegistered-insert r.channel_id c1 channels rs a.1) next kept in
                  (c', ground arith, got)
            ]
      ]

module _ (flags : Flags) (provider : ProviderDescriptor) (s : AgentSession) (e : AgentEvent)
    (channels : Map RegisteredChannel) where
  -- Each subscriber has the route that the policy decides for it, and nobody else has one.
  pub compute_routes-route_of :
      (k id : Uuid) (set : IdSet) (routes : List Route)
      → KeysRise k set
      → compute_routes flags provider s e channels (keys set) ≡ ok routes
      → RoutesRise k routes
        × (contains_key id set ≡ false → route_of id routes ≡ none)
        × (contains_key id set ≡ true
            → (c : RegisteredChannel) × (route : ChannelEventRoute) × (get id channels ≡ some c)
              × (route_of id routes ≡ some route)
              × (channel_event_route flags provider c.descriptor s e ≡ ok route))
  unfolding compute_routes get
  compute_routes-route_of k id [] [] r h = (tt, λ u. refl, λ u. cc)
  compute_routes-route_of k id [] (q ∷ routes) r h = cc
  compute_routes-route_of k id ((j, u) ∷ set) [] r h = ground arith
  compute_routes-route_of k id ((j, u) ∷ set) (q ∷ routes) r h =
      elim (Option-cases (get j channels)) [
        | inl absent ↦ ground arith
        | inr (c, known) ↦
            elim (Result-cases (channel_event_route flags provider c.descriptor s e)) [
              | inr (x, failed) ↦ ground arith
              | inl (route, decided) ↦
                  let front : q.channel_id ≡ j = ground arith in
                  let its : q.route ≡ route = ground arith in
                  let rest : compute_routes flags provider s e channels (keys set) ≡ ok routes =
                    ground arith in
                  let (rise, out, in') = compute_routes-route_of (suc j) id set routes r.1 rest in
                  (
                    (omega arith, subst (λ i. RoutesRise (suc i) routes) (sym front) rise),
                    λ absent. ground (arith, out),
                    λ present. elim (Bool-cases (j == id)) [
                      | inl same ↦
                          let here : j ≡ id = (==_iff j id).0 same in
                          (
                            c,
                            route,
                            subst (λ i. get i channels ≡ some c) here known,
                            ground arith,
                            decided,
                          )
                      | inr other ↦
                          let (c', route', known', route_here, decided') = in' (ground arith) in
                          (c', route', known', ground arith, decided')
                    ],
                  )
            ]
      ]
