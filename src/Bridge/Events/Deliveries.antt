-- ===== src/Bridge/Events/Deliveries.antt =====
-- The deliveries of `handle_provider_event` in agentpulse-bridge/src/bridge.rs: who is called, and
-- in which order.
use agentpulse_rs.Common.{
  ◌≡◌, refl, ap, ◌∙◌, true, List, [], ◌∷◌, map, Option, none, some, ok, arith, Option-cases, inl,
  inr, All,
}
use agentpulse_rs.Common.Map.{
  Map, get, insert, contains_key, get-insert, IsSorted, Each, get-Each, insert-Each,
  insert-IsSorted,
}
use agentpulse_rs.Common.Map.Laws.{contains_key-insert}
use agentpulse_rs.Domain.Session.{Uuid, AgentSession}
use agentpulse_rs.Domain.Capability.{Flags}
use agentpulse_rs.Domain.Endpoint.{ProviderDescriptor, ChannelDescriptor}
use agentpulse_rs.Domain.Event.{AgentEvent}
use agentpulse_rs.Bridge.State.{Ports, RegisteredChannel}
use agentpulse_rs.Bridge.Events.{
  Route, ChannelDeliveryResult, compute_routes, deliver_one, deliver_all, result_channel_id,
}

abbrev pub route_ids : List Route → List Uuid
route_ids routes = map (λ r. r.channel_id) routes

abbrev pub delivery_ids : List ChannelDeliveryResult → List Uuid
delivery_ids ds = map result_channel_id ds

-- The registration of a Channel.
abbrev pub described : Uuid → Map RegisteredChannel → Option ChannelDescriptor
described id channels = registration (get id channels)
  where
    registration : Option RegisteredChannel → Option ChannelDescriptor
    registration none = none
    registration (some c) = some c.descriptor

abbrev pub Keyed : Uuid → RegisteredChannel → Type 0
Keyed id c = c.descriptor.id ≡ id

-- The same Channels are registered, with the same descriptors.
pub record SameRegistrations (new old : Map RegisteredChannel) : Type 0 where
  pub same_described : (id : Uuid) → described id new ≡ described id old
  pub same_order : IsSorted old → IsSorted new
  pub same_keys : Each Keyed old → Each Keyed new

abbrev pub AreRegistered : Map RegisteredChannel → List Route → Type 0
AreRegistered channels routes = All (λ r. contains_key r.channel_id channels ≡ true) routes

module _ (flags : Flags) (provider : ProviderDescriptor) (s : AgentSession) (e : AgentEvent)
    (channels : Map RegisteredChannel) where
  -- The routes are those of the subscribers, in order, and each of their Channels is registered.
  pub compute_routes-ids :
      (ids : List Uuid) (routes : List Route)
      → compute_routes flags provider s e channels ids ≡ ok routes
      → (route_ids routes ≡ ids) × AreRegistered channels routes
  unfolding compute_routes
  compute_routes-ids [] routes h = ground arith
  compute_routes-ids (id ∷ ids) [] h = ground arith
  compute_routes-ids (id ∷ ids) (r ∷ rs) h = ground (arith, compute_routes-ids ids rs)

SameRegistrations-refl : (m : Map RegisteredChannel) → SameRegistrations m m
SameRegistrations-refl m = record {
  same_described = λ id. refl;
  same_order = λ s. s;
  same_keys = λ k. k;
}

SameRegistrations-trans :
    {l m n : Map RegisteredChannel}
    → SameRegistrations l m
    → SameRegistrations m n
    → SameRegistrations l n
SameRegistrations-trans p q = record {
  same_described = λ id. p.same_described id ∙ q.same_described id;
  same_order = λ s. p.same_order (q.same_order s);
  same_keys = λ k. p.same_keys (q.same_keys k);
}

-- To write back a Channel under its own registration.
pub SameRegistrations-insert :
    (id : Uuid) (c c' : RegisteredChannel) (m : Map RegisteredChannel)
    → get id m ≡ some c
    → c'.descriptor ≡ c.descriptor
    → SameRegistrations (insert id c' m) m
SameRegistrations-insert id c c' m found same = record {
  same_described = λ k. ground (arith, get-insert id k c' m);
  same_order = insert-IsSorted id c' m;
  same_keys = λ k.
      insert-Each Keyed id c' m
        (ap (λ (d : ChannelDescriptor). d.id) same ∙ get-Each Keyed id m c k found) k;
}

pub AreRegistered-insert :
    (id : Uuid) (c : RegisteredChannel) (channels : Map RegisteredChannel) (rs : List Route)
    → AreRegistered channels rs
    → AreRegistered (insert id c channels) rs
AreRegistered-insert id c channels [] h = tt
AreRegistered-insert id c channels (r ∷ rs) h = (
  ground (arith, contains_key-insert id r.channel_id c channels),
  AreRegistered-insert id c channels rs h.1,
)

module _ (ports : Ports) (e : AgentEvent) (view : Option AgentSession) where
  pub deliver_one-id :
      (r : Route) (c : RegisteredChannel)
      → result_channel_id (deliver_one ports e view r c).1 ≡ r.channel_id
  unfolding deliver_one
  deliver_one-id r c = ground arith

  deliver_one-described :
      (r : Route) (c : RegisteredChannel)
      → (deliver_one ports e view r c).0.descriptor ≡ c.descriptor
  unfolding deliver_one
  deliver_one-described r c = ground arith

  -- A delivery changes no registration.
  pub deliver_all-SameRegistrations :
      (rs : List Route) (channels : Map RegisteredChannel)
      → SameRegistrations (deliver_all ports e view rs channels).0 channels
  unfolding deliver_all
  deliver_all-SameRegistrations [] channels = SameRegistrations-refl channels
  deliver_all-SameRegistrations (r ∷ rs) channels =
      elim (Option-cases (get r.channel_id channels)) [
        | inl absent ↦ rw (absent, deliver_all) (SameRegistrations-refl channels)
        | inr (c, found) ↦
            let c' = (deliver_one ports e view r c).0 in
            let later = deliver_all-SameRegistrations rs (insert r.channel_id c' channels) in
            rw (found, deliver_all)
              (SameRegistrations-trans later (
                SameRegistrations-insert r.channel_id c c' channels found
                  (deliver_one-described r c)))
      ]

  -- With every Channel registered no delivery is skipped, whatever the ones before it answered.
  pub deliver_all-ids :
      (rs : List Route) (channels : Map RegisteredChannel)
      → AreRegistered channels rs
      → (ds : List ChannelDeliveryResult) × ((deliver_all ports e view rs channels).1 ≡ ok ds)
        × (delivery_ids ds ≡ route_ids rs)
  unfolding deliver_all
  deliver_all-ids [] channels h = ([], refl, refl)
  deliver_all-ids (r ∷ rs) channels h = elim (Option-cases (get r.channel_id channels)) [
    | inl absent ↦ ground arith
    | inr (c, found) ↦
        let (c', result) = deliver_one ports e view r c in
        let (ds, p, q) =
          deliver_all-ids rs (insert r.channel_id c' channels)
            (AreRegistered-insert r.channel_id c' channels rs h.1) in
        (result ∷ ds, ground arith, ground (arith, deliver_one-id r c))
  ]
