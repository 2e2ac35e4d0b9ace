-- ===== src/Bridge/Consistent/Registrations.antt =====
-- That the changes of the Bridge of agentpulse-bridge/src/bridge.rs keep it consistent.
use agentpulse_rs.Common.{◌≡◌}
use agentpulse_rs.Common.Map.{Map, insert, IsSorted, Each, insert-Each, insert-IsSorted}
use agentpulse_rs.Common.Map.Laws.{Each-mono}
use agentpulse_rs.Domain.Session.{Uuid}
use agentpulse_rs.Aggregate.State.{SessionAggregate}
use agentpulse_rs.Bridge.State.{Bridge, IdSet, RegisteredChannel, RegisteredProvider}
use agentpulse_rs.Bridge.Events.Deliveries.{Keyed, SameRegistrations}
use agentpulse_rs.Bridge.Consistent.{
  ProviderKeyed, Held, Subscribes, IsConsistent, Extends, insert-Extends, Held-mono,
  Subscribes-mono, SameRegistrations-Extends,
}

module _ (b : Bridge) (c : IsConsistent b) where
  -- An entry of the Providers, new or with the same descriptor.
  pub providers-IsConsistent :
      (id : Uuid) (p : RegisteredProvider)
      → p.descriptor.id ≡ id
      → IsConsistent (record b { providers = insert id p b.providers })
  providers-IsConsistent id p k = record {
    providers_sorted = insert-IsSorted id p b.providers c.providers_sorted;
    providers_keyed = insert-Each ProviderKeyed id p b.providers k c.providers_keyed;
    channels_sorted = c.channels_sorted;
    channels_keyed = c.channels_keyed;
    sessions_sorted = c.sessions_sorted;
    sessions_held =
        Each-mono (Held b.providers b.session_config)
          (Held (insert id p b.providers) b.session_config)
          (Held-mono (insert-Extends id p b.providers)) b.sessions c.sessions_held;
    subscriptions_sorted = c.subscriptions_sorted;
    subscriptions_held = c.subscriptions_held;
  }

  -- Channels in key order under their identifiers, the registered ones among them.
  pub channels-IsConsistent :
      (channels : Map RegisteredChannel)
      → IsSorted channels
      → Each Keyed channels
      → Extends channels b.channels
      → IsConsistent (record b { channels = channels })
  channels-IsConsistent channels s k e = record {
    providers_sorted = c.providers_sorted;
    providers_keyed = c.providers_keyed;
    channels_sorted = s;
    channels_keyed = k;
    sessions_sorted = c.sessions_sorted;
    sessions_held = c.sessions_held;
    subscriptions_sorted = c.subscriptions_sorted;
    subscriptions_held =
        Each-mono (Subscribes b.sessions b.channels) (Subscribes b.sessions channels)
          (Subscribes-mono (λ id h. h) e) b.subscriptions c.subscriptions_held;
  }

  pub same_channels-IsConsistent :
      (channels : Map RegisteredChannel)
      → SameRegistrations channels b.channels
      → IsConsistent (record b { channels = channels })
  same_channels-IsConsistent channels s =
      channels-IsConsistent channels (s.same_order c.channels_sorted) (s.same_keys c.channels_keyed)
        (SameRegistrations-Extends s)

  pub sessions-IsConsistent :
      (id : Uuid) (a : SessionAggregate)
      → Held b.providers b.session_config id a
      → IsConsistent (record b { sessions = insert id a b.sessions })
  sessions-IsConsistent id a h = record {
    providers_sorted = c.providers_sorted;
    providers_keyed = c.providers_keyed;
    channels_sorted = c.channels_sorted;
    channels_keyed = c.channels_keyed;
    sessions_sorted = insert-IsSorted id a b.sessions c.sessions_sorted;
    sessions_held =
        insert-Each (Held b.providers b.session_config) id a b.sessions h c.sessions_held;
    subscriptions_sorted = c.subscriptions_sorted;
    subscriptions_held =
        Each-mono (Subscribes b.sessions b.channels)
          (Subscribes (insert id a b.sessions) b.channels)
          (Subscribes-mono (insert-Extends id a b.sessions) (λ k h. h)) b.subscriptions
          c.subscriptions_held;
  }

  pub subscriptions-IsConsistent :
      (subscriptions : Map IdSet)
      → IsSorted subscriptions
      → Each (Subscribes b.sessions b.channels) subscriptions
      → IsConsistent (record b { subscriptions = subscriptions })
  subscriptions-IsConsistent subscriptions s h = record {
    providers_sorted = c.providers_sorted;
    providers_keyed = c.providers_keyed;
    channels_sorted = c.channels_sorted;
    channels_keyed = c.channels_keyed;
    sessions_sorted = c.sessions_sorted;
    sessions_held = c.sessions_held;
    subscriptions_sorted = s;
    subscriptions_held = h;
  }
