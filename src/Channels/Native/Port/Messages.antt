-- ===== src/Channels/Native/Port/Messages.antt =====
-- The messages in the frames of a baseline and of a sync of agentpulse-channels/native/src/port.rs.
use mathlib.Core.List.{map-append}
use agentpulse_rs.Common.{
  ◌≡◌, refl, ap, ◌∙◌, sym, subst, List, [], ◌∷◌, ◌++◌, map, Option, none, some, Result, ok, arith,
  try_map, bind-ok, String, All, ==_iff,
}
use agentpulse_rs.Domain.Error.{Text}
use agentpulse_rs.Domain.Session.{Uuid}
use agentpulse_rs.Domain.Capability.{Flags}
use agentpulse_rs.Domain.Identifiers.{Formats, ReadsBack}
use agentpulse_rs.Routing.{InteractionRoute, ChannelEventRoute, observe_only, interaction}
use agentpulse_rs.Bridge.State.{
  RoutedAgentEvent, RoutedInteractionRequest, ChannelSessionBaseline, ChannelSessionSync,
  deliver_session_sync,
}
use agentpulse_rs.Protocol.Codec.{Bytes, Serde, Rereads}
use agentpulse_rs.Protocol.Convert.{ProtocolMessage}
use agentpulse_rs.Protocol.RoundTrip.Capabilities.{AreMasks}
use agentpulse_rs.Protocol.RoundTrip.Envelope.{IsConstructed}
use agentpulse_rs.Channels.Native.Error.{NativeProtocolError}
use agentpulse_rs.Channels.Native.Dto.{ServerMessageDto}
use agentpulse_rs.Channels.Native.Message.{NativeDeliveryContext, NativeServerMessage, from_core}
use agentpulse_rs.Channels.Native.Codec.{Wire, decode_server_message}
use agentpulse_rs.Channels.Native.RoundTrip.Scalars.{WritesValues}
use agentpulse_rs.Channels.Native.RoundTrip.{RereadsWire, MadeByServer}
use agentpulse_rs.Channels.Native.State.{Frame, PendingSubscription}
use agentpulse_rs.Channels.Native.Port.{
  baseline_frames, interaction_frame, event_frame, sync_frames, frames_of_baseline, encoded_text,
}
use agentpulse_rs.Channels.Native.Port.Context.{PortResult}
use agentpulse_rs.Channels.Native.Port.Delivered.{encoded_text_back}
use agentpulse_rs.Channels.Native.Port.Told.{
  native_route, event_message, interaction_message, baseline_messages, sync_messages, IsBaseline,
  IsBaselineIfSome, IsMade,
}

-- Every element that is mapped says what its image is read as.
try_map-reads :
    {A B C : Type 0} (f : A → PortResult B) (g : B → Result NativeProtocolError C) (h : A → C)
    (P : A → Type 0)
    → ((x : A) → P x → (y : B) → f x ≡ ok y → g y ≡ ok (h x))
    → (xs : List A) → All P xs
    → (ys : List B) → try_map f xs ≡ ok ys
    → map g ys ≡ map ok (map h xs)
try_map-reads f g h P reads [] a [] e = refl
try_map-reads f g h P reads [] a (y ∷ ys) e = ground arith
try_map-reads f g h P reads (x ∷ xs) a [] e = ground arith
try_map-reads f g h P reads (x ∷ xs) a (y ∷ ys) e =
    ground (arith, reads x a.0 y, try_map-reads f g h P reads xs a.1 ys)

try_map-sources :
    {A B : Type 0} (f : A → PortResult B) (Q : A → Type 0)
    → ((x : A) (y : B) → f x ≡ ok y → Q x)
    → (xs : List A) (ys : List B) → try_map f xs ≡ ok ys
    → All Q xs
try_map-sources f Q each [] ys e = tt
try_map-sources f Q each (x ∷ xs) [] e = ground arith
try_map-sources f Q each (x ∷ xs) (y ∷ ys) e =
    (each x y (ground arith), try_map-sources f Q each xs ys (ground arith))

from_core_native : (route : ChannelEventRoute) → from_core route ≡ ok (native_route route)
unfolding from_core
from_core_native observe_only = refl
from_core_native (interaction InteractionRoute.read_only) = refl
from_core_native (interaction InteractionRoute.interactive) = refl

module _ {Value : Type 0} (serde : Serde Value) (write_value : Value → Result String Bytes)
    (wire : Wire Value (ServerMessageDto Value)) (flags : Flags) (formats : Formats) where
  -- The client reads these messages in these frames.
  abbrev pub AreRead : List Frame → List NativeServerMessage → Type 0
  AreRead fs ms = map (decode_server_message serde write_value flags formats wire) fs ≡ map ok ms

  event_frame-session :
      (k : Uuid) (r : RoutedAgentEvent) (f : Frame)
      → event_frame serde write_value wire flags formats k r ≡ ok f
      → r.event.session_id ≡ k
  unfolding event_frame
  event_frame-session k r f e = (==_iff r.event.session_id k).0 (ground arith)

  module _ (masks : AreMasks flags) (back : ReadsBack formats) (rereads : Rereads serde)
      (writes : WritesValues serde write_value flags formats)
      (same : RereadsWire wire (MadeByServer serde write_value flags formats)) where
    interaction_frame-reads :
        (request_id : Text) (i : RoutedInteractionRequest)
        → IsConstructed formats (ProtocolMessage.interaction_request i.request)
        → (f : Frame) → interaction_frame serde write_value wire flags formats request_id i ≡ ok f
        → decode_server_message serde write_value flags formats wire f
          ≡ ok (interaction_message request_id i)
    unfolding interaction_frame
    interaction_frame-reads request_id i c f e =
        let context =
          NativeDeliveryContext.subscription_interaction request_id
            (native_route (interaction i.route)) in
        let message = ProtocolMessage.interaction_request i.request in
        let encoded : encoded_text serde write_value wire flags formats context message ≡ ok f =
          ground (arith, from_core_native (interaction i.route)) in
        encoded_text_back serde write_value wire flags formats masks back rereads writes same
          context message f tt c encoded

    event_frame-reads :
        (k : Uuid) (r : RoutedAgentEvent)
        → IsConstructed formats (ProtocolMessage.agent_event r.event)
        → (f : Frame) → event_frame serde write_value wire flags formats k r ≡ ok f
        → decode_server_message serde write_value flags formats wire f ≡ ok (event_message r)
    unfolding event_frame
    event_frame-reads k r c f e =
        let context = NativeDeliveryContext.live_event (native_route r.route) in
        let message = ProtocolMessage.agent_event r.event in
        let encoded : encoded_text serde write_value wire flags formats context message ≡ ok f =
          ground (arith, from_core_native r.route) in
        encoded_text_back serde write_value wire flags formats masks back rereads writes same
          context message f tt c encoded

    pub baseline_frames-AreRead :
        (request_id : Text) (b : ChannelSessionBaseline)
        → IsBaseline formats b
        → (fs : List Frame)
        → baseline_frames serde write_value wire flags formats request_id b ≡ ok fs
        → AreRead fs (baseline_messages request_id (some b))
    unfolding baseline_frames
    baseline_frames-AreRead request_id b c fs e =
        let context = NativeDeliveryContext.subscription_session request_id in
        let message = ProtocolMessage.agent_session b.session in
        let framed = interaction_frame serde write_value wire flags formats request_id in
        let (f, first, e1) =
          bind-ok (encoded_text serde write_value wire flags formats context message) _ fs e in
        let (rest, pending, e2) = bind-ok (try_map framed b.pending_interactions) _ fs e1 in
        let ends : f ∷ rest ≡ fs = ground arith in
        let opened =
          encoded_text_back serde write_value wire flags formats masks back rereads writes same
            context message f tt c.0 first in
        let asked =
          try_map-reads framed (decode_server_message serde write_value flags formats wire)
            (interaction_message request_id) _ (interaction_frame-reads request_id)
            b.pending_interactions c.1 rest pending in
        rw (← ends, opened, asked) refl

    frames_of_baseline-AreRead :
        (request_id : Text) (o : Option ChannelSessionBaseline)
        → IsBaselineIfSome formats o
        → (fs : List Frame)
        → frames_of_baseline serde write_value wire flags formats request_id o ≡ ok fs
        → AreRead fs (baseline_messages request_id o)
    frames_of_baseline-AreRead request_id none c fs e =
        let ends : [] ≡ fs = ground arith in rw (← ends) refl
    frames_of_baseline-AreRead request_id (some b) c fs e =
        baseline_frames-AreRead request_id b c fs e

    pub sync_frames-AreRead :
        (p : PendingSubscription) (sync : ChannelSessionSync)
        → IsMade formats (deliver_session_sync sync)
        → (fs : List Frame) → sync_frames serde write_value wire flags formats p sync ≡ ok fs
        → AreRead fs (sync_messages p.request_id sync)
          × All (λ r. r.event.session_id ≡ p.session_id) sync.events
    unfolding sync_frames
    sync_frames-AreRead p sync c fs e =
        let decode = decode_server_message serde write_value flags formats wire in
        let framed = event_frame serde write_value wire flags formats p.session_id in
        let (events, first, e1) = bind-ok (try_map framed sync.events) _ fs e in
        let (rest, last, e2) =
          bind-ok
            (frames_of_baseline serde write_value wire flags formats p.request_id sync.baseline) _
            fs e1 in
        let ends : events ++ rest ≡ fs = ground arith in
        let told =
          try_map-reads framed decode event_message _ (event_frame-reads p.session_id) sync.events
            c.0 events first in
        let closed = frames_of_baseline-AreRead p.request_id sync.baseline c.1 rest last in
        let both =
          map-append decode events rest
          ∙ ap (λ xs. xs ++ map decode rest) told
          ∙ ap (λ xs. map ok (map event_message sync.events) ++ xs) closed
          ∙ sym (
              map-append ok (map event_message sync.events)
                (baseline_messages p.request_id sync.baseline)) in
        (
          subst (λ xs. AreRead xs (sync_messages p.request_id sync)) ends both,
          try_map-sources framed _ (event_frame-session p.session_id) sync.events events first,
        )
