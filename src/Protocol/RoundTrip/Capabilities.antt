-- ===== src/Protocol/RoundTrip/Capabilities.antt =====
-- Sets of capabilities are read back as they were written.
use agentpulse_rs.Common.{
  ℕ, zero, suc, ◌≡◌, ◌<◌, refl, ap, ◌∙◌, Bool, true, ◌&&◌, List, [], ◌∷◌, map, ok, arith, bit_and,
  bit_or, ◌==◌, ==_iff, if◌then◌else◌,
}
use agentpulse_rs.Domain.Capability.{Flags}
use agentpulse_rs.Domain.Unique.{member, IsFresh}
use agentpulse_rs.Protocol.Error.{ProtocolError}
use agentpulse_rs.Protocol.Convert.Capabilities.{
  provider_bit, channel_bit, known_provider, known_channel, encode_known, collect_capabilities,
  encode_provider_capabilities, decode_provider_capabilities, encode_channel_capabilities,
  decode_channel_capabilities,
}

-- What the bitflags crate documents: sets are masks of bits.
pub record AreMasks (flags : Flags) : Type 0 where
  pub contains_mask : (a b : ℕ) → flags.contains a b ≡ (bit_and a b == b)
  pub union_mask : (a b : ℕ) → flags.union a b ≡ bit_or a b

module _ {ℓ} {D : Type ℓ} (bit : D → ℕ) where
  -- The union of the sets that the names stand for, if the value contains them.
  join : ℕ → ℕ → List D → ℕ
  join value acc [] = acc
  join value acc (d ∷ ds) =
      join value (if bit_and value (bit d) == bit d then bit_or acc (bit d) else acc) ds

  module _ (flags : Flags) (masks : AreMasks flags) (duplicate : D → ProtocolError) where
    -- Names that differ are collected without an error.
    collect-encode_known :
        (value : ℕ) (seen : List ℕ) (acc : ℕ) (ds : List D)
        → IsFresh seen (map bit ds)
        → (seen' : List ℕ) → ((k : ℕ) → member k seen' ≡ true → member k seen ≡ true)
        → collect_capabilities flags bit duplicate seen' acc (encode_known flags bit value ds)
          ≡ ok (join value acc ds)
    unfolding collect_capabilities encode_known join
    collect-encode_known value seen acc [] fresh seen' sub = refl
    collect-encode_known value seen acc (d ∷ ds) fresh seen' sub =
        let skip =
          collect-encode_known value (bit d ∷ seen) acc ds fresh.1 seen'
            (λ k h. ground (arith, sub k h)) in
        let keep =
          collect-encode_known value (bit d ∷ seen) (bit_or acc (bit d)) ds fresh.1 (bit d ∷ seen')
            (λ k h. ground (arith, sub k)) in
        ground (
          arith,
          masks.contains_mask value (bit d),
          masks.union_mask acc (bit d),
          sub (bit d),
          skip,
          keep,
        )

-- The test succeeds at every set of the declared bits.
unfoldable pub passes_below : (ℕ → Bool) → ℕ → Bool
passes_below test zero = true
passes_below test (suc bound) = passes_below test bound && test bound

pub passes-at :
    (test : ℕ → Bool) (bound set : ℕ)
    → set < bound
    → passes_below test bound ≡ true
    → test set ≡ true
unfolding passes_below
passes-at test zero set within passed = elim within [ ]
passes-at test (suc bound) set within passed = ground (arith, passes-at test bound set)

provider_table : passes_below (λ v. join provider_bit v 0 known_provider == v) 2048 ≡ true
unfolding passes_below join provider_bit
provider_table = refl

channel_table : passes_below (λ v. join channel_bit v 0 known_channel == v) 4096 ≡ true
unfolding passes_below join channel_bit
channel_table = refl

known_provider-IsFresh : IsFresh [] (map provider_bit known_provider)
unfolding provider_bit
known_provider-IsFresh =
    (refl, (refl, (refl, (refl, (refl, (refl, (refl, (refl, (refl, (refl, (refl, tt)))))))))))

known_channel-IsFresh : IsFresh [] (map channel_bit known_channel)
unfolding channel_bit
known_channel-IsFresh = (
  refl,
  (refl, (refl, (refl, (refl, (refl, (refl, (refl, (refl, (refl, (refl, (refl, tt))))))))))),
)

module _ (flags : Flags) (masks : AreMasks flags) where
  pub provider_capabilities_back :
      (v : ℕ)
      → v < 2048
      → decode_provider_capabilities flags (encode_provider_capabilities flags v) ≡ ok v
  unfolding decode_provider_capabilities encode_provider_capabilities
  provider_capabilities_back v h =
      collect-encode_known provider_bit flags masks _ v [] 0 known_provider known_provider-IsFresh
        [] (λ k m. m)
      ∙ ap ok ((==_iff _ v).0 (passes-at _ 2048 v h provider_table))

  pub channel_capabilities_back :
      (v : ℕ)
      → v < 4096
      → decode_channel_capabilities flags (encode_channel_capabilities flags v) ≡ ok v
  unfolding decode_channel_capabilities encode_channel_capabilities
  channel_capabilities_back v h =
      collect-encode_known channel_bit flags masks _ v [] 0 known_channel known_channel-IsFresh []
        (λ k m. m)
      ∙ ap ok ((==_iff _ v).0 (passes-at _ 4096 v h channel_table))
