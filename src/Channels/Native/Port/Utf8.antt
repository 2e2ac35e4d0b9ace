-- ===== src/Channels/Native/Port/Utf8.antt =====
-- Rust's `String::from_utf8`, which agentpulse-channels/native/src/port.rs applies to a frame: which
-- bytes are UTF-8.
use agentpulse_rs.Common.{
  ℕ, zero, suc, Bool, true, false, ◌&&◌, [], ◌∷◌, leb, ltb, ◌==◌, if◌then◌else◌,
}
use agentpulse_rs.Protocol.Codec.{Bytes}

-- How a character goes on after its first byte: in how many bytes, the next one within bounds.
pub record Lead : Type 0 where
  pub valid : Bool
  pub more : ℕ
  pub lowest : ℕ
  pub highest : ℕ

abbrev goes_on : ℕ → ℕ → ℕ → Lead
goes_on more lowest highest = record {
  valid = true;
  more = more;
  lowest = lowest;
  highest = highest;
}

-- No overlong form, no surrogate and nothing above U+10FFFF.
unfoldable pub lead : ℕ → Lead
lead b =
    if ltb b 0x80
    then goes_on 0 0x80 0xbf
    else if leb 0xc2 b && leb b 0xdf
    then goes_on 1 0x80 0xbf
    else if b == 0xe0
    then goes_on 2 0xa0 0xbf
    else if b == 0xed
    then goes_on 2 0x80 0x9f
    else if leb 0xe1 b && leb b 0xef
    then goes_on 2 0x80 0xbf
    else if b == 0xf0
    then goes_on 3 0x90 0xbf
    else if leb 0xf1 b && leb b 0xf3
    then goes_on 3 0x80 0xbf
    else if b == 0xf4
    then goes_on 3 0x80 0x8f
    else record { valid = false; more = 0; lowest = 0; highest = 0 }

unfoldable pub utf8_from : ℕ → ℕ → ℕ → Bytes → Bool
unfolding lead
utf8_from zero low high [] = true
utf8_from zero low high (b ∷ s) = let l = lead b in l.valid && utf8_from l.more l.lowest l.highest s
utf8_from (suc more) low high [] = false
utf8_from (suc more) low high (b ∷ s) = leb low b && leb b high && utf8_from more 0x80 0xbf s

unfoldable pub is_utf8 : Bytes → Bool
unfolding utf8_from
is_utf8 s = utf8_from 0 0x80 0xbf s
