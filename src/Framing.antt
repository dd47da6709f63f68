-- ===== src/Framing.antt =====
-- packages/protocol/src/framing.ts: frames of a 4-byte big-endian length and UTF-8 text, and the
-- incremental decoder; with the loop of `onData` in client.ts that drains it.
-- Bytes are numbers below 256. Node's UTF-8 coder is the parameter `Utf8`.
pub mod Stream
pub mod Bounds
mod Tests
use vcv_rack_mcp.Prelude.{
  ℕ, zero, suc, ◌+◌, ◌*◌, ◌/◌, ◌%◌, ◌^◌, ◌≡◌, Bool, true, false, List, [], ◌∷◌, ◌++◌, Option, none,
  some, leb, ltb, take, drop, concat, length, ◌||◌, if◌then◌else◌,
}

-- `Buffer.from(s, "utf8")` and `toString("utf8")`. A string without lone surrogates survives.
pub record Utf8 : Type 1 where
  pub Text : Type 0
  pub encode : Text → List ℕ
  pub decode : List ℕ → Text
  pub IsWellFormed : Text → Type 0
  pub decode-encode : (t : Text) → IsWellFormed t → decode (encode t) ≡ t

-- `writeUInt32BE`, for a number that fits.
abbrev pub write_u32be : ℕ → List ℕ
write_u32be n = (n / 16777216) ∷ (n / 65536 % 256) ∷ (n / 256 % 256) ∷ (n % 256) ∷ []

-- `readUInt32BE(0)`; the decoder reads only where four bytes are buffered.
abbrev pub read_u32be : List ℕ → ℕ
read_u32be (a ∷ b ∷ c ∷ d ∷ rest) = a * 16777216 + b * 65536 + c * 256 + d
read_u32be _ = 0

pub record FrameDecoder : Type 0 where
  pub max_frame_bytes : ℕ
  pub chunks : List (List ℕ)
  pub buffered : ℕ
  pub failed : Bool

abbrev pub new_decoder : ℕ → FrameDecoder
new_decoder limit = record { max_frame_bytes = limit; chunks = []; buffered = 0; failed = false }

unfoldable pub push : FrameDecoder → List ℕ → FrameDecoder × Bool
push d chunk =
    if d.failed
    then (d, false)
    else if ltb (2 * (d.max_frame_bytes + 4)) (d.buffered + length chunk)
    then (record d { failed = true }, false)
    else (record d { chunks = d.chunks ++ chunk ∷ []; buffered = d.buffered + length chunk }, true)

-- `rest.length > 0 ? [Buffer.from(rest)] : []`.
abbrev pub leftover : List ℕ → List (List ℕ)
leftover [] = []
leftover (b ∷ bs) = (b ∷ bs) ∷ []

module _ (u : Utf8) where
  open u use {Text, encode, decode}

  -- `none` is the thrown "frame exceeds … bytes", or the RangeError of a length over 32 bits.
  unfoldable pub encode_frame : ℕ → Text → Option (List ℕ)
  encode_frame limit payload =
      let body = encode payload in
      if ltb limit (length body) || leb (2 ^ 32) (length body)
      then none
      else some (write_u32be (length body) ++ body)

  unfoldable pub next : FrameDecoder → FrameDecoder × Option Text
  next d =
      if d.failed || ltb d.buffered 4
      then (d, none)
      else let joined = concat d.chunks in
        let n = read_u32be joined in
        if ltb d.max_frame_bytes n
        then (record d { chunks = joined ∷ []; failed = true }, none)
        else if ltb (length joined) (4 + n)
        then (record d { chunks = joined ∷ [] }, none)
        else let rest = drop (4 + n) joined in
          (
            record d { chunks = leftover rest; buffered = length rest },
            some (decode (take n (drop 4 joined))),
          )

  -- `while ((frame = decoder.next()) !== null) …`, with fuel.
  unfoldable pub drain : ℕ → FrameDecoder → FrameDecoder × List Text
  drain zero d = (d, [])
  drain (suc fuel) d =
      let (d', frame) = next d in
      elim frame [
        | none ↦ (d', [])
        | some text ↦ let (d'', frames) = drain fuel d' in (d'', text ∷ frames)
      ]

  -- `onData` on each chunk of a connection, without what it does with a frame.
  unfoldable pub receive : FrameDecoder → List (List ℕ) → FrameDecoder × List Text
  receive d [] = (d, [])
  receive d (c ∷ cs) =
      let (d', ok) = push d c in
      let (d'', frames) = drain (suc d'.buffered) d' in
      let (end, later) = receive d'' cs in if ok then (end, frames ++ later) else (d', [])
