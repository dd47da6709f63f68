-- ===== src/Framing/Bounds.antt =====
-- framing.ts on arbitrary input: what the decoder holds, and how it fails.
use vcv_rack_mcp.Prelude.{
  ℕ, zero, suc, ◌+◌, ◌*◌, ◌≤◌, ◌<◌, ◌≡◌, refl, true, false, List, [], ◌∷◌, ◌++◌, ltb, length,
  concat, arith, length-append, length-drop, concat-append, drop, ap,
}
use mathlib.Core.List.{append-nil}
use vcv_rack_mcp.Framing.{Utf8, FrameDecoder, push, next, read_u32be, new_decoder, drain, receive}
use vcv_rack_mcp.Framing.Stream.{concat-leftover}

-- The counter is the number of bytes held, and that is at most two frames of the largest size.
pub record IsValid (d : FrameDecoder) : Type 0 where
  pub count : d.buffered ≡ length (concat d.chunks)
  pub bound : d.buffered ≤ 2 * (d.max_frame_bytes + 4)

push-IsValid : (d : FrameDecoder) (chunk : List ℕ) → IsValid d → IsValid (push d chunk).0
unfolding push
push-IsValid d chunk v = ground (
  arith,
  ap length (concat-append d.chunks (chunk ∷ [])),
  length-append (concat d.chunks) (chunk ++ []),
  length-append chunk [],
)

next-IsValid : (u : Utf8) (d : FrameDecoder) → IsValid d → IsValid (next u d).0
unfolding next
next-IsValid u d v = ground (
  arith,
  ap length (append-nil (concat d.chunks)),
  ap length (concat-leftover (drop (4 + read_u32be (concat d.chunks)) (concat d.chunks))),
  length-drop (4 + read_u32be (concat d.chunks)) (concat d.chunks),
)

failed_receive :
    (u : Utf8) (d : FrameDecoder) (cs : List (List ℕ)) → d.failed ≡ true → receive u d cs ≡ (d, [])
unfolding receive push
failed_receive u d [] h = refl
failed_receive u d (c ∷ cs) h = ground arith

-- Once a decoder holds a length beyond its limit, the loop that drains it ends at once with no frame
-- and the decoder failed, and from then on every chunk is refused and yields nothing.
pub oversized_length :
    (u : Utf8) (d : FrameDecoder) (fuel : ℕ) (cs : List (List ℕ))
    → d.failed ≡ false
    → 4 ≤ d.buffered
    → d.max_frame_bytes < read_u32be (concat d.chunks)
    → (d' : FrameDecoder) × (drain u (suc fuel) d ≡ (d', []))
      × (d'.failed ≡ true)
      × (receive u d' cs ≡ (d', []))
unfolding drain next
oversized_length u d fuel cs alive enough big =
    let broken = record d { chunks = concat d.chunks ∷ []; failed = true } in
    let few : ltb d.buffered 4 ≡ false = ground arith in
    let over : ltb d.max_frame_bytes (read_u32be (concat d.chunks)) ≡ true = ground arith in
    (broken, ground arith, refl, failed_receive u broken cs refl)

drain-IsValid : (u : Utf8) (fuel : ℕ) (d : FrameDecoder) → IsValid d → IsValid (drain u fuel d).0
unfolding drain
drain-IsValid u zero d v = v
drain-IsValid u (suc fuel) d v =
    ground (arith, next-IsValid u d v, drain-IsValid u fuel (next u d).0)

receive-IsValid :
    (u : Utf8) (d : FrameDecoder) (cs : List (List ℕ)) → IsValid d → IsValid (receive u d cs).0
unfolding receive
receive-IsValid u d [] v = v
receive-IsValid u d (c ∷ cs) v = ground (
  arith,
  push-IsValid d c v,
  drain-IsValid u (suc (push d c).0.buffered) (push d c).0,
  receive-IsValid u (drain u (suc (push d c).0.buffered) (push d c).0).0 cs,
)

-- Whatever bytes arrive in whatever chunks, a decoder's counter is the number of bytes that it holds,
-- and that is at most twice a frame of the largest size with its header.
pub receive_bounded :
    (u : Utf8) (limit : ℕ) (cs : List (List ℕ)) → IsValid (receive u (new_decoder limit) cs).0
receive_bounded u limit cs = receive-IsValid u (new_decoder limit) cs (omega arith)
