-- ===== src/Framing/Tests.antt =====
-- The framing theorems at concrete streams, under a coder for texts of bytes.
use vcv_rack_mcp.Prelude.{ℕ, ◌≡◌, refl, true, false, List, [], ◌∷◌, arith}
use vcv_rack_mcp.Framing.{Utf8, FrameDecoder, new_decoder, drain, receive, encode_frame}
use vcv_rack_mcp.Framing.Stream.{receive-wire, wire}
use vcv_rack_mcp.Framing.Bounds.{oversized_length, IsValid, receive_bounded}

-- Texts are given by their bytes.
abbrev bytes : Utf8
bytes = record {
  Text = List ℕ;
  encode = λ t. t;
  decode = λ t. t;
  IsWellFormed = λ t. Unit;
  decode-encode = λ t h. refl;
}

-- Two messages, cut inside the first header and inside the second body.
abbrev parts : List (List ℕ)
parts = (0 ∷ 0 ∷ []) ∷ (0 ∷ 2 ∷ 104 ∷ 105 ∷ 0 ∷ 0 ∷ 0 ∷ 1 ∷ []) ∷ (33 ∷ []) ∷ []

receive-wire_example :
    let r = receive bytes (new_decoder 16) parts in
    (r.1 ≡ (104 ∷ 105 ∷ []) ∷ (33 ∷ []) ∷ []) × (r.0.failed ≡ false) × (r.0.buffered ≡ 0)
unfolding wire encode_frame
receive-wire_example =
    receive-wire bytes 16 ((104 ∷ 105 ∷ []) ∷ (33 ∷ []) ∷ []) parts (omega arith) (tt, (tt, tt))
      (omega arith) refl

abbrev long : FrameDecoder
long = record {
  max_frame_bytes = 16;
  chunks = (0 ∷ 0 ∷ 0 ∷ 17 ∷ []) ∷ [];
  buffered = 4;
  failed = false;
}

oversized_length_example :
    (d' : FrameDecoder) × (drain bytes 1 long ≡ (d', []))
    × (d'.failed ≡ true)
    × (receive bytes d' parts ≡ (d', []))
oversized_length_example = oversized_length bytes long 0 parts refl (omega arith) (omega arith)

receive_bounded_example : IsValid (receive bytes (new_decoder 16) parts).0
receive_bounded_example = receive_bounded bytes 16 parts
