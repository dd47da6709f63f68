-- ===== src/Framing/Stream.antt =====
-- framing.ts with the receive loop of client.ts, over a stream that arrives in arbitrary chunks.
use vcv_rack_mcp.Prelude.{
  ℕ, zero, suc, ◌+◌, ◌*◌, ◌^◌, ◌≤◌, ◌<◌, ◌≡◌, refl, sym, ap, ◌∙◌, inl, inr, ◌⊎◌, true, false, List,
  [], ◌∷◌, ◌++◌, Option, none, some, leb, ltb, take, drop, length, concat, All, arith,
  length-append, take-append, drop-append, append_split, concat-append, Bool-cases, subst,
  All-right, Option-cases,
}
use mathlib.Core.List.{append_assoc, append-nil}
use vcv_rack_mcp.Framing.{
  Utf8, write_u32be, read_u32be, FrameDecoder, new_decoder, push, leftover, encode_frame, next,
  drain, receive,
}

module _ (u : Utf8) where
  -- The bytes of a sequence of messages, if each of them can be sent.
  unfoldable pub wire : ℕ → List u.Text → Option (List ℕ)
  wire limit [] = some []
  wire limit (t ∷ ts) = elim (encode_frame u limit t) [
    | none ↦ none
    | some frame ↦ elim (wire limit ts) [ none ↦ none | some bytes ↦ some (frame ++ bytes) ]
  ]

receive_more :
    (u : Utf8) (d d' : FrameDecoder) (c : List ℕ) (cs : List (List ℕ))
    → push d c ≡ (d', true)
    → receive u d (c ∷ cs)
      ≡ (let r = drain u (suc d'.buffered) d' in let q = receive u r.0 cs in (q.0, r.1 ++ q.1))
unfolding receive
receive_more u d d' c cs e = rw (e, receive)

read-write : (n : ℕ) (rest : List ℕ) → n < 2 ^ 32 → read_u32be (write_u32be n ++ rest) ≡ n
read-write n rest h = omega arith

pub concat-leftover : (bs : List ℕ) → concat (leftover bs) ≡ bs
concat-leftover [] = refl
concat-leftover (b ∷ bs) = append-nil (b ∷ bs)

next_few : (u : Utf8) (d : FrameDecoder) → d.buffered < 4 → next u d ≡ (d, none)
unfolding next
next_few u d h = ground arith

module _ (u : Utf8) where
  drain_stop :
      (fuel : ℕ) (d d' : FrameDecoder) → next u d ≡ (d', none) → drain u (suc fuel) d ≡ (d', [])
  unfolding drain
  drain_stop fuel d d' e = ground arith

  drain_more :
      (fuel : ℕ) (d d' : FrameDecoder) (t : u.Text)
      → next u d ≡ (d', some t)
      → drain u (suc fuel) d ≡ ((drain u fuel d').0, t ∷ (drain u fuel d').1)
  unfolding drain
  drain_more fuel d d' t e = ground arith

-- A decoder that has not failed and holds the bytes `bs`.
record Holds (limit : ℕ) (bs : List ℕ) (d : FrameDecoder) : Type 0 where
  alive : d.failed ≡ false
  bound : d.max_frame_bytes ≡ limit
  content : concat d.chunks ≡ bs
  count : d.buffered ≡ length bs

module _ (u : Utf8) (limit : ℕ) where
  abbrev frame : u.Text → List ℕ
  frame t = write_u32be (length (u.encode t)) ++ u.encode t

  abbrev Sendable : u.Text → Type 0
  Sendable t = u.IsWellFormed t × (length (u.encode t) ≤ limit) × (length (u.encode t) < 2 ^ 32)

  drop-header : (n k : ℕ) (bs : List ℕ) → drop (4 + k) (write_u32be n ++ bs) ≡ drop k bs
  drop-header n k bs = let e : 4 + k ≡ suc (suc (suc (suc k))) = omega arith in rw e

  next_complete :
      (d : FrameDecoder) (t : u.Text) (rest : List ℕ)
      → Sendable t
      → Holds limit (frame t ++ rest) d
      → (d' : FrameDecoder) × (next u d ≡ (d', some t)) × Holds limit rest d'
  unfolding next
  next_complete d t rest (well, fits, small) v =
      let body = u.encode t in
      let n = length body in
      let joined : concat d.chunks ≡ write_u32be n ++ (body ++ rest) = v.content in
      let size = length-append body rest in
      let head : read_u32be (concat d.chunks) ≡ n = rw joined (read-write n (body ++ rest) small) in
      let enough : ltb d.buffered 4 ≡ false = ground arith in
      let within : ltb d.max_frame_bytes n ≡ false = ground arith in
      let total : ltb (length (concat d.chunks)) (4 + n) ≡ false = rw joined (ground arith) in
      let after : drop (4 + n) (concat d.chunks) ≡ rest =
        rw (joined, drop-header n n (body ++ rest)) (drop-append body rest) in
      let text : u.decode (take n (drop 4 (concat d.chunks))) ≡ t =
        rw (joined, take-append body rest) (u.decode-encode t well) in
      (
        record d { chunks = leftover rest; buffered = length rest },
        rw (v.alive, enough, head, within, total, after, text) refl,
        record { alive = v.alive; bound = v.bound; content = concat-leftover rest; count = refl },
      )

  next_incomplete :
      (d : FrameDecoder) (t : u.Text) (bs future more : List ℕ)
      → Sendable t
      → Holds limit bs d
      → bs ++ future ≡ frame t ++ more
      → length bs < length (frame t)
      → (d' : FrameDecoder) × (next u d ≡ (d', none)) × Holds limit bs d'
  unfolding next
  next_incomplete d t bs future more (well, fits, small) v e short =
      elim (Bool-cases (ltb d.buffered 4)) [
        | inl few ↦ (d, rw (v.alive, few) refl, v)
        | inr enough ↦
            let body = u.encode t in
            let n = length body in
            let (tail, split, _) =
              append_split bs future (write_u32be n) (body ++ more) e (ground arith) in
            let joined : concat d.chunks ≡ write_u32be n ++ tail = v.content ∙ split in
            let head : read_u32be (concat d.chunks) ≡ n = rw joined (read-write n tail small) in
            let within : ltb d.max_frame_bytes n ≡ false = ground arith in
            let partial : ltb (length (concat d.chunks)) (4 + n) ≡ true =
              rw v.content (ground arith) in
            (
              record d { chunks = concat d.chunks ∷ [] },
              rw (v.alive, enough, head, within, partial) refl,
              record {
                alive = v.alive;
                bound = v.bound;
                content = append-nil (concat d.chunks) ∙ v.content;
                count = v.count;
              },
            )
      ]

  abbrev stream : List u.Text → List ℕ
  stream [] = []
  stream (t ∷ ts) = frame t ++ stream ts

  -- What is left of a stream begins inside the next frame.
  abbrev StopsIn : List ℕ → List u.Text → Type 0
  StopsIn bs [] = Unit
  StopsIn bs (t ∷ ts) = length bs < length (frame t)

  record Drained (ts : List u.Text) (future : List ℕ) (r : FrameDecoder × List u.Text)
      : Type 0 where
    left : List u.Text
    rest : List ℕ
    order : ts ≡ r.1 ++ left
    held : Holds limit rest r.0
    ahead : rest ++ future ≡ stream left
    inside : StopsIn rest left

  drain-Drained :
      (fuel : ℕ) (ts : List u.Text) (d : FrameDecoder) (bs future : List ℕ)
      → All Sendable ts
      → Holds limit bs d
      → bs ++ future ≡ stream ts
      → length bs < fuel
      → Drained ts future (drain u fuel d)
  drain-Drained zero ts d bs future s v e lt = absurd (omega arith)
  drain-Drained (suc fuel) [] d bs future s v e lt =
      let empty : length bs ≡ 0 = omega (arith, length-append bs future, ap length e) in
      rw (drain_stop u fuel d d (next_few u d (ground arith)))
        (record { left = []; rest = bs; order = refl; held = v; ahead = e; inside = tt })
  drain-Drained (suc fuel) (t ∷ ts) d bs future (sendable, s) v e lt =
      elim (Bool-cases (ltb (length bs) (length (frame t)))) [
        | inl short ↦
            let (d', step, kept) =
              next_incomplete d t bs future (stream ts) sendable v e (ground arith) in
            rw (drain_stop u fuel d d' step) (record {
              left = t ∷ ts;
              rest = bs;
              order = refl;
              held = kept;
              ahead = e;
              inside = ground arith;
            })
        | inr long ↦
            let (ws, split, ahead) =
              append_split bs future (frame t) (stream ts) e (ground arith) in
            let (d', step, kept) =
              next_complete d t ws sendable (subst (λ x. Holds limit x d) split v) in
            let size = ap length split ∙ length-append (frame t) ws in
            rw (drain_more u fuel d d' t step)
              (Drained-cons t (drain-Drained fuel ts d' ws future s kept ahead (omega arith)))
      ]
    where
      Drained-cons :
          (t : u.Text) {ts : List u.Text} {future : List ℕ} {r : FrameDecoder × List u.Text}
          → Drained ts future r
          → Drained (t ∷ ts) future (r.0, t ∷ r.1)
      Drained-cons t v = record {
        left = v.left;
        rest = v.rest;
        order = ap (◌∷◌ t) v.order;
        held = v.held;
        ahead = v.ahead;
        inside = v.inside;
      }

  push-Holds :
      (d : FrameDecoder) (bs chunk : List ℕ)
      → Holds limit bs d
      → length bs + length chunk ≤ 2 * (limit + 4)
      → (d' : FrameDecoder) × (push d chunk ≡ (d', true)) × Holds limit (bs ++ chunk) d'
  unfolding push
  push-Holds d bs chunk v room =
      let fits : ltb (2 * (d.max_frame_bytes + 4)) (d.buffered + length chunk) ≡ false =
        ground arith in
      (
        record d { chunks = d.chunks ++ chunk ∷ []; buffered = d.buffered + length chunk },
        rw (v.alive, fits) refl,
        record {
          alive = v.alive;
          bound = v.bound;
          content = rw (concat-append d.chunks (chunk ∷ []), v.content, append-nil chunk) refl;
          count = omega (arith, v.count, length-append bs chunk);
        },
      )

  -- All messages have arrived, in order, and nothing is left over.
  abbrev Delivers : List u.Text → FrameDecoder × List u.Text → Type 0
  Delivers ts r = (r.1 ≡ ts) × Holds limit [] r.0

  rest_small :
      (left : List u.Text) (rest future : List ℕ)
      → All Sendable left
      → StopsIn rest left
      → rest ++ future ≡ stream left
      → length rest ≤ limit + 4
  rest_small [] rest future s i e = omega (arith, ap length e, length-append rest future)
  rest_small (t ∷ left) rest future ((_, fits, _), s) i e = omega arith

  receive-Delivers :
      (cs : List (List ℕ)) (ts : List u.Text) (d : FrameDecoder) (bs : List ℕ)
      → All Sendable ts
      → All (λ c. length c ≤ limit + 4) cs
      → Holds limit bs d
      → StopsIn bs ts
      → bs ++ concat cs ≡ stream ts
      → Delivers ts (receive u d cs)
  unfolding receive
  receive-Delivers [] [] d bs s f v i e =
      (refl, subst (λ x. Holds limit x d) (sym (append-nil bs) ∙ e) v)
  receive-Delivers [] (t ∷ ts) d bs s f v i e =
      absurd
        (omega (arith, ap length (sym (append-nil bs) ∙ e), length-append (frame t) (stream ts)))
  receive-Delivers (c ∷ cs) ts d bs s (fc, f) v i e =
      let (d', pushed, held) =
        push-Holds d bs c v (omega (arith, rest_small ts bs (concat (c ∷ cs)) s i e)) in
      let r =
        drain-Drained (suc d'.buffered) ts d' (bs ++ c) (concat cs) s held
          (append_assoc bs c (concat cs) ∙ e) (omega (arith, held.count)) in
      let later = All-right Sendable (drain u (suc d'.buffered) d').1 r.left (rw r.order at s) in
      let (got, ended) =
        receive-Delivers cs r.left (drain u (suc d'.buffered) d').0 r.rest later f r.held r.inside
          r.ahead in
      rw (receive_more u d d' c cs pushed)
        (ap (◌++◌ (drain u (suc d'.buffered) d').1) got ∙ sym r.order, ended)

  encode_frame_fits :
      (t : u.Text)
      → limit < 2 ^ 32
      → (length (u.encode t) ≤ limit) ⊎ (encode_frame u limit t ≡ none)
  unfolding encode_frame
  encode_frame_fits t small = elim (Bool-cases (ltb limit (length (u.encode t)))) [
    | inl over ↦ inr (ground arith)
    | inr fits ↦ inl (ground arith)
  ]

  encode_frame_lem :
      (t : u.Text)
      → limit < 2 ^ 32
      → length (u.encode t) ≤ limit
      → encode_frame u limit t ≡ some (frame t)
  unfolding encode_frame
  encode_frame_lem t small fits =
      let under : ltb limit (length (u.encode t)) ≡ false = ground arith in
      let short : leb (2 ^ 32) (length (u.encode t)) ≡ false = ground arith in
      rw (under, short) refl

  wire-stream :
      (ts : List u.Text) (bytes : List ℕ)
      → limit < 2 ^ 32
      → All u.IsWellFormed ts
      → wire u limit ts ≡ some bytes
      → All Sendable ts × (bytes ≡ stream ts)
  unfolding wire
  wire-stream [] bytes small w e = (tt, cc)
  wire-stream (t ∷ ts) bytes small (well, w) e = elim (encode_frame_fits t small) [
    | inr refused ↦ absurd (cc (rw (refused, wire) at e))
    | inl fits ↦ elim (Option-cases (wire u limit ts)) [
      | inl unsent ↦ ground (arith, encode_frame_lem t small fits)
      | inr (tail, sent) ↦
          let (s, same) = wire-stream ts tail small w sent in
          (((well, fits, omega arith), s), ground (arith, encode_frame_lem t small fits))
    ]
  ]

-- Whatever the coder and however the stream is cut: if `encode_frame` accepts each of some
-- well-formed messages under a limit below 2^32, and their frames arrive one after another in chunks
-- of at most limit + 4 bytes, then a fresh decoder with that limit, drained after each chunk, yields
-- exactly these messages in order, does not fail, and has nothing buffered at the end.
pub receive-wire :
    (u : Utf8) (limit : ℕ) (ts : List u.Text) (chunks : List (List ℕ))
    → limit < 2 ^ 32
    → All u.IsWellFormed ts
    → All (λ c. length c ≤ limit + 4) chunks
    → wire u limit ts ≡ some (concat chunks)
    → let r = receive u (new_decoder limit) chunks in
      (r.1 ≡ ts) × (r.0.failed ≡ false) × (r.0.buffered ≡ 0)
receive-wire u limit ts chunks small well sizes sent =
    let (sendable, same) = wire-stream u limit ts (concat chunks) small well sent in
    let (order, held) =
      receive-Delivers u limit chunks ts (new_decoder limit) [] sendable sizes
        (record { alive = refl; bound = refl; content = refl; count = refl }) (begins ts) same in
    (order, held.alive, held.count)
  where
    begins : (ts : List u.Text) → StopsIn u limit [] ts
    begins [] = tt
    begins (t ∷ ts) = omega arith
