-- ===== src/Errors/Payload.antt =====
-- errors.ts: the payload that a client receives.
use vcv_rack_mcp.Prelude.{
  ◌-◌, ◌≤◌, ◌<◌, ◌≡◌, refl, ◌⊎◌, inl, inr, le→leb, ◌++◌, leb, take, length, arith, Bool-cases,
  length-append, length-take, false,
}
use vcv_rack_mcp.Errors.{
  Thrown, tool, bridge, other, Message, max_message, truncation_mark, clamp_message,
  to_error_payload,
}

clamp_message-length : (m : Message) → length (clamp_message m) ≤ max_message
unfolding clamp_message
clamp_message-length m = elim (Bool-cases (leb (length m) max_message)) [
  | inl short ↦ rw short (ground arith)
  | inr long ↦ rw long (
      omega (
        arith,
        length-append (take (max_message - length truncation_mark) m) truncation_mark,
        length-take (max_message - length truncation_mark) m,
      ))
]

clamp_message_short : (m : Message) → length m ≤ max_message → clamp_message m ≡ m
unfolding clamp_message
clamp_message_short m short = rw (le→leb _ _ short)

clamp_message_long :
    (m : Message)
    → max_message < length m
    → clamp_message m ≡ take (max_message - length truncation_mark) m ++ truncation_mark
unfolding clamp_message
clamp_message_long m long = let far : leb (length m) max_message ≡ false = ground arith in rw far

payload-message : (e : Thrown) (m : Message) → (to_error_payload e m).message ≡ clamp_message m
unfolding to_error_payload
payload-message (tool e) m = refl
payload-message (bridge e) m = refl
payload-message other m = refl

-- The message of a payload is never longer than 4096 units: a message up to that length is passed on
-- whole, and a longer one is its first 4081 units and the truncation mark.
pub to_error_payload_message :
    (e : Thrown) (m : Message)
    → let message = (to_error_payload e m).message in
      (length message ≤ 4096)
      × (((length m ≤ 4096) × (message ≡ m))
          ⊎ ((4096 < length m) × (message ≡ take 4081 m ++ truncation_mark)))
to_error_payload_message e m = rw (payload-message e m) (
  clamp_message-length m,
  elim (Bool-cases (leb (length m) 4096)) [
    | inl fits ↦
        let short : length m ≤ 4096 = ground (arith, fits) in
        inl (short, clamp_message_short m short)
    | inr exceeds ↦
        let long : 4096 < length m = ground (arith, exceeds) in
        inr (long, clamp_message_long m long)
  ],
)
