-- ===== src/Transactions/Tokens.antt =====
-- transactions.ts: what a confirmation token proves.
use Prim.Native.Char.{code}
use Prim.Native.String
use text.Mathlib.TextLemmas.{cons-append, nil-append}
use vcv_rack_mcp.Prelude.{
  ℕ, ◌≤◌, ◌≡◌, refl, ◌↔◌, String, false, none, some, ltb, ◌==◌, str_eq, if◌then◌else◌, arith,
  eq_iff, eq_refl, Option-cases, inl, inr,
}
use vcv_rack_mcp.Errors.{
  ok, throw, tool_error, confirmation_required, confirmation_expired, Result-cases,
}
use vcv_rack_mcp.Transactions.{
  TokenBinding, Signer, has_dot, split_dot, join_dot, mint_token, authenticate, verify_token,
}

pub split_dot-join_dot :
    (body mac : String) → has_dot body ≡ false → split_dot (join_dot body mac) ≡ some (body, mac)
unfolding split_dot join_dot
split_dot-join_dot String.[] mac h =
    rw (nil-append (String.◌++◌ "." mac), cons-append _ String.[] mac, nil-append mac) refl
split_dot-join_dot (String.◌∷◌ c s) mac h =
    let other : (code c == b'.') ≡ false = ground arith in
    let rest : has_dot s ≡ false = ground arith in
    let ih = split_dot-join_dot s mac rest in
    rw (cons-append c s (String.◌++◌ "." mac)) (ground (arith, ih))

module _ (s : Signer) where
  authenticate_whole :
      (token : String)
      → split_dot token ≡ none
      → authenticate s token ≡ throw (tool_error confirmation_required)
  unfolding authenticate
  authenticate_whole token whole = rw (whole, authenticate)

  authenticate_cut :
      (token body mac : String)
      → split_dot token ≡ some (body, mac)
      → authenticate s token
        ≡ (if str_eq mac (s.hmac body) then ok body else throw (tool_error confirmation_required))
  unfolding authenticate
  authenticate_cut token body mac cut = rw (cut, authenticate)

  -- What was joined with its own HMAC authenticates.
  pub authenticate-join_dot :
      (body : String)
      → has_dot body ≡ false
      → authenticate s (join_dot body (s.hmac body)) ≡ ok body
  authenticate-join_dot body dotless = ground (
    arith,
    authenticate_cut (join_dot body (s.hmac body)) body (s.hmac body)
        (split_dot-join_dot body (s.hmac body) dotless),
    eq_refl (s.hmac body),
  )

  -- A text authenticates as `body` exactly when it splits at its first dot into `body` and the HMAC
  -- of `body`.
  pub authenticate-eq-ok_iff :
      (token body : String)
      → (authenticate s token ≡ ok body) ↔ (split_dot token ≡ some (body, s.hmac body))
  authenticate-eq-ok_iff token body = elim (Option-cases (split_dot token)) [
    | inl whole ↦ ground (arith, authenticate_whole token whole)
    | inr ((a, mac), cut) ↦ ground (arith, authenticate_cut token a mac cut, eq_iff mac (s.hmac a))
  ]

-- A token is accepted as a binding exactly when it splits at its first dot into a body and the HMAC
-- of that body, the body decodes to the binding, and the binding has not expired.
pub verify_token-eq-ok_iff :
    (s : Signer) (now : ℕ) (token : String) (b : TokenBinding)
    → (verify_token s now token ≡ ok b) ↔ (
        (body : String) × (split_dot token ≡ some (body, s.hmac body))
        × (s.decode body ≡ some b)
        × (now ≤ b.expires_at))
unfolding verify_token
verify_token-eq-ok_iff s now token b = (to, from)
  where
    to :
        verify_token s now token ≡ ok b
        → (body : String) × (split_dot token ≡ some (body, s.hmac body))
          × (s.decode body ≡ some b)
          × (now ≤ b.expires_at)
    to e = elim (Result-cases (authenticate s token)) [
      | inl (f, refused) ↦ absurd (ground arith)
      | inr (body, passed) ↦ elim (Option-cases (s.decode body)) [
        | inl text ↦ absurd (ground (arith, passed, text, e))
        | inr (c, decoded) ↦ (
          body,
          (authenticate-eq-ok_iff s token body).0 passed,
          ground (arith, passed, decoded, e),
          ground (arith, passed, decoded, e),
        )
      ]
    ]

    from :
        ((body : String) × (split_dot token ≡ some (body, s.hmac body))
          × (s.decode body ≡ some b)
          × (now ≤ b.expires_at))
        → verify_token s now token ≡ ok b
    from (body, cut, decoded, fresh) = ground (arith, (authenticate-eq-ok_iff s token body).1 cut)

-- A minted token is accepted as its own binding up to the moment at which that expires, and refused
-- as expired after it.
pub verify_token-mint_token :
    (s : Signer) (now : ℕ) (b : TokenBinding)
    → verify_token s now (mint_token s b)
      ≡ (if ltb b.expires_at now then throw (tool_error confirmation_expired) else ok b)
unfolding verify_token mint_token
verify_token-mint_token s now b =
    ground (arith, authenticate-join_dot s (s.encode b) (s.encode_dotless b), s.decode-encode b)

pub verify_token-empty :
    (s : Signer) (now : ℕ) → verify_token s now "" ≡ throw (tool_error confirmation_required)
unfolding verify_token split_dot
verify_token-empty s now = refl
