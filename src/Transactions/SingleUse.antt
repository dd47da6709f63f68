-- ===== src/Transactions/SingleUse.antt =====
-- transactions.ts: a load, clear or restore token authorises one operation.
use vcv_rack_mcp.Prelude.{
  ℕ, ◌+◌, ◌≤◌, ◌≡◌, inl, inr, String, false, none, lookup, delete, lookup-insert_self,
  lookup-delete_self, arith, Option-cases,
}
use vcv_rack_mcp.Errors.{ok, throw, Result-cases, tool_error, confirmation_expired}
use vcv_rack_mcp.Transactions.{
  TransactionManager, LoadBinding, LoadTokenBinding, Signer, authenticate, has_dot,
}
use vcv_rack_mcp.Transactions.Tokens.{authenticate-join_dot}
use vcv_rack_mcp.Transactions.LoadTokens.{
  mint_load_token, lookup_load_token, verify_load_token, consume_load_token, prune_loads,
}

-- Where the id of a token is not held, the token is expired.
lookup_unheld :
    (s : Signer) (now : ℕ) (token id : String) (m : TransactionManager)
    → authenticate s token ≡ ok id
    → lookup id m.load_bindings ≡ none
    → lookup_load_token s now token m ≡ (m, throw (tool_error confirmation_expired))
unfolding lookup_load_token
lookup_unheld s now token id m passed missing = ground arith

-- A successful look-up leaves the manager as it is and comes from an authentic id that is held.
lookup_found :
    (s : Signer) (now : ℕ) (token : String) (m : TransactionManager) (id : String)
    (b : LoadTokenBinding)
    → (lookup_load_token s now token m).1 ≡ ok (id, b)
    → (authenticate s token ≡ ok id) × ((lookup_load_token s now token m).0 ≡ m)
unfolding lookup_load_token
lookup_found s now token m id b e = elim (Result-cases (authenticate s token)) [
  | inl (f, refused) ↦ absurd (ground arith)
  | inr (i, passed) ↦ elim (Option-cases (lookup i m.load_bindings)) [
    | inl missing ↦ absurd (ground arith)
    | inr (held, found) ↦ (ground arith, ground arith)
  ]
]

-- Once a token has been consumed, verifying or consuming it again, at whatever time, throws
-- CONFIRMATION_EXPIRED.
pub consume_once :
    (s : Signer) (now later : ℕ) (token : String) (m : TransactionManager) (b : LoadTokenBinding)
    → (consume_load_token s now token m).1 ≡ ok b
    → let after = (consume_load_token s now token m).0 in
      ((verify_load_token s later token after).1 ≡ throw (tool_error confirmation_expired))
      × ((consume_load_token s later token after).1 ≡ throw (tool_error confirmation_expired))
unfolding consume_load_token verify_load_token
consume_once s now later token m b e = elim (Result-cases (lookup_load_token s now token m).1) [
  | inl (f, refused) ↦ absurd (ground arith)
  | inr ((id, b'), found) ↦
      let (passed, same) = lookup_found s now token m id b' found in
      let n = record m { load_bindings = delete id m.load_bindings } in
      let gone = lookup_unheld s later token id n passed (lookup-delete_self id m.load_bindings) in
      ground arith
]

-- A token that has been minted for an id without a dot verifies and is consumed as its own binding
-- for five minutes, and verifying it changes nothing.
pub consume-mint :
    (s : Signer) (now at : ℕ) (id : String) (b : LoadTokenBinding) (m : TransactionManager)
    → has_dot id ≡ false
    → at ≤ now + 300_000
    → let (after, token) = mint_load_token s now id b m in
      (verify_load_token s at token after ≡ (after, ok b))
      × ((consume_load_token s at token after).1 ≡ ok b)
unfolding consume_load_token verify_load_token mint_load_token lookup_load_token
consume-mint s now at id b m dotless fresh =
    let held : LoadBinding = record { binding = b; expires_at = now + 300_000 } in
    ground (
      arith,
      authenticate-join_dot s id dotless,
      lookup-insert_self id held (prune_loads now m.load_bindings),
    )
