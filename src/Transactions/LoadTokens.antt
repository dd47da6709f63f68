-- ===== src/Transactions/LoadTokens.antt =====
-- transactions.ts, the single-use tokens of load, clear and restore.
use vcv_rack_mcp.Prelude.{
  ℕ, ◌+◌, String, List, [], ◌∷◌, none, some, ltb, lookup, insert, delete, if◌then◌else◌,
}
use vcv_rack_mcp.Errors.{tool_error, Result, ok, throw, confirmation_expired}
use vcv_rack_mcp.Transactions.{
  TransactionManager, LoadBinding, LoadTokenBinding, Signer, authenticate, join_dot,
  confirmation_lifetime_ms,
}

-- The loop of `mintLoadToken` over the bindings.
unfoldable pub prune_loads : ℕ → List (String × LoadBinding) → List (String × LoadBinding)
prune_loads now [] = []
prune_loads now ((k, v) ∷ m) =
    if ltb v.expires_at now then prune_loads now m else (k, v) ∷ prune_loads now m

-- `id` is the fresh random id.
unfoldable pub mint_load_token :
    Signer → ℕ → String → LoadTokenBinding → TransactionManager → TransactionManager × String
mint_load_token s now id b m =
    let held : LoadBinding = record { binding = b; expires_at = now + confirmation_lifetime_ms } in
    (
      record m { load_bindings = insert id held (prune_loads now m.load_bindings) },
      join_dot id (s.hmac id),
    )

unfoldable pub lookup_load_token :
    Signer
    → ℕ
    → String
    → TransactionManager
    → TransactionManager × Result (String × LoadTokenBinding)
lookup_load_token s now token m = elim (authenticate s token) [
  | throw e ↦ (m, throw e)
  | ok id ↦ elim (lookup id m.load_bindings) [
    | none ↦ (m, throw (tool_error confirmation_expired))
    | some held ↦
        if ltb held.expires_at now
        then (
          record m { load_bindings = delete id m.load_bindings },
          throw (tool_error confirmation_expired),
        )
        else (m, ok (id, held.binding))
  ]
]

unfoldable pub verify_load_token :
    Signer → ℕ → String → TransactionManager → TransactionManager × Result LoadTokenBinding
verify_load_token s now token m =
    let (m', found) = lookup_load_token s now token m in
    elim found [ throw e ↦ (m', throw e) | ok (id, b) ↦ (m', ok b) ]

unfoldable pub consume_load_token :
    Signer → ℕ → String → TransactionManager → TransactionManager × Result LoadTokenBinding
consume_load_token s now token m =
    let (m', found) = lookup_load_token s now token m in
    elim found [
      | throw e ↦ (m', throw e)
      | ok (id, b) ↦ (record m' { load_bindings = delete id m'.load_bindings }, ok b)
    ]
