-- ===== src/Transactions.antt =====
-- apps/mcp-server/src/transactions.ts: previewed plans, confirmation tokens and their commits.
-- Clock readings, random ids and what the bridge answers are arguments; each operation returns the
-- manager afterwards, also where it throws. No other tool call runs between the parts of one call.
-- Plans are opaque JSON, kept as their texts.
pub mod Tokens
pub mod Preview
pub mod Commit
pub mod LoadTokens
pub mod Safety
pub mod Cycle
pub mod Accept
pub mod SingleUse
pub mod Samples
mod Tests
use Prim.Native.Char.{code}
use Prim.Native.String
use vcv_rack_mcp.Prelude.{
  ℕ, ◌+◌, ◌≡◌, String, Bool, true, false, not, List, [], ◌∷◌, ◌&&◌, ◌||◌, Option, none, some, ltb,
  ◌==◌, filter, length, str_eq, lookup, insert, delete, if◌then◌else◌, is_some,
}
use vcv_rack_mcp.Errors.{
  Thrown, tool_error, other, retryable, Result, ok, throw, ◌>>=◌, ◌>>◌, guard,
  confirmation_required, confirmation_expired, transaction_too_large, stale_patch_epoch,
  patch_conflict, stale_session,
}
use vcv_rack_mcp.Operations.{Json, PatchOperation, is_add_module, is_set_parameter}
use vcv_rack_mcp.RateLimiter.{RateLimiter}
use vcv_rack_mcp.Connection.{SelectedInstance}

pub record CachedPlan : Type 0 where
  pub plan : Json
  pub base_fingerprint : String
  pub param_changes : ℕ
  pub patch_epoch : ℕ
  pub risk_level : String
  pub confirmation_required : Bool
  pub instance_id : String
  pub session_id : String
  pub expires_at : ℕ

pub record TokenBinding : Type 0 where
  pub instance_id : String
  pub session_id : String
  pub patch_epoch : ℕ
  pub base_fingerprint : String
  pub plan_hash : String
  pub risk_level : String
  pub expires_at : ℕ

pub data LoadKind : Type 0 where
  load clear restore : LoadKind

-- What a load token binds, without its expiry.
pub record LoadTokenBinding : Type 0 where
  pub instance_id : String
  pub session_id : String
  pub kind : LoadKind
  pub path : Option String
  pub patch_epoch : ℕ
  pub fingerprint : String

pub record LoadBinding : Type 0 where
  pub binding : LoadTokenBinding
  pub expires_at : ℕ

pub record TransactionManager : Type 0 where
  pub plans : List (String × CachedPlan)
  pub load_bindings : List (String × LoadBinding)
  pub limiter : RateLimiter

abbrev pub has_dot : String → Bool
has_dot String.[] = false
has_dot (String.◌∷◌ c s) = code c == b'.' || has_dot s

-- The text before the first dot and the text behind it; `none` where `indexOf(".")` is negative.
unfoldable pub split_dot : String → Option (String × String)
split_dot String.[] = none
split_dot (String.◌∷◌ c s) =
    if code c == b'.'
    then some (String.[], s)
    else elim (split_dot s) [ none ↦ none | some (a, b) ↦ some (String.◌∷◌ c a, b) ]

-- Node's HMAC-SHA256 under the manager's key, in base64url, and the base64url JSON of a binding.
-- Base64url has no dot, and a binding survives its JSON; what is no JSON does not decode.
pub record Signer : Type 0 where
  pub hmac : String → String
  pub encode : TokenBinding → String
  pub decode : String → Option TokenBinding
  pub encode_dotless : (b : TokenBinding) → has_dot (encode b) ≡ false
  pub decode-encode : (b : TokenBinding) → decode (encode b) ≡ some b

-- `${body}.${mac}`
unfoldable pub join_dot : String → String → String
join_dot body mac = String.◌++◌ body (String.◌++◌ "." mac)

abbrev pub confirmation_lifetime_ms : ℕ
confirmation_lifetime_ms = 300_000

abbrev pub txn_max_added_modules : ℕ
txn_max_added_modules = 32

-- `JSON.parse`, whose SyntaxError is none of the program's own errors.
abbrev pub parsed : Option TokenBinding → Result TokenBinding
parsed none = throw other
parsed (some binding) = ok binding

module _ (s : Signer) where
  unfoldable pub mint_token : TokenBinding → String
  unfolding join_dot
  mint_token b = let body = s.encode b in join_dot body (s.hmac body)

  -- The part before the dot, where the part behind it is its HMAC.
  unfoldable pub authenticate : String → Result String
  unfolding split_dot
  authenticate token = elim (split_dot token) [
    | none ↦ throw (tool_error confirmation_required)
    | some (body, mac) ↦
        if str_eq mac (s.hmac body) then ok body else throw (tool_error confirmation_required)
  ]

  unfoldable pub verify_token : ℕ → String → Result TokenBinding
  unfolding authenticate
  verify_token now token = do
    body ← authenticate token
    binding ← parsed (s.decode body)
    guard (not (ltb binding.expires_at now)) confirmation_expired
    ok binding
