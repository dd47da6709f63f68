-- ===== src/Transactions/Commit.antt =====
-- transactions.ts, `commit`: the guards, the rate limit, the request, and dropping the plan.
use vcv_rack_mcp.Prelude.{
  ℕ, String, Bool, List, [], ◌∷◌, ◌&&◌, Option, none, some, str_eq, lookup, delete, if◌then◌else◌,
}
use vcv_rack_mcp.Errors.{
  tool_error, retryable, Result, ok, throw, ◌>>=◌, ◌>>◌, guard, confirmation_required,
  confirmation_expired, patch_conflict, stale_session, rate_limited,
}
use vcv_rack_mcp.Operations.{Json}
use vcv_rack_mcp.Connection.{SelectedInstance}
use vcv_rack_mcp.RateLimiter.{admit, Admission, admitted}
use vcv_rack_mcp.Transactions.{TransactionManager, CachedPlan, TokenBinding, Signer, verify_token}
use vcv_rack_mcp.Transactions.Preview.{prune_expired}

pub record CommitArgs : Type 0 where
  pub operation_id : String
  pub plan_hash : String
  pub expected_fingerprint : String
  pub confirmation_token : Option String
  pub instance : SelectedInstance

-- The readings of the clock: at the pruning, at the token's check, and the limiter's two.
pub record CommitTimes : Type 0 where
  pub pruned : ℕ
  pub verified : ℕ
  pub cut : ℕ
  pub at : ℕ

-- What `txn.commit` is sent.
pub record CommitRequest : Type 0 where
  pub instance_id : String
  pub session_id : String
  pub patch_epoch : ℕ
  pub operation_id : String
  pub plan : Json
  pub plan_hash : String
  pub expected_fingerprint : String

pub record CommitOutcome : Type 0 where
  pub manager : TransactionManager
  pub sent : List CommitRequest
  pub result : Result Json

-- An empty token counts as none.
abbrev pub given : Option String → Option String
given none = none
given (some t) = if str_eq t "" then none else some t

unfoldable pub binds : TokenBinding → CommitArgs → Bool
binds b args =
    str_eq b.plan_hash args.plan_hash
    && str_eq b.base_fingerprint args.expected_fingerprint
    && str_eq b.instance_id args.instance.instance_id
    && str_eq b.session_id args.instance.session_id

-- The confirmation of a plan that requires one.
unfoldable pub confirm : Signer → ℕ → CommitArgs → Result (Unit {0})
unfolding binds
confirm s now args = elim (given args.confirmation_token) [
  | none ↦ throw (tool_error confirmation_required)
  | some token ↦ do
    binding ← verify_token s now token
    guard (binds binding args) confirmation_required
]

unfoldable pub cached : CommitArgs → TransactionManager → Result CachedPlan
cached args m = elim (lookup args.plan_hash m.plans) [
  | none ↦ throw (retryable confirmation_expired)
  | some plan ↦ ok plan
]

-- Every guard of `commit` before the rate limit, in its order.
unfoldable pub authorised : Signer → ℕ → CommitArgs → TransactionManager → Result CachedPlan
authorised s now args m = do
  plan ← cached args m
  guard
      (str_eq plan.instance_id args.instance.instance_id
        && str_eq plan.session_id args.instance.session_id)
      stale_session
  guard (str_eq args.expected_fingerprint plan.base_fingerprint) patch_conflict
  if plan.confirmation_required then confirm s now args else ok tt
  ok plan

unfoldable pub commit_request : CommitArgs → CachedPlan → CommitRequest
commit_request args plan = record {
  instance_id = args.instance.instance_id;
  session_id = args.instance.session_id;
  patch_epoch = plan.patch_epoch;
  operation_id = args.operation_id;
  plan = plan.plan;
  plan_hash = args.plan_hash;
  expected_fingerprint = args.expected_fingerprint;
}

-- From `ensureLease` on: the request is sent only with a lease, and the plan dropped on success.
unfoldable pub send_commit :
    CommitArgs → CachedPlan → Result (Unit {0}) → Result Json → TransactionManager → CommitOutcome
send_commit args plan (throw e) reply m = record { manager = m; sent = []; result = throw e }
send_commit args plan (ok _) (throw e) m = record {
  manager = m;
  sent = commit_request args plan ∷ [];
  result = throw e;
}
send_commit args plan (ok _) (ok r) m = record {
  manager = record m { plans = delete args.plan_hash m.plans };
  sent = commit_request args plan ∷ [];
  result = ok r;
}

-- `lease` is the outcome of `ensureLease`, `reply` the bridge's answer to the request.
unfoldable pub commit :
    Signer
    → CommitTimes
    → CommitArgs
    → Result (Unit {0})
    → Result Json
    → TransactionManager
    → CommitOutcome
commit s times args lease reply m =
    let pruned = prune_expired times.pruned m in
    elim (authorised s times.verified args pruned) [
      | throw e ↦ record { manager = pruned; sent = []; result = throw e }
      | ok plan ↦ elim (admit times.cut times.at plan.param_changes pruned.limiter) [
        | Admission.rate_limited ms limiter ↦ record {
          manager = record pruned { limiter = limiter };
          sent = [];
          result = throw (retryable rate_limited);
        }
        | admitted limiter ↦ send_commit args plan lease reply (record pruned { limiter = limiter })
      ]
    ]
