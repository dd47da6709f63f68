-- ===== src/Transactions/Preview.antt =====
-- transactions.ts, `preview`: caching a plan and minting its confirmation token.
use vcv_rack_mcp.Prelude.{
  ℕ, ◌+◌, String, Bool, true, not, List, [], ◌∷◌, Option, none, some, ltb, ◌==◌, filter, length,
  str_eq, insert, if◌then◌else◌,
}
use vcv_rack_mcp.Errors.{
  Result, ok, throw, ◌>>=◌, ◌>>◌, guard, transaction_too_large, stale_patch_epoch, patch_conflict,
}
use vcv_rack_mcp.Operations.{Json, PatchOperation, is_add_module, is_set_parameter}
use vcv_rack_mcp.Connection.{SelectedInstance}
use vcv_rack_mcp.Transactions.{
  TransactionManager, CachedPlan, TokenBinding, Signer, mint_token, confirmation_lifetime_ms,
  txn_max_added_modules,
}

-- The bridge's answer to `txn.preview`; diff, undoable and warnings are passed through in `rest`.
pub record PreviewReply : Type 0 where
  pub plan : Json
  pub plan_hash : String
  pub base_fingerprint : String
  pub patch_epoch : ℕ
  pub risk_level : String
  pub confirmation_required : Bool
  pub rest : Json

pub record Expected : Type 0 where
  pub fingerprint : Option String
  pub patch_epoch : Option ℕ

pub record Confirmation : Type 0 where
  pub token : String
  pub expires_at : ℕ
  pub required : Bool

pub record PreviewResult : Type 0 where
  pub preview : PreviewReply
  pub confirmation : Confirmation

-- `RateLimiter.countParamChanges`
unfoldable pub count_param_changes : List PatchOperation → ℕ
count_param_changes operations = length (filter is_set_parameter operations)

-- The loop of `pruneExpired` over the plans.
unfoldable pub prune : ℕ → List (String × CachedPlan) → List (String × CachedPlan)
prune now [] = []
prune now ((k, v) ∷ m) = if ltb v.expires_at now then prune now m else (k, v) ∷ prune now m

unfoldable pub prune_expired : ℕ → TransactionManager → TransactionManager
unfolding prune
prune_expired now m = record m { plans = prune now m.plans }

-- `expected.x !== undefined && reply.x !== expected.x`, negated.
abbrev pub epoch_agrees : Option ℕ → ℕ → Bool
epoch_agrees none live = true
epoch_agrees (some e) live = live == e

abbrev pub fingerprint_agrees : Option String → String → Bool
fingerprint_agrees none live = true
fingerprint_agrees (some f) live = str_eq live f

abbrev pub added_modules : List PatchOperation → ℕ
added_modules operations = length (filter is_add_module operations)

unfoldable pub cached_plan : List PatchOperation → SelectedInstance → PreviewReply → ℕ → CachedPlan
cached_plan operations instance r expires_at = record {
  plan = r.plan;
  base_fingerprint = r.base_fingerprint;
  param_changes = count_param_changes operations;
  patch_epoch = r.patch_epoch;
  risk_level = r.risk_level;
  confirmation_required = r.confirmation_required;
  instance_id = instance.instance_id;
  session_id = instance.session_id;
  expires_at = expires_at;
}

unfoldable pub token_binding : SelectedInstance → PreviewReply → ℕ → TokenBinding
token_binding instance r expires_at = record {
  instance_id = instance.instance_id;
  session_id = instance.session_id;
  patch_epoch = r.patch_epoch;
  base_fingerprint = r.base_fingerprint;
  plan_hash = r.plan_hash;
  risk_level = r.risk_level;
  expires_at = expires_at;
}

-- The checks of `preview`, around the bridge's answer.
unfoldable pub checked_reply :
    List PatchOperation → Expected → Result PreviewReply → Result PreviewReply
checked_reply operations expected reply = do
  guard (not (ltb txn_max_added_modules (added_modules operations))) transaction_too_large
  r ← reply
  guard (epoch_agrees expected.patch_epoch r.patch_epoch) stale_patch_epoch
  guard (fingerprint_agrees expected.fingerprint r.base_fingerprint) patch_conflict
  ok r

-- `now` is the clock at the pruning, `at` when the reply is in.
unfoldable pub preview :
    Signer
    → ℕ
    → ℕ
    → List PatchOperation
    → SelectedInstance
    → Expected
    → Result PreviewReply
    → TransactionManager
    → TransactionManager × Result PreviewResult
unfolding prune_expired
preview s now at operations instance expected reply m =
    let pruned = prune_expired now m in
    elim (checked_reply operations expected reply) [
      | throw e ↦ (pruned, throw e)
      | ok r ↦
          let expires_at = at + confirmation_lifetime_ms in
          (
            record pruned {
              plans =
                  insert r.plan_hash (cached_plan operations instance r expires_at) pruned.plans;
            },
            ok (record {
              preview = r;
              confirmation = record {
                token = mint_token s (token_binding instance r expires_at);
                expires_at = expires_at;
                required = r.confirmation_required;
              };
            }),
          )
    ]
