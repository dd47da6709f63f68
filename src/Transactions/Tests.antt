-- ===== src/Transactions/Tests.antt =====
-- The transaction theorems at concrete runs.
use vcv_rack_mcp.Prelude.{
  ℕ, ◌≤◌, ◌≡◌, refl, ◌↔◌, ◌⊎◌, String, true, false, List, [], ◌∷◌, none, some, lookup, arith,
  insert, delete,
}
use vcv_rack_mcp.Errors.{Thrown, Result, ok, throw, tool_error, retryable, confirmation_expired}
use vcv_rack_mcp.Operations.{PatchOperation, set_parameter, module_id, normalized}
use vcv_rack_mcp.Connection.{SelectedInstance}
use vcv_rack_mcp.RateLimiter.{new_rate_limiter, admit, expire}
use vcv_rack_mcp.Transactions.{
  TransactionManager, TokenBinding, LoadTokenBinding, load, mint_token, verify_token, split_dot,
}
use vcv_rack_mcp.Transactions.Tokens.{verify_token-eq-ok_iff, verify_token-mint_token}
use vcv_rack_mcp.Transactions.Preview.{
  PreviewReply, PreviewResult, Expected, preview, prune_expired, checked_reply, cached_plan,
  token_binding, count_param_changes,
}
use vcv_rack_mcp.Transactions.Commit.{
  CommitArgs, CommitTimes, commit, authorised, cached, send_commit,
}
use vcv_rack_mcp.Transactions.LoadTokens.{mint_load_token, verify_load_token, consume_load_token}
use vcv_rack_mcp.Transactions.Safety.{Sends, commit-sent_iff}
use vcv_rack_mcp.Transactions.Cycle.{IsPreviewed, preview_cases, commit_once}
use vcv_rack_mcp.Transactions.Accept.{previewed_request, confirming, commit-preview}
use vcv_rack_mcp.Transactions.SingleUse.{consume_once, consume-mint}
use vcv_rack_mcp.Transactions.Samples.{sample_signer, read_binding}

abbrev rack : SelectedInstance
rack = record {
  instance_id = "i";
  session_id = "s";
  rack_version = "2.6.6";
  rack_edition = "Free";
  port = 1;
  pid = 2;
}

abbrev fresh : TransactionManager
fresh = record { plans = []; load_bindings = []; limiter = new_rate_limiter 30 1000 }

abbrev turn : List PatchOperation
turn = set_parameter (module_id "7") 0 (normalized "0.5") none ∷ []

abbrev answered : PreviewReply
answered = record {
  plan = "plan";
  plan_hash = "h";
  base_fingerprint = "f";
  patch_epoch = 3;
  risk_level = "high";
  confirmation_required = true;
  rest = "";
}

abbrev no_guard : Expected
no_guard = record { fingerprint = none; patch_epoch = none }

abbrev times_at : ℕ → CommitTimes
times_at t = record { pruned = t; verified = t; cut = t; at = t }

abbrev previewed : TransactionManager × Result PreviewResult
previewed = preview sample_signer 1000 1010 turn rack no_guard (ok answered) fresh

abbrev result : PreviewResult
result = record {
  preview = answered;
  confirmation = record {
    token = mint_token sample_signer (token_binding rack answered 301_010);
    expires_at = 301_010;
    required = true;
  };
}

all_open : Unit {0}
unfolding preview checked_reply prune_expired insert delete lookup admit expire count_param_changes
all_open = tt

preview_ok : previewed.1 ≡ ok result
unfolding all_open
preview_ok = refl

preview_cases_example :
    ((e : Thrown) × (previewed.1 ≡ throw e) × (previewed.0 ≡ prune_expired 1000 fresh))
    ⊎ ((r : PreviewResult) × (previewed.1 ≡ ok r)
        × IsPreviewed turn rack no_guard
            (ok answered)
            1010
            (prune_expired 1000 fresh)
            previewed.0
            r)
preview_cases_example = preview_cases sample_signer 1000 1010 turn rack no_guard (ok answered) fresh

commit-preview_example :
    (commit sample_signer
      (times_at 2000)
      (confirming "op" rack result)
      (ok tt)
      (ok "done")
      previewed.0).sent
    ≡ previewed_request "op" rack answered ∷ []
unfolding all_open
commit-preview_example =
    commit-preview sample_signer 1000 1010 turn rack no_guard (ok answered) fresh result
      (times_at 2000) "op" (ok "done") _ preview_ok (omega arith) (omega arith) refl

abbrev confirmed : CommitArgs
confirmed = confirming "op" rack result

-- The same, sent through the conditions under which a commit sends a request.
commit-sent_iff_example :
    ((commit sample_signer (times_at 2000) confirmed (ok tt) (ok "done") previewed.0).sent
      ≡ previewed_request "op" rack answered ∷ [])
    ↔ Sends sample_signer
        (times_at 2000)
        confirmed
        (ok tt)
        previewed.0
        (previewed_request "op" rack answered)
commit-sent_iff_example =
    commit-sent_iff sample_signer (times_at 2000) confirmed (ok tt) (ok "done") previewed.0
      (previewed_request "op" rack answered)

-- A plan that needs no confirmation.
abbrev low_risk : PreviewReply
low_risk = record answered { confirmation_required = false }

abbrev ready : TransactionManager
ready = (preview sample_signer 1000 1010 turn rack no_guard (ok low_risk) fresh).0

abbrev plain : CommitArgs
plain = record confirmed { confirmation_token = none }

commit_runs :
    (commit sample_signer (times_at 2000) plain (ok tt) (ok "done") ready).result ≡ ok "done"
unfolding all_open commit authorised cached send_commit cached_plan
commit_runs = refl

commit_once_example :
    let next =
      commit sample_signer
        (times_at 3000)
        confirmed
        (ok tt)
        (ok "again")
        (commit sample_signer (times_at 2000) plain (ok tt) (ok "done") ready).manager in
    (next.sent ≡ []) × (next.result ≡ throw (retryable confirmation_expired))
commit_once_example =
    commit_once sample_signer (times_at 2000) (times_at 3000) plain confirmed (ok tt) (ok tt)
      (ok "done") (ok "again") ready "done" commit_runs refl

abbrev bound : TokenBinding
bound = token_binding rack answered 301_010

verify_token-mint_token_example :
    verify_token sample_signer 301_011 (mint_token sample_signer bound)
    ≡ throw (tool_error confirmation_expired)
unfolding token_binding
verify_token-mint_token_example = verify_token-mint_token sample_signer 301_011 bound

verify_token-eq-ok_iff_example : (verify_token sample_signer 0 "a.b" ≡ ok bound) ↔ (
    (body : String) × (split_dot "a.b" ≡ some (body, body))
    × (some (read_binding body) ≡ some bound)
    × (0 ≤ bound.expires_at))
verify_token-eq-ok_iff_example = verify_token-eq-ok_iff sample_signer 0 "a.b" bound

abbrev to_load : LoadTokenBinding
to_load = record {
  instance_id = "i";
  session_id = "s";
  kind = load;
  path = some "/patches/a.vcv";
  patch_epoch = 3;
  fingerprint = "f";
}

abbrev minted : TransactionManager × String
minted = mint_load_token sample_signer 50 "id" to_load fresh

minted_consumable :
    (verify_load_token sample_signer 60 minted.1 minted.0 ≡ (minted.0, ok to_load))
    × ((consume_load_token sample_signer 60 minted.1 minted.0).1 ≡ ok to_load)
minted_consumable = consume-mint sample_signer 50 60 "id" to_load fresh refl (omega arith)

consume_once_example :
    let after = (consume_load_token sample_signer 60 minted.1 minted.0).0 in
    ((verify_load_token sample_signer 70 minted.1 after).1
      ≡ throw (tool_error confirmation_expired))
    × ((consume_load_token sample_signer 70 minted.1 after).1
        ≡ throw (tool_error confirmation_expired))
consume_once_example =
    consume_once sample_signer 60 70 minted.1 minted.0 to_load minted_consumable.1
