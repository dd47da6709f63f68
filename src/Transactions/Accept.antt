-- ===== src/Transactions/Accept.antt =====
-- transactions.ts: a previewed plan can be committed as previewed, with the token that it came with.
use vcv_rack_mcp.Prelude.{
  ℕ, ◌+◌, ◌≤◌, ◌≡◌, refl, inl, inr, String, List, [], ◌∷◌, some, lookup, arith, subst,
}
use vcv_rack_mcp.Errors.{Result, ok}
use vcv_rack_mcp.Operations.{Json, PatchOperation}
use vcv_rack_mcp.Connection.{SelectedInstance}
use vcv_rack_mcp.RateLimiter.{RateLimiter, admit, admitted}
use vcv_rack_mcp.Transactions.{TransactionManager, Signer, mint_token}
use vcv_rack_mcp.Transactions.Tokens.{verify_token-mint_token}
use vcv_rack_mcp.Transactions.Preview.{
  PreviewReply, PreviewResult, Expected, preview, prune_expired, cached_plan, token_binding,
  count_param_changes,
}
use vcv_rack_mcp.Transactions.Commit.{
  CommitRequest, CommitArgs, CommitTimes, commit, commit_request,
}
use vcv_rack_mcp.Transactions.Safety.{IsConfirmed, commit-sent_iff}
use vcv_rack_mcp.Transactions.Cycle.{lookup-prune_live, preview_cases}

-- The arguments that confirm a preview.
abbrev pub confirming : String → SelectedInstance → PreviewResult → CommitArgs
confirming operation_id instance result = record {
  operation_id = operation_id;
  plan_hash = result.preview.plan_hash;
  expected_fingerprint = result.preview.base_fingerprint;
  confirmation_token = some result.confirmation.token;
  instance = instance;
}

module _ (s : Signer) (now at : ℕ) (operations : List PatchOperation) (instance : SelectedInstance)
    (expected : Expected) (reply : Result PreviewReply) (m : TransactionManager)
    (result : PreviewResult) where
  -- The token of a preview binds the plan hash, fingerprint and session that it reports.
  minted :
      (preview s now at operations instance expected reply m).1 ≡ ok result
      → (result.confirmation.token
          ≡ mint_token s (token_binding instance result.preview (at + 300_000)))
        × ((preview s now at operations instance expected reply m).0.limiter ≡ m.limiter)
  unfolding preview
  minted done = ground arith

reply_confirmed :
    (s : Signer) (at verified : ℕ) (operation_id : String) (instance : SelectedInstance)
    (result : PreviewResult)
    → verified ≤ at + 300_000
    → result.confirmation.token
      ≡ mint_token s (token_binding instance result.preview (at + 300_000))
    → IsConfirmed s verified (confirming operation_id instance result)
unfolding token_binding
reply_confirmed s at verified operation_id instance result fresh token = record {
  token = result.confirmation.token;
  binding = token_binding instance result.preview (at + 300_000);
  supplied = refl;
  verified = rw token (
      ground (
        arith,
        verify_token-mint_token s verified (token_binding instance result.preview (at + 300_000)),
      ));
  plan_hash = refl;
  fingerprint = refl;
  instance_id = refl;
  session_id = refl;
}

-- The request that commits a previewed plan, field by field.
abbrev pub previewed_request : String → SelectedInstance → PreviewReply → CommitRequest
previewed_request operation_id instance p = record {
  instance_id = instance.instance_id;
  session_id = instance.session_id;
  patch_epoch = p.patch_epoch;
  operation_id = operation_id;
  plan = p.plan;
  plan_hash = p.plan_hash;
  expected_fingerprint = p.base_fingerprint;
}

-- After a preview that succeeded, a commit with what it returned sends exactly the previewed plan with
-- the previewed epoch: for the same instance, within five minutes of the preview's reply, if the rate
-- limiter admits the plan's parameter changes and the writer lease is held.
pub commit-preview :
    (s : Signer) (now at : ℕ) (operations : List PatchOperation) (instance : SelectedInstance)
    (expected : Expected) (reply : Result PreviewReply) (m : TransactionManager)
    (result : PreviewResult) (times : CommitTimes) (operation_id : String) (answer : Result Json)
    (l : RateLimiter)
    → (preview s now at operations instance expected reply m).1 ≡ ok result
    → times.pruned ≤ at + 300_000
    → times.verified ≤ at + 300_000
    → admit times.cut times.at (count_param_changes operations) m.limiter ≡ admitted l
    → let args = confirming operation_id instance result in
      let after = (preview s now at operations instance expected reply m).0 in
      (commit s times args (ok tt) answer after).sent
      ≡ previewed_request operation_id instance result.preview ∷ []
unfolding cached_plan prune_expired commit_request
commit-preview s now at operations instance expected reply m result times operation_id answer l done
      early fresh allowed =
    let args = confirming operation_id instance result in
    let after = (preview s now at operations instance expected reply m).0 in
    let plan = cached_plan operations instance result.preview (at + 300_000) in
    let (token, same) = minted s now at operations instance expected reply m result done in
    elim (preview_cases s now at operations instance expected reply m) [
      | inl (e, failed, _) ↦ absurd (ground arith)
      | inr (result', done', p) ↦
          let one : result' ≡ result = ground arith in
          let stored : lookup result.preview.plan_hash after.plans ≡ some plan =
            subst
              (λ (x : PreviewResult).
                lookup x.preview.plan_hash after.plans
                ≡ some (cached_plan operations instance x.preview (at + 300_000)))
              one p.stored in
          (commit-sent_iff s times args (ok tt) answer after (commit_request args plan)).1 (
            plan,
            record {
              found = lookup-prune_live args.plan_hash times.pruned after.plans plan stored early;
              instance_id = refl;
              session_id = refl;
              fingerprint = refl;
              confirmed = λ needed.
                  reply_confirmed s at times.verified operation_id instance result fresh token;
            },
            (l, rw same allowed),
            refl,
            refl,
          )
    ]
