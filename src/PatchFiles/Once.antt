-- ===== src/PatchFiles/Once.antt =====
-- patchfiles.ts: a token replaces the patch at most once.
use vcv_rack_mcp.Prelude.{◌≡◌, inl, inr, true, [], any, arith, ap}
use vcv_rack_mcp.Errors.{throw, Result-cases, tool_error, confirmation_expired}
use vcv_rack_mcp.Transactions.{TransactionManager, Signer}
use vcv_rack_mcp.Transactions.LoadTokens.{verify_load_token, consume_load_token}
use vcv_rack_mcp.Transactions.SingleUse.{consume_once}
use vcv_rack_mcp.Paths.Policy.{PatchDirectories}
use vcv_rack_mcp.Paths.Checkpoints.{Directory}
use vcv_rack_mcp.PatchFiles.Replace.{ReplaceArgs, Answers, commit_load_or_clear}
use vcv_rack_mcp.PatchFiles.Stages.{replaces}
use vcv_rack_mcp.PatchFiles.Confirmed.{commit_load_or_clear-IsConfirmed}

commit-expired :
    (s : Signer) (config : PatchDirectories) (a : ReplaceArgs) (w : Answers)
    (m : TransactionManager) (d : Directory)
    → (verify_load_token s w.verified_at a.token m).1 ≡ throw (tool_error confirmation_expired)
    → (commit_load_or_clear s config a w m d).sent ≡ []
unfolding commit_load_or_clear
commit-expired s config a w m d expired = elim (Result-cases w.instance) [
  | inl (e, failed) ↦ ground (arith, failed)
  | inr (i, up) ↦ ground (arith, up, expired)
]

-- After a commit has sent a request that replaces the patch, a commit of the same token, of whatever
-- kind and whatever its surroundings answer, sends nothing.
pub commit_load_or_clear_once :
    (s : Signer) (config : PatchDirectories) (a b : ReplaceArgs) (w v : Answers)
    (m : TransactionManager) (d e : Directory)
    → any replaces (commit_load_or_clear s config a w m d).sent ≡ true
    → b.token ≡ a.token
    → (commit_load_or_clear s config b v (commit_load_or_clear s config a w m d).manager e).sent
      ≡ []
commit_load_or_clear_once s config a b w v m d e loud same =
    let o = commit_load_or_clear s config a w m d in
    let before = (verify_load_token s w.verified_at a.token m).0 in
    let (binding, consumed) = (commit_load_or_clear-IsConfirmed s config a w m d loud).consumed in
    let (expired, _) =
      consume_once s w.consumed_at v.verified_at a.token before binding (ap (λ p. p.1) consumed) in
    let after : (consume_load_token s w.consumed_at a.token before).0 ≡ o.manager =
      ap (λ p. p.0) consumed in
    commit-expired s config b v o.manager e (ground (arith, same, after, expired))
