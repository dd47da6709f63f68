-- ===== src/PatchFiles/Confirmed.antt =====
-- patchfiles.ts: the patch is replaced only behind a confirmation and a recovery checkpoint.
use vcv_rack_mcp.Prelude.{
  ◌≡◌, refl, inl, inr, String, true, false, List, [], ◌∷◌, any, arith, subst, sym, ap, ◌∙◌,
}
use vcv_rack_mcp.Errors.{Thrown, ok, throw, Result-cases}
use vcv_rack_mcp.Operations.{Json}
use vcv_rack_mcp.Connection.{SelectedInstance}
use vcv_rack_mcp.Transactions.{LoadTokenBinding, TransactionManager, Signer}
use vcv_rack_mcp.Transactions.LoadTokens.{verify_load_token, consume_load_token}
use vcv_rack_mcp.Paths.Policy.{PatchDirectories}
use vcv_rack_mcp.Paths.Checkpoints.{Directory}
use vcv_rack_mcp.PatchFiles.{BridgeCall, save_copy, create_checkpoint}
use vcv_rack_mcp.PatchFiles.Replace.{
  ReplaceArgs, Answers, ReplaceOutcome, accept, replacement, replace_patch, checkpoint_and_replace,
  commit_load_or_clear,
}
use vcv_rack_mcp.PatchFiles.Stages.{
  replaces, IsAccepted, accept-IsAccepted, IsReplacement, replacement-IsReplacement, IsCheckpoint,
  create_checkpoint_cases,
}

module _ (s : Signer) (config : PatchDirectories) (a : ReplaceArgs) (w : Answers) where
  -- The end of a replacement: the token was consumed, and then one request was sent.
  record IsReplaced (b : LoadTokenBinding) (m : TransactionManager) (d : Directory)
      (sent : List BridgeCall) (o : ReplaceOutcome) : Type 0 where
    binding : LoadTokenBinding
    call : BridgeCall
    consumed : consume_load_token s w.consumed_at a.token m ≡ (o.manager, ok binding)
    replacing : IsReplacement config w.files a.kind a.operation_id b call
    last : o.sent ≡ call ∷ sent
    directory : o.directory ≡ d

  replace_patch-IsReplaced :
      (b : LoadTokenBinding) (recovery : String) (m : TransactionManager) (d : Directory)
      (sent : List BridgeCall)
      → any replaces sent ≡ false
      → let o = replace_patch s config a w b recovery m d sent in
        any replaces o.sent ≡ true → IsReplaced b m d sent o
  unfolding replace_patch
  replace_patch-IsReplaced b recovery m d sent quiet loud =
      elim (Result-cases (consume_load_token s w.consumed_at a.token m).1) [
        | inl (e, refused) ↦ absurd (ground (arith, refused, quiet, loud))
        | inr (b', taken) ↦
            elim (Result-cases (replacement config w.files a.kind a.operation_id b)) [
              | inl (e, refused) ↦ absurd (ground (arith, taken, refused, quiet, loud))
              | inr (call, given) ↦ record {
                binding = b';
                call = call;
                consumed = ground (arith, taken, given);
                replacing =
                    replacement-IsReplacement config w.files a.kind a.operation_id b call given;
                last = ground (arith, taken, given);
                directory = ground (arith, taken, given);
              }
            ]
      ]

  pub checkpoint_and_replace-ok :
      (b : LoadTokenBinding) (m : TransactionManager) (d : Directory) (path : String) (reply : Json)
      → let copy = create_checkpoint w.checkpoint_names w.checkpoint_id w.copied w.copied_size d in
        copy.result ≡ ok (path, reply)
        → checkpoint_and_replace s config a w b m d
          ≡ replace_patch s config a w b path m copy.directory copy.sent
  unfolding checkpoint_and_replace
  checkpoint_and_replace-ok b m d path reply good = ground (arith, good)

  checkpoint_and_replace-throw :
      (b : LoadTokenBinding) (m : TransactionManager) (d : Directory) (e : Thrown)
      → let copy = create_checkpoint w.checkpoint_names w.checkpoint_id w.copied w.copied_size d in
        copy.result ≡ throw e → (checkpoint_and_replace s config a w b m d).sent ≡ copy.sent
  unfolding checkpoint_and_replace
  checkpoint_and_replace-throw b m d e failed = ground (arith, failed)

  -- What precedes a request that replaces the patch, in `o` from the manager `m` and the directory `d`.
  pub record IsConfirmed (m : TransactionManager) (d : Directory) (o : ReplaceOutcome)
      : Type 0 where
    pub instance : SelectedInstance
    pub binding : LoadTokenBinding
    pub path : String
    pub call : BridgeCall
    pub connected : w.instance ≡ ok instance
    pub verified : (verify_load_token s w.verified_at a.token m).1 ≡ ok binding
    pub accepted : IsAccepted a w instance binding
    pub recoverable : IsCheckpoint w d o.directory path (save_copy path w.checkpoint_id ∷ [])
    pub consumed :
        (b : LoadTokenBinding) × (consume_load_token s w.consumed_at a.token
            (verify_load_token s w.verified_at a.token m).0
          ≡ (o.manager, ok b))
    pub replacing : IsReplacement config w.files a.kind a.operation_id binding call
    pub sent : o.sent ≡ call ∷ save_copy path w.checkpoint_id ∷ []

  pub commit-ok :
      (m : TransactionManager) (d : Directory) (i : SelectedInstance) (b : LoadTokenBinding)
      → w.instance ≡ ok i
      → (verify_load_token s w.verified_at a.token m).1 ≡ ok b
      → accept a w i b ≡ ok tt
      → commit_load_or_clear s config a w m d
        ≡ checkpoint_and_replace s config a w b (verify_load_token s w.verified_at a.token m).0 d
  unfolding commit_load_or_clear
  commit-ok m d i b up verified passed = ground (arith, up, verified, passed)

  checkpoint_and_replace-IsConfirmed :
      (m : TransactionManager) (d : Directory) (i : SelectedInstance) (b : LoadTokenBinding)
      → w.instance ≡ ok i
      → (verify_load_token s w.verified_at a.token m).1 ≡ ok b
      → accept a w i b ≡ ok tt
      → let o =
          checkpoint_and_replace s config a w b (verify_load_token s w.verified_at a.token m).0 d in
        any replaces o.sent ≡ true → IsConfirmed m d o
  checkpoint_and_replace-IsConfirmed m d i b up verified passed loud =
      let m' = (verify_load_token s w.verified_at a.token m).0 in
      let copy = create_checkpoint w.checkpoint_names w.checkpoint_id w.copied w.copied_size d in
      elim (create_checkpoint_cases w d) [
        | inr (e, failed, quiet) ↦
            let same = checkpoint_and_replace-throw b m' d e failed in
            absurd (ground (arith, same, quiet, loud))
        | inl (path, reply, good, made) ↦
            let same = checkpoint_and_replace-ok b m' d path reply good in
            let end =
              replace_patch-IsReplaced b path m' copy.directory copy.sent (rw (made.only) refl)
                (subst (λ (o : ReplaceOutcome). any replaces o.sent ≡ true) same loud) in
            let after = (replace_patch s config a w b path m' copy.directory copy.sent).directory in
            subst (IsConfirmed m d) (sym same) (record {
              instance = i;
              binding = b;
              path = path;
              call = end.call;
              connected = up;
              verified = verified;
              accepted = accept-IsAccepted a w i b passed;
              recoverable =
                  subst (λ (l : List BridgeCall). IsCheckpoint w d after path l) made.only
                    (subst (λ (e : Directory). IsCheckpoint w d e path copy.sent)
                      (sym end.directory) made);
              consumed = (end.binding, end.consumed);
              replacing = end.replacing;
              sent = end.last ∙ ap (λ l. end.call ∷ l) made.only;
            })
      ]

  -- If a request that replaces the patch is sent in the course of a commit, then it is the last one
  -- and follows one copy: the token was verified for this instance, session and kind of operation,
  -- the fingerprint and the patch epoch were as the token says, this server held the lease, the
  -- bridge had written the copy to a free name of the checkpoints, the token was consumed, and a
  -- file that is loaded is one that the path policy allows in the root for this kind of operation.
  pub commit_load_or_clear-IsConfirmed :
      (m : TransactionManager) (d : Directory)
      → let o = commit_load_or_clear s config a w m d in
        any replaces o.sent ≡ true → IsConfirmed m d o
  unfolding commit_load_or_clear
  commit_load_or_clear-IsConfirmed m d loud = elim (Result-cases w.instance) [
    | inl (e, failed) ↦ absurd (ground (arith, failed, loud))
    | inr (i, up) ↦ elim (Result-cases (verify_load_token s w.verified_at a.token m).1) [
      | inl (e, failed) ↦ absurd (ground (arith, up, failed, loud))
      | inr (b, verified) ↦ elim (Result-cases (accept a w i b)) [
        | inl (e, failed) ↦ absurd (ground (arith, up, verified, failed, loud))
        | inr (u, passed) ↦
            let same = commit-ok m d i b up verified passed in
            subst (IsConfirmed m d) (sym same) (
              checkpoint_and_replace-IsConfirmed m d i b up verified passed
                (subst (λ (o : ReplaceOutcome). any replaces o.sent ≡ true) same loud))
      ]
    ]
  ]
