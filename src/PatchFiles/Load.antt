-- ===== src/PatchFiles/Load.antt =====
-- patchfiles.ts: a previewed load goes through.
use vcv_rack_mcp.Prelude.{
  ℕ, ◌+◌, ◌≤◌, ◌≡◌, refl, String, false, true, List, [], ◌∷◌, none, some, arith, eq_refl, sym,
  subst, ap, ◌∙◌,
}
use vcv_rack_mcp.Errors.{ok}
use vcv_rack_mcp.Operations.{Json}
use vcv_rack_mcp.Connection.{SelectedInstance}
use vcv_rack_mcp.Transactions.{load, LoadTokenBinding, TransactionManager, Signer, has_dot}
use vcv_rack_mcp.Transactions.LoadTokens.{mint_load_token, verify_load_token, consume_load_token}
use vcv_rack_mcp.Transactions.SingleUse.{consume-mint}
use vcv_rack_mcp.Paths.{FileSystem}
use vcv_rack_mcp.Paths.Policy.{patches, PatchDirectories, ResolvedPath, resolve_patch_path}
use vcv_rack_mcp.Paths.Checkpoints.{Directory, reserve_checkpoint_path}
use vcv_rack_mcp.PatchFiles.{
  PatchFingerprint, BridgeCall, save_copy, load_file, preview_load_patch, build_load_preview,
  check_source, find_source, mint_for, require_root, create_checkpoint,
}
use vcv_rack_mcp.PatchFiles.Replace.{
  ReplaceArgs, Answers, accept, replacement, replace_patch, checkpoint_and_replace,
  commit_load_or_clear,
}
use vcv_rack_mcp.PatchFiles.Stages.{create_checkpoint-ok}
use vcv_rack_mcp.PatchFiles.Confirmed.{commit-ok, checkpoint_and_replace-ok}

-- A commit at which everything is as a preview of a load left it, within the token's five minutes,
-- and at which the checkpoint can be made and the bridge does what it is asked.
pub record IsUndisturbed (now : ℕ) (fs : FileSystem) (i : SelectedInstance)
    (live : PatchFingerprint) (d : Directory) (a : ReplaceArgs) (w : Answers) (path : String)
    (reply done : Json) : Type 1 where
  pub loading : a.kind ≡ load
  pub unnamed : a.expected_path ≡ none
  pub instance : w.instance ≡ ok i
  pub live_still : w.live ≡ ok live
  pub lease : w.lease ≡ ok tt
  pub files : w.files ≡ fs
  pub verified_in_time : w.verified_at ≤ now + 300_000
  pub consumed_in_time : w.consumed_at ≤ now + 300_000
  pub reserved : (reserve_checkpoint_path w.checkpoint_names d).1 ≡ ok path
  pub copied : w.copied ≡ ok reply
  pub replaced : w.replaced ≡ ok done

preview_load_patch-ok :
    (s : Signer) (fs : FileSystem) (config : PatchDirectories) (now : ℕ) (id requested : String)
    (i : SelectedInstance) (live : PatchFingerprint) (m : TransactionManager) (r : ResolvedPath)
    → resolve_patch_path fs config requested true ≡ ok r
    → r.root ≡ patches
    → let (m', token) = mint_for s now id load (some requested) i live m in
      preview_load_patch s fs config now id requested (ok i) (ok live) m ≡ (m', ok token)
unfolding preview_load_patch build_load_preview check_source find_source require_root
preview_load_patch-ok s fs config now id requested i live m r good rooted =
    ground (arith, good, rooted)

module _ (s : Signer) (config : PatchDirectories) (a : ReplaceArgs) (w : Answers) where
  accept-ok :
      (i : SelectedInstance) (live : PatchFingerprint) (requested : String)
      → let b : LoadTokenBinding = record {
        instance_id = i.instance_id;
        session_id = i.session_id;
        kind = load;
        path = some requested;
        patch_epoch = live.patch_epoch;
        fingerprint = live.fingerprint;
      } in
        a.kind ≡ load
        → a.expected_path ≡ none
        → w.live ≡ ok live
        → w.lease ≡ ok tt
        → accept a w i b ≡ ok tt
  unfolding accept
  accept-ok i live requested loading unnamed still leased = ground (
    arith,
    loading,
    unnamed,
    still,
    leased,
    eq_refl i.instance_id,
    eq_refl i.session_id,
    eq_refl live.fingerprint,
  )

  replace_patch-ok :
      (b : LoadTokenBinding) (recovery : String) (m : TransactionManager) (d : Directory)
      (sent : List BridgeCall) (call : BridgeCall) (done : Json)
      → (consume_load_token s w.consumed_at a.token m).1 ≡ ok b
      → replacement config w.files a.kind a.operation_id b ≡ ok call
      → w.replaced ≡ ok done
      → let o = replace_patch s config a w b recovery m d sent in
        (o.sent ≡ call ∷ sent) × (o.result ≡ ok (recovery, done))
  unfolding replace_patch
  replace_patch-ok b recovery m d sent call done consumed given answered =
      (ground (arith, consumed, given), ground (arith, consumed, given, answered))

  load-replacement :
      (b : LoadTokenBinding) (requested : String) (r : ResolvedPath)
      → b.path ≡ some requested
      → a.kind ≡ load
      → resolve_patch_path w.files config requested true ≡ ok r
      → r.root ≡ patches
      → replacement config w.files a.kind a.operation_id b
        ≡ ok (load_file r.absolute true a.operation_id)
  unfolding replacement require_root
  load-replacement b requested r named loading good rooted =
      subst
        (λ k.
          replacement config w.files k a.operation_id b
          ≡ ok (load_file r.absolute true a.operation_id))
        (sym loading) (ground (arith, named, good, rooted))

-- A load of a patch that the policy allows can be previewed, and a commit with the token of that
-- preview, within five minutes and with nothing disturbed, copies the patch to the reserved
-- checkpoint, then loads exactly the file that was previewed and succeeds with the bridge's reply.
pub preview_load_patch-commit :
    (s : Signer) (fs : FileSystem) (config : PatchDirectories) (now : ℕ) (id requested : String)
    (i : SelectedInstance) (live : PatchFingerprint) (m : TransactionManager) (r : ResolvedPath)
    (d : Directory) (a : ReplaceArgs) (w : Answers) (path : String) (reply done : Json)
    → has_dot id ≡ false
    → resolve_patch_path fs config requested true ≡ ok r
    → r.root ≡ patches
    → let (m', token) = preview_load_patch s fs config now id requested (ok i) (ok live) m in
      token ≡ ok a.token
      → IsUndisturbed now fs i live d a w path reply done
      → let o = commit_load_or_clear s config a w m' d in
        (o.sent ≡ load_file r.absolute true a.operation_id ∷ save_copy path w.checkpoint_id ∷ [])
        × (o.result ≡ ok (path, done))
unfolding mint_for
preview_load_patch-commit s fs config now id requested i live m r d a w path reply done dotless good
      rooted named u =
    let b : LoadTokenBinding = record {
      instance_id = i.instance_id;
      session_id = i.session_id;
      kind = load;
      path = some requested;
      patch_epoch = live.patch_epoch;
      fingerprint = live.fingerprint;
    } in
    let minted = mint_load_token s now id b m in
    let previewed = preview_load_patch-ok s fs config now id requested i live m r good rooted in
    let same : minted.1 ≡ a.token = ground (arith, previewed, named) in
    let verified : verify_load_token s w.verified_at a.token minted.0 ≡ (minted.0, ok b) =
      subst (λ t. verify_load_token s w.verified_at t minted.0 ≡ (minted.0, ok b)) same
        (consume-mint s now w.verified_at id b m dotless u.verified_in_time).0 in
    let consumed : (consume_load_token s w.consumed_at a.token minted.0).1 ≡ ok b =
      subst (λ t. (consume_load_token s w.consumed_at t minted.0).1 ≡ ok b) same
        (consume-mint s now w.consumed_at id b m dotless u.consumed_in_time).1 in
    let copy = create_checkpoint w.checkpoint_names w.checkpoint_id w.copied w.copied_size d in
    let made = create_checkpoint-ok w d path reply u.reserved u.copied in
    let call =
      load-replacement s config a w b requested r refl u.loading
        (subst (λ f. resolve_patch_path f config requested true ≡ ok r) (sym u.files) good)
        rooted in
    let passed = accept-ok s config a w i live requested u.loading u.unnamed u.live_still u.lease in
    let first = commit-ok s config a w minted.0 d i b u.instance (ap (λ p. p.1) verified) passed in
    let second =
      checkpoint_and_replace-ok s config a w b minted.0 d path reply (ap (λ o. o.result) made) in
    let end =
      replace_patch-ok s config a w b path minted.0 copy.directory copy.sent
        (load_file r.absolute true a.operation_id) done consumed call u.replaced in
    let before : (preview_load_patch s fs config now id requested (ok i) (ok live) m).0 ≡ minted.0 =
      ap (λ p. p.0) previewed in
    let after : (verify_load_token s w.verified_at a.token minted.0).0 ≡ minted.0 =
      ap (λ p. p.0) verified in
    let whole : commit_load_or_clear s config a w minted.0 d
        ≡ replace_patch s config a w b path minted.0 copy.directory copy.sent =
      first ∙ ap (λ n. checkpoint_and_replace s config a w b n d) after ∙ second in
    rw (before, whole)
      (end.0 ∙ ap (λ o. load_file r.absolute true a.operation_id ∷ o.sent) made, end.1)
