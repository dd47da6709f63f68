-- ===== src/PatchFiles/Tests.antt =====
-- A patch is loaded behind a minted token, and the token is then used up.
use vcv_rack_mcp.Prelude.{
  ℕ, ◌≡◌, refl, String, Bool, true, false, List, [], ◌∷◌, Option, none, some, any, ap, arith,
}
use vcv_rack_mcp.Errors.{Result, ok, throw, tool_error, path_not_allowed}
use vcv_rack_mcp.RateLimiter.{new_rate_limiter}
use vcv_rack_mcp.Connection.{SelectedInstance}
use vcv_rack_mcp.Transactions.{LoadTokenBinding, load, restore, TransactionManager}
use vcv_rack_mcp.Transactions.Samples.{sample_signer}
use vcv_rack_mcp.Transactions.LoadTokens.{mint_load_token}
use vcv_rack_mcp.Paths.Policy.{patches, ResolvedPath, resolve_patch_path}
use vcv_rack_mcp.Paths.Checkpoints.{Directory, reserve_checkpoint_path}
use vcv_rack_mcp.Paths.Samples.{sample_files, sample_roots}
use vcv_rack_mcp.PatchFiles.{PatchFingerprint, BridgeCall, save_copy, load_file, preview_load_patch}
use vcv_rack_mcp.PatchFiles.Replace.{ReplaceArgs, Answers, ReplaceOutcome, commit_load_or_clear}
use vcv_rack_mcp.PatchFiles.Stages.{replaces}
use vcv_rack_mcp.PatchFiles.Confirmed.{IsConfirmed, commit_load_or_clear-IsConfirmed}
use vcv_rack_mcp.PatchFiles.Load.{preview_load_patch-commit}
use vcv_rack_mcp.PatchFiles.Restore.{
  restore_checkpoint, IsRestoration, restore_checkpoint-IsRestoration,
}
use vcv_rack_mcp.PatchFiles.Once.{commit_load_or_clear_once}

abbrev rack : SelectedInstance
rack = record {
  instance_id = "one";
  session_id = "s";
  rack_version = "2";
  rack_edition = "free";
  port = 1;
  pid = 2;
}

abbrev fresh : TransactionManager
fresh = record { plans = []; load_bindings = []; limiter = new_rate_limiter 30 1000 }

abbrev live : PatchFingerprint
live = record { fingerprint = "f"; patch_epoch = 3 }

abbrev to_load : LoadTokenBinding
to_load = record {
  instance_id = "one";
  session_id = "s";
  kind = load;
  path = some "/p/a.vcv";
  patch_epoch = 3;
  fingerprint = "f";
}

abbrev minted : TransactionManager × String
minted = mint_load_token sample_signer 50 "id" to_load fresh

preview_mints :
    preview_load_patch sample_signer sample_files sample_roots 50 "id" "/p/a.vcv"
      (ok rack)
      (ok live)
      fresh
    ≡ (minted.0, ok minted.1)
unfolding preview_load_patch vcv_rack_mcp.PatchFiles.check_source
    vcv_rack_mcp.Paths.Policy.resolve_patch_path vcv_rack_mcp.Paths.Policy.check_request
    vcv_rack_mcp.Paths.is_url vcv_rack_mcp.Paths.has_scheme vcv_rack_mcp.Paths.starts_with
    vcv_rack_mcp.Paths.ends_with vcv_rack_mcp.Paths.same_codes
    vcv_rack_mcp.Paths.Policy.canonical_dir vcv_rack_mcp.Paths.Canonical.canonical_allowing_missing
    vcv_rack_mcp.Paths.Canonical.up_parents vcv_rack_mcp.Paths.Policy.root_of
    vcv_rack_mcp.Paths.Policy.within vcv_rack_mcp.Paths.Policy.check_target
    vcv_rack_mcp.PatchFiles.require_root vcv_rack_mcp.PatchFiles.build_load_preview
    vcv_rack_mcp.Paths.Canonical.through_link vcv_rack_mcp.Paths.is_reserved_windows_name
    vcv_rack_mcp.Paths.scheme_rest vcv_rack_mcp.Paths.split_extension vcv_rack_mcp.Prelude.insert
    mint_load_token vcv_rack_mcp.Transactions.LoadTokens.prune_loads
    vcv_rack_mcp.Transactions.join_dot vcv_rack_mcp.PatchFiles.find_source
    vcv_rack_mcp.PatchFiles.mint_for
preview_mints = refl

abbrev args : ReplaceArgs
args = record {
  kind = load;
  token = minted.1;
  operation_id = "op";
  expected_path = some "/p/a.vcv";
}

abbrev answers : Answers
answers = record {
  instance = ok rack;
  verified_at = 60;
  live = ok live;
  lease = ok tt;
  checkpoint_names = ok (λ n. "/c/before.vcv");
  checkpoint_id = "copy";
  copied = ok "saved";
  copied_size = 12;
  consumed_at = 70;
  files = sample_files;
  replaced = ok "loaded";
}

abbrev empty : Directory
empty = record { files = []; writable = true }

abbrev outcome : ReplaceOutcome
outcome = commit_load_or_clear sample_signer sample_roots args answers minted.0 empty

commit_sends : outcome.sent ≡ load_file "/p/a.vcv" true "op" ∷ save_copy "/c/before.vcv" "copy" ∷ []
unfolding commit_load_or_clear vcv_rack_mcp.Transactions.LoadTokens.verify_load_token
    vcv_rack_mcp.Transactions.LoadTokens.lookup_load_token vcv_rack_mcp.Transactions.authenticate
    mint_load_token vcv_rack_mcp.Transactions.join_dot vcv_rack_mcp.Prelude.lookup
    vcv_rack_mcp.Prelude.insert vcv_rack_mcp.Transactions.LoadTokens.prune_loads
    vcv_rack_mcp.PatchFiles.Replace.accept vcv_rack_mcp.PatchFiles.same_path
    vcv_rack_mcp.PatchFiles.Replace.checkpoint_and_replace vcv_rack_mcp.PatchFiles.create_checkpoint
    vcv_rack_mcp.Paths.Checkpoints.reserve_checkpoint_path vcv_rack_mcp.Paths.Checkpoints.try_names
    vcv_rack_mcp.PatchFiles.Replace.replace_patch
    vcv_rack_mcp.Transactions.LoadTokens.consume_load_token vcv_rack_mcp.Errors.code_name
    vcv_rack_mcp.Errors.normalize_error_code vcv_rack_mcp.Errors.to_error_payload
    vcv_rack_mcp.PatchFiles.Replace.replacement vcv_rack_mcp.PatchFiles.plugin_reported_failure
    vcv_rack_mcp.PatchFiles.require_root vcv_rack_mcp.Paths.Canonical.canonical_allowing_missing
    vcv_rack_mcp.Paths.Canonical.through_link vcv_rack_mcp.Paths.Canonical.up_parents
    vcv_rack_mcp.Paths.Checkpoints.release_checkpoint_reservation
    vcv_rack_mcp.Paths.Policy.canonical_dir vcv_rack_mcp.Paths.Policy.check_request
    vcv_rack_mcp.Paths.Policy.check_target vcv_rack_mcp.Paths.Policy.resolve_patch_path
    vcv_rack_mcp.Paths.Policy.root_of vcv_rack_mcp.Paths.Policy.within vcv_rack_mcp.Paths.ends_with
    vcv_rack_mcp.Paths.has_scheme vcv_rack_mcp.Paths.is_reserved_windows_name
    vcv_rack_mcp.Paths.is_url vcv_rack_mcp.Paths.same_codes vcv_rack_mcp.Paths.scheme_rest
    vcv_rack_mcp.Paths.split_extension vcv_rack_mcp.Paths.starts_with vcv_rack_mcp.Prelude.delete
    vcv_rack_mcp.Transactions.split_dot
commit_sends = refl

commit_loud : any replaces outcome.sent ≡ true
unfolding commit_load_or_clear vcv_rack_mcp.Transactions.LoadTokens.verify_load_token
    vcv_rack_mcp.Transactions.LoadTokens.lookup_load_token vcv_rack_mcp.Transactions.authenticate
    mint_load_token vcv_rack_mcp.Transactions.join_dot vcv_rack_mcp.Prelude.lookup
    vcv_rack_mcp.Prelude.insert vcv_rack_mcp.Transactions.LoadTokens.prune_loads
    vcv_rack_mcp.PatchFiles.Replace.accept vcv_rack_mcp.PatchFiles.same_path
    vcv_rack_mcp.PatchFiles.Replace.checkpoint_and_replace vcv_rack_mcp.PatchFiles.create_checkpoint
    vcv_rack_mcp.Paths.Checkpoints.reserve_checkpoint_path vcv_rack_mcp.Paths.Checkpoints.try_names
    vcv_rack_mcp.PatchFiles.Replace.replace_patch
    vcv_rack_mcp.Transactions.LoadTokens.consume_load_token vcv_rack_mcp.Errors.code_name
    vcv_rack_mcp.Errors.normalize_error_code vcv_rack_mcp.Errors.to_error_payload
    vcv_rack_mcp.PatchFiles.Replace.replacement vcv_rack_mcp.PatchFiles.plugin_reported_failure
    vcv_rack_mcp.PatchFiles.require_root vcv_rack_mcp.Paths.Canonical.canonical_allowing_missing
    vcv_rack_mcp.Paths.Canonical.through_link vcv_rack_mcp.Paths.Canonical.up_parents
    vcv_rack_mcp.Paths.Checkpoints.release_checkpoint_reservation
    vcv_rack_mcp.Paths.Policy.canonical_dir vcv_rack_mcp.Paths.Policy.check_request
    vcv_rack_mcp.Paths.Policy.check_target vcv_rack_mcp.Paths.Policy.resolve_patch_path
    vcv_rack_mcp.Paths.Policy.root_of vcv_rack_mcp.Paths.Policy.within vcv_rack_mcp.Paths.ends_with
    vcv_rack_mcp.Paths.has_scheme vcv_rack_mcp.Paths.is_reserved_windows_name
    vcv_rack_mcp.Paths.is_url vcv_rack_mcp.Paths.same_codes vcv_rack_mcp.Paths.scheme_rest
    vcv_rack_mcp.Paths.split_extension vcv_rack_mcp.Paths.starts_with vcv_rack_mcp.Prelude.delete
    vcv_rack_mcp.Transactions.split_dot
commit_loud = refl

commit_load_or_clear-IsConfirmed_example :
    IsConfirmed sample_signer sample_roots args answers minted.0 empty outcome
commit_load_or_clear-IsConfirmed_example =
    commit_load_or_clear-IsConfirmed sample_signer sample_roots args answers minted.0 empty
      commit_loud

commit_load_or_clear_once_example :
    (commit_load_or_clear sample_signer sample_roots args answers outcome.manager empty).sent ≡ []
commit_load_or_clear_once_example =
    commit_load_or_clear_once sample_signer sample_roots args args answers answers minted.0 empty
      empty commit_loud refl

abbrev source : ResolvedPath
source = record { absolute = "/p/a.vcv"; root = patches; exists = true }

resolve-source : resolve_patch_path sample_files sample_roots "/p/a.vcv" true ≡ ok source
unfolding resolve_patch_path vcv_rack_mcp.Paths.Policy.check_request vcv_rack_mcp.Paths.is_url
    vcv_rack_mcp.Paths.has_scheme vcv_rack_mcp.Paths.starts_with vcv_rack_mcp.Paths.ends_with
    vcv_rack_mcp.Paths.same_codes vcv_rack_mcp.Paths.Policy.canonical_dir
    vcv_rack_mcp.Paths.Canonical.canonical_allowing_missing vcv_rack_mcp.Paths.Canonical.up_parents
    vcv_rack_mcp.Paths.Policy.root_of vcv_rack_mcp.Paths.Policy.within
    vcv_rack_mcp.Paths.Policy.check_target
resolve-source = refl

abbrev plain_args : ReplaceArgs
plain_args = record { kind = load; token = minted.1; operation_id = "op"; expected_path = none }

reserve-before : (reserve_checkpoint_path answers.checkpoint_names empty).1 ≡ ok "/c/before.vcv"
unfolding reserve_checkpoint_path vcv_rack_mcp.Paths.Checkpoints.try_names
    vcv_rack_mcp.Prelude.lookup
reserve-before = refl

preview_token :
    (preview_load_patch sample_signer sample_files sample_roots 50 "id" "/p/a.vcv"
      (ok rack)
      (ok live)
      fresh).1
    ≡ ok plain_args.token
preview_token = ap (λ p. p.1) preview_mints

preview_load_patch-commit_example :
    let (m', token) =
      preview_load_patch sample_signer sample_files sample_roots 50 "id" "/p/a.vcv"
        (ok rack)
        (ok live)
        fresh in
    let o = commit_load_or_clear sample_signer sample_roots plain_args answers m' empty in
    (o.sent ≡ load_file "/p/a.vcv" true "op" ∷ save_copy "/c/before.vcv" "copy" ∷ [])
    × (o.result ≡ ok ("/c/before.vcv", "loaded"))
preview_load_patch-commit_example =
    preview_load_patch-commit sample_signer sample_files sample_roots 50 "id" "/p/a.vcv" rack live
      fresh source empty plain_args answers "/c/before.vcv" "saved" "loaded" refl resolve-source
      refl preview_token
      (record {
        loading = refl;
        unnamed = refl;
        instance = refl;
        live_still = refl;
        lease = refl;
        files = refl;
        verified_in_time = omega arith;
        consumed_in_time = omega arith;
        reserved = reserve-before;
        copied = refl;
        replaced = refl;
      })

restore_refused :
    (restore_checkpoint sample_signer sample_roots answers sample_files "/p/a.vcv" none "op"
      (ok rack)
      50
      "id"
      (ok live)
      (ok 9)
      fresh
      empty).result
    ≡ throw (tool_error path_not_allowed)
unfolding restore_checkpoint vcv_rack_mcp.PatchFiles.Restore.check_checkpoint resolve_patch_path
    vcv_rack_mcp.Paths.Policy.check_request vcv_rack_mcp.Paths.is_url vcv_rack_mcp.Paths.has_scheme
    vcv_rack_mcp.Paths.starts_with vcv_rack_mcp.Paths.ends_with vcv_rack_mcp.Paths.same_codes
    vcv_rack_mcp.Paths.Policy.canonical_dir vcv_rack_mcp.Paths.Canonical.canonical_allowing_missing
    vcv_rack_mcp.Paths.Canonical.up_parents vcv_rack_mcp.Paths.Policy.root_of
    vcv_rack_mcp.Paths.Policy.within vcv_rack_mcp.Paths.Policy.check_target
    vcv_rack_mcp.PatchFiles.require_root
restore_refused = refl

abbrev to_restore : LoadTokenBinding
to_restore = record to_load { kind = restore; path = some "/c/r.vcv" }

abbrev minted_restore : TransactionManager × String
minted_restore = mint_load_token sample_signer 50 "id" to_restore fresh

restore_loud :
    any replaces
      (restore_checkpoint sample_signer sample_roots answers sample_files "/c/r.vcv"
        (some minted_restore.1)
        "op"
        (ok rack)
        55
        "other"
        (ok live)
        (ok 9)
        minted_restore.0
        empty).sent
    ≡ true
unfolding restore_checkpoint vcv_rack_mcp.PatchFiles.Restore.check_checkpoint resolve_patch_path
    vcv_rack_mcp.Paths.Policy.check_request vcv_rack_mcp.Paths.is_url vcv_rack_mcp.Paths.has_scheme
    vcv_rack_mcp.Paths.starts_with vcv_rack_mcp.Paths.ends_with vcv_rack_mcp.Paths.same_codes
    vcv_rack_mcp.Paths.Policy.canonical_dir vcv_rack_mcp.Paths.Canonical.canonical_allowing_missing
    vcv_rack_mcp.Paths.Canonical.up_parents vcv_rack_mcp.Paths.Policy.root_of
    vcv_rack_mcp.Paths.Policy.within vcv_rack_mcp.Paths.Policy.check_target
    vcv_rack_mcp.PatchFiles.require_root vcv_rack_mcp.PatchFiles.Restore.restore_resolved
    vcv_rack_mcp.Errors.code_name vcv_rack_mcp.Errors.normalize_error_code
    vcv_rack_mcp.Errors.to_error_payload vcv_rack_mcp.PatchFiles.Replace.accept
    vcv_rack_mcp.PatchFiles.Replace.checkpoint_and_replace commit_load_or_clear
    vcv_rack_mcp.PatchFiles.Replace.replace_patch vcv_rack_mcp.PatchFiles.Replace.replacement
    vcv_rack_mcp.PatchFiles.create_checkpoint vcv_rack_mcp.PatchFiles.mint_for
    vcv_rack_mcp.PatchFiles.plugin_reported_failure vcv_rack_mcp.PatchFiles.same_path
    vcv_rack_mcp.Paths.Canonical.through_link
    vcv_rack_mcp.Paths.Checkpoints.release_checkpoint_reservation reserve_checkpoint_path
    vcv_rack_mcp.Paths.Checkpoints.try_names vcv_rack_mcp.Paths.is_reserved_windows_name
    vcv_rack_mcp.Paths.scheme_rest vcv_rack_mcp.Paths.split_extension vcv_rack_mcp.Prelude.delete
    vcv_rack_mcp.Prelude.insert vcv_rack_mcp.Prelude.lookup
    vcv_rack_mcp.Transactions.LoadTokens.consume_load_token
    vcv_rack_mcp.Transactions.LoadTokens.lookup_load_token mint_load_token
    vcv_rack_mcp.Transactions.LoadTokens.prune_loads
    vcv_rack_mcp.Transactions.LoadTokens.verify_load_token vcv_rack_mcp.Transactions.authenticate
    vcv_rack_mcp.Transactions.join_dot vcv_rack_mcp.Transactions.split_dot
restore_loud = refl

restore_checkpoint-IsRestoration_example :
    IsRestoration sample_signer sample_roots answers sample_files "/c/r.vcv"
      (some minted_restore.1)
      "op"
      minted_restore.0
      empty
      (restore_checkpoint sample_signer sample_roots answers sample_files "/c/r.vcv"
        (some minted_restore.1)
        "op"
        (ok rack)
        55
        "other"
        (ok live)
        (ok 9)
        minted_restore.0
        empty).sent
restore_checkpoint-IsRestoration_example =
    restore_checkpoint-IsRestoration sample_signer sample_roots answers sample_files "/c/r.vcv"
      (some minted_restore.1) "op" (ok rack) 55 "other" (ok live) (ok 9) minted_restore.0 empty
      restore_loud
