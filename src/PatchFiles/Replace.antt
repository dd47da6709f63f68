-- ===== src/PatchFiles/Replace.antt =====
-- patchfiles.ts: `commitLoadOrClear`, the only way to the requests that replace the patch.
use vcv_rack_mcp.Prelude.{
  ℕ, String, Bool, true, false, List, [], ◌∷◌, Option, none, some, str_eq, ◌==◌, ◌&&◌,
}
use vcv_rack_mcp.Errors.{
  Thrown, tool, Result, ok, throw, guard, ◌>>=◌, ◌>>◌, to_error_payload, confirmation_required,
  stale_patch_epoch, patch_conflict,
}
use vcv_rack_mcp.Operations.{Json}
use vcv_rack_mcp.Connection.{SelectedInstance}
use vcv_rack_mcp.Transactions.{
  LoadKind, load, clear, restore, LoadTokenBinding, TransactionManager, Signer,
}
use vcv_rack_mcp.Transactions.LoadTokens.{verify_load_token, consume_load_token}
use vcv_rack_mcp.Paths.{FileSystem}
use vcv_rack_mcp.Paths.Policy.{patches, checkpoints, PatchDirectories, resolve_patch_path}
use vcv_rack_mcp.Paths.Checkpoints.{Directory}
use vcv_rack_mcp.PatchFiles.{
  PatchFingerprint, BridgeCall, load_file, clear_patch, require_root, same_path, same_kind,
  create_checkpoint,
}

pub record ReplaceArgs : Type 0 where
  pub kind : LoadKind
  pub token : String
  pub operation_id : String
  pub expected_path : Option String

-- What the surroundings answer in the course of one call, in the order in which they are asked.
pub record Answers : Type 1 where
  pub instance : Result SelectedInstance
  pub verified_at : ℕ
  pub live : Result PatchFingerprint
  pub lease : Result (Unit {0})
  pub checkpoint_names : Result (ℕ → String)
  pub checkpoint_id : String
  pub copied : Result Json
  pub copied_size : ℕ
  pub consumed_at : ℕ
  pub files : FileSystem
  pub replaced : Result Json

pub record ReplaceOutcome : Type 0 where
  pub manager : TransactionManager
  pub directory : Directory
  pub sent : List BridgeCall
  -- The recovery checkpoint and the bridge's reply.
  pub result : Result (String × Json)

abbrev pub is_bound : FileSystem → ReplaceArgs → LoadTokenBinding → Bool
is_bound fs a b = elim a.expected_path [ none ↦ true | some path ↦ same_path fs b.path path ]

-- The tests between the verification of the token and the recovery checkpoint.
unfoldable pub accept :
    ReplaceArgs → Answers → SelectedInstance → LoadTokenBinding → Result (Unit {0})
accept a w i b = do
  guard
      (same_kind b.kind a.kind
        && str_eq b.instance_id i.instance_id
        && str_eq b.session_id i.session_id)
      confirmation_required
  guard (is_bound w.files a b) confirmation_required
  live ← w.live
  guard (live.patch_epoch == b.patch_epoch) stale_patch_epoch
  guard (str_eq live.fingerprint b.fingerprint) patch_conflict
  w.lease

abbrev pub bound_path : LoadTokenBinding → String
bound_path b = elim b.path [ none ↦ "" | some p ↦ p ]

-- The request that replaces the patch, after the policy has been asked again.
unfoldable pub replacement :
    PatchDirectories → FileSystem → LoadKind → String → LoadTokenBinding → Result BridgeCall
replacement config fs clear operation_id b = ok (clear_patch operation_id)
replacement config fs load operation_id b = do
  resolved ← resolve_patch_path fs config (bound_path b) true
  require_root patches resolved
  ok (load_file resolved.absolute true operation_id)
replacement config fs restore operation_id b = do
  resolved ← resolve_patch_path fs config (bound_path b) true
  require_root checkpoints resolved
  ok (load_file resolved.absolute false operation_id)

-- A failed checkpoint is thrown again with its code, as retry-safe.
abbrev pub checkpoint_failed : Thrown → Thrown
checkpoint_failed e = tool (record {
  code = (to_error_payload e []).code;
  retry_safe = true;
  mutation_may_have_occurred = false;
})

module _ (s : Signer) (config : PatchDirectories) (a : ReplaceArgs) (w : Answers) where
  -- From the consumption of the token on.
  unfoldable pub replace_patch :
      LoadTokenBinding → String → TransactionManager → Directory → List BridgeCall → ReplaceOutcome
  replace_patch b recovery m d sent =
      let (m', consumed) = consume_load_token s w.consumed_at a.token m in
      elim consumed [
        | throw e ↦ record { manager = m'; directory = d; sent = sent; result = throw e }
        | ok _ ↦ elim (replacement config w.files a.kind a.operation_id b) [
          | throw e ↦ record { manager = m'; directory = d; sent = sent; result = throw e }
          | ok call ↦ record {
            manager = m';
            directory = d;
            sent = call ∷ sent;
            result = elim w.replaced [ throw e ↦ throw e | ok reply ↦ ok (recovery, reply) ];
          }
        ]
      ]

  -- From the recovery checkpoint on.
  unfoldable pub checkpoint_and_replace :
      LoadTokenBinding → TransactionManager → Directory → ReplaceOutcome
  checkpoint_and_replace b m d =
      let copy = create_checkpoint w.checkpoint_names w.checkpoint_id w.copied w.copied_size d in
      elim copy.result [
        | throw e ↦ record {
          manager = m;
          directory = copy.directory;
          sent = copy.sent;
          result = throw (checkpoint_failed e);
        }
        | ok (recovery, reply) ↦ replace_patch b recovery m copy.directory copy.sent
      ]

  -- The requests sent stand with the last one first.
  unfoldable pub commit_load_or_clear : TransactionManager → Directory → ReplaceOutcome
  commit_load_or_clear m d = elim w.instance [
    | throw e ↦ record { manager = m; directory = d; sent = []; result = throw e }
    | ok i ↦
        let (m', verified) = verify_load_token s w.verified_at a.token m in
        elim verified [
          | throw e ↦ record { manager = m'; directory = d; sent = []; result = throw e }
          | ok b ↦ elim (accept a w i b) [
            | throw e ↦ record { manager = m'; directory = d; sent = []; result = throw e }
            | ok _ ↦ checkpoint_and_replace b m' d
          ]
        ]
  ]
