-- ===== src/Telemetry/Detach.antt =====
-- telemetry.ts: a probe is detached by a plan that is previewed and committed at once.
use vcv_rack_mcp.Prelude.{ℕ, String, List, [], ◌∷◌, map, Option, none, some, filter}
use vcv_rack_mcp.Errors.{Result, ok, throw}
use vcv_rack_mcp.Operations.{Json, PatchOperation, module_id, input, disconnect_port, all_cables}
use vcv_rack_mcp.Connection.{SelectedInstance}
use vcv_rack_mcp.Transactions.{TransactionManager, Signer}
use vcv_rack_mcp.Transactions.Preview.{PreviewReply, Expected, preview}
use vcv_rack_mcp.Transactions.Commit.{CommitArgs, CommitTimes, CommitOutcome, commit}
use vcv_rack_mcp.Telemetry.{Snapshot, feeds}

pub record DetachArgs : Type 0 where
  pub operation_id : String
  pub probe_module_id : String
  pub probe_input_id : ℕ
  pub expected_patch_epoch : Option ℕ

abbrev pub detach_operations : DetachArgs → List PatchOperation
detach_operations args =
    disconnect_port
      (record {
        target = module_id args.probe_module_id;
        port_type = input;
        port_id = args.probe_input_id;
      })
      all_cables
    ∷ []

-- `detachProbe`: the commit's outcome, with the cables that fed the input before.
unfoldable pub detach_probe :
    Signer
    → ℕ
    → ℕ
    → CommitTimes
    → DetachArgs
    → SelectedInstance
    → Snapshot
    → Result PreviewReply
    → Result (Unit {0})
    → Result Json
    → TransactionManager
    → CommitOutcome × List String
detach_probe s now at times args instance before reply lease answer m =
    let removed =
      map (λ c. c.cable_id)
        (filter (feeds args.probe_module_id args.probe_input_id) before.cables) in
    let expected : Expected = record {
      fingerprint = none;
      patch_epoch = args.expected_patch_epoch;
    } in
    let (m', result) = preview s now at (detach_operations args) instance expected reply m in
    elim result [
      | throw e ↦ (record { manager = m'; sent = []; result = throw e }, removed)
      | ok r ↦
          let request : CommitArgs = record {
            operation_id = args.operation_id;
            plan_hash = r.preview.plan_hash;
            expected_fingerprint = r.preview.base_fingerprint;
            confirmation_token = some r.confirmation.token;
            instance = instance;
          } in
          (commit s times request lease answer m', removed)
    ]
