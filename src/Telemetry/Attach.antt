-- ===== src/Telemetry/Attach.antt =====
-- telemetry.ts: the preview and the commit of a probe's attachment, with the slots cached between them.
use vcv_rack_mcp.Prelude.{
  ℕ, String, not, List, [], Option, none, some, str_eq, find, if◌then◌else◌, lookup, insert, delete,
}
use vcv_rack_mcp.Errors.{Result, ok, throw, tool_error, telemetry_unavailable}
use vcv_rack_mcp.Operations.{Json}
use vcv_rack_mcp.Connection.{SelectedInstance}
use vcv_rack_mcp.Transactions.{TransactionManager, Signer}
use vcv_rack_mcp.Transactions.Preview.{PreviewReply, PreviewResult, Expected, preview}
use vcv_rack_mcp.Transactions.Commit.{CommitArgs, CommitTimes, CommitRequest, commit}
use vcv_rack_mcp.Telemetry.{
  Snapshot, SnapshotCable, AttachMeta, choose_slot, attach_operations, is_over_limit, given_name,
  feeds,
}

pub record AttachArgs : Type 0 where
  pub source : String
  pub port_id : ℕ
  pub probe : Option (String × ℕ)
  pub expected_patch_epoch : Option ℕ

-- `previewAttachProbe`: the manager and the cached slots afterwards, and the preview with its slot.
unfoldable pub preview_attach_probe :
    Signer
    → ℕ
    → ℕ
    → AttachArgs
    → SelectedInstance
    → Snapshot
    → Result PreviewReply
    → TransactionManager
    → List (String × AttachMeta)
    → TransactionManager × List (String × AttachMeta) × Result (PreviewResult × AttachMeta)
preview_attach_probe s now at args instance snap reply m metas =
    let slot = choose_slot snap args.probe in
    let expected : Expected = record {
      fingerprint = none;
      patch_epoch = args.expected_patch_epoch;
    } in
    let (m', result) =
      preview s now at (attach_operations slot args.source args.port_id) instance expected reply
        m in
    if is_over_limit snap slot
    then (m, metas, throw (tool_error telemetry_unavailable))
    else elim result [
      | throw e ↦ (m', metas, throw e)
      | ok r ↦ (m', insert r.preview.plan_hash slot metas, ok (r, slot))
    ]

-- The bridge's reply to a commit, as far as it is read.
pub record AttachReply : Type 0 where
  pub alias_to_module_id : List (String × String)

pub record AttachReport : Type 0 where
  pub probe_module_id : String
  pub probe_input_id : ℕ
  pub cable_id : String

abbrev pub alias_of : Option AttachMeta → Option String
alias_of none = none
alias_of (some slot) = slot.probe_alias

-- `if (!probeModuleId && meta?.probeAlias) …`: an empty id counts as none.
unfoldable pub attached_module : AttachReply → Option AttachMeta → String
attached_module reply none = ""
attached_module reply (some slot) =
    let known = given_name slot.probe_module_id in
    let name = given_name slot.probe_alias in
    if not (str_eq known "")
    then known
    else if str_eq name ""
    then ""
    else given_name (lookup name reply.alias_to_module_id)

abbrev pub attached_input : Option AttachMeta → ℕ
attached_input none = 0
attached_input (some slot) = slot.probe_input_id

abbrev pub cable_name : Option SnapshotCable → String
cable_name none = ""
cable_name (some c) = c.cable_id

-- What `commitAttachProbe` reports after its commit, and the slots that stay cached.
unfoldable pub attach_report :
    String
    → AttachReply
    → Snapshot
    → List (String × AttachMeta)
    → List (String × AttachMeta) × AttachReport
attach_report plan_hash reply snap metas =
    let meta = lookup plan_hash metas in
    let id = attached_module reply meta in
    let i = attached_input meta in
    (
      delete plan_hash metas,
      record {
        probe_module_id = id;
        probe_input_id = i;
        cable_id = if str_eq id "" then "" else cable_name (find (feeds id i) snap.cables);
      },
    )

pub record AttachOutcome : Type 0 where
  pub manager : TransactionManager
  pub metas : List (String × AttachMeta)
  pub sent : List CommitRequest
  pub result : Result (Json × AttachReport)

abbrev pub empty_snapshot : Snapshot
empty_snapshot = record { modules = []; cables = [] }

-- What `commitAttachProbe` does once its commit has succeeded: `later` is the fresh snapshot, which it
-- asks for only if it knows the module.
unfoldable pub report_attached :
    String
    → Json
    → AttachReply
    → Result Snapshot
    → List (String × AttachMeta)
    → List (String × AttachMeta) × Result (Json × AttachReport)
report_attached plan_hash answer reply later metas =
    let unseen = attach_report plan_hash reply empty_snapshot metas in
    if str_eq (attached_module reply (lookup plan_hash metas)) ""
    then (unseen.0, ok (answer, unseen.1))
    else (
      unseen.0,
      elim later [
        | throw e ↦ throw e
        | ok snap ↦ ok (answer, (attach_report plan_hash reply snap metas).1)
      ],
    )

-- `commitAttachProbe`: `read` finds the aliases in the bridge's reply.
unfoldable pub commit_attach_probe :
    Signer
    → CommitTimes
    → CommitArgs
    → (lease : Result (Unit {0})) → (reply : Result Json) → (read : Json → AttachReply)
    → (later : Result Snapshot) → TransactionManager
    → List (String × AttachMeta)
    → AttachOutcome
commit_attach_probe s times args lease reply read later m metas =
    let o = commit s times args lease reply m in
    elim o.result [
      | throw e ↦ record { manager = o.manager; metas = metas; sent = o.sent; result = throw e }
      | ok answer ↦
          let (left, reported) = report_attached args.plan_hash answer (read answer) later metas in
          record { manager = o.manager; metas = left; sent = o.sent; result = reported }
    ]
