-- ===== src/Telemetry/Reports.antt =====
-- telemetry.ts: what a commit reports about the probe that its preview chose, and what a detachment
-- sends.
use vcv_rack_mcp.Prelude.{
  ℕ, ◌+◌, ◌≤◌, ◌≡◌, refl, ◌⊎◌, inl, inr, String, true, false, List, [], ◌∷◌, none, some, str_eq,
  eq_iff, any, find, ◌&&◌, if◌then◌else◌, Bool-cases, arith, ap, ◌∙◌, lookup, insert,
  lookup-insert_self, lookup-delete_self,
}
use vcv_rack_mcp.Errors.{Result, ok, Result-cases}
use vcv_rack_mcp.Operations.{Json}
use vcv_rack_mcp.Connection.{SelectedInstance}
use vcv_rack_mcp.RateLimiter.{RateLimiter, admit, admitted}
use vcv_rack_mcp.Transactions.{TransactionManager, Signer}
use vcv_rack_mcp.Transactions.Preview.{
  PreviewReply, PreviewResult, Expected, preview, count_param_changes,
}
use vcv_rack_mcp.Transactions.Commit.{CommitTimes, commit}
use vcv_rack_mcp.Transactions.Accept.{previewed_request, confirming, commit-preview}
use vcv_rack_mcp.Telemetry.{
  Snapshot, SnapshotCable, AttachMeta, choose_slot, attach_operations, is_over_limit, feeds,
}
use vcv_rack_mcp.Telemetry.Attach.{
  AttachArgs, AttachReply, preview_attach_probe, attach_report, attached_module, cable_name,
}
use vcv_rack_mcp.Telemetry.Detach.{DetachArgs, detach_operations, detach_probe}

find-any :
    (id : String) (i : ℕ) (cables : List SnapshotCable)
    → ((find (feeds id i) cables ≡ none) × (any (feeds id i) cables ≡ false))
      ⊎ ((c : SnapshotCable) × (find (feeds id i) cables ≡ some c)
          × (feeds id i c ≡ true)
          × (any (λ x. feeds id i x && str_eq x.cable_id c.cable_id) cables ≡ true))
find-any id i [] = inl (refl, refl)
find-any id i (c ∷ cables) = elim (Bool-cases (feeds id i c)) [
  | inl here ↦ inr (c, rw here refl, here, ground (arith, here, eq_iff c.cable_id c.cable_id))
  | inr elsewhere ↦ elim (find-any id i cables) [
    | inl (gone, none_feeds) ↦ inl (rw elsewhere gone, ground (arith, elsewhere, none_feeds))
    | inr (d, found, good, there) ↦ inr (d, rw elsewhere found, good, ground (arith, there))
  ]
]

attach_previewed :
    (s : Signer) (now at : ℕ) (args : AttachArgs) (instance : SelectedInstance) (snap : Snapshot)
    (reply : Result PreviewReply) (m : TransactionManager) (metas : List (String × AttachMeta))
    (r : PreviewResult) (slot : AttachMeta)
    → let (m', metas', result) = preview_attach_probe s now at args instance snap reply m metas in
      result ≡ ok (r, slot)
      → (slot ≡ choose_slot snap args.probe)
        × (is_over_limit snap slot ≡ false)
        × (metas' ≡ insert r.preview.plan_hash slot metas)
unfolding preview_attach_probe
attach_previewed s now at args instance snap reply m metas r slot e =
    let chosen = choose_slot snap args.probe in
    let expected : Expected = record {
      fingerprint = none;
      patch_epoch = args.expected_patch_epoch;
    } in
    let tried =
      preview s now at (attach_operations chosen args.source args.port_id) instance expected reply
        m in
    elim (Bool-cases (is_over_limit snap chosen)) [
      | inl over ↦ absurd (ground (arith, over, e))
      | inr within ↦ elim (Result-cases tried.1) [
        | inl (t, failed) ↦ absurd (ground (arith, within, failed, e))
        | inr (q, good) ↦ ground (arith, within, good, e)
      ]
    ]

-- What is reported of a slot that is cached under the hash.
pub report_cached :
    (hash : String) (reply : AttachReply) (snap : Snapshot) (slot : AttachMeta)
    (metas : List (String × AttachMeta))
    → let id = attached_module reply (some slot) in
      let (left, report) = attach_report hash reply snap (insert hash slot metas) in
      (report.probe_module_id ≡ id)
      × (report.probe_input_id ≡ slot.probe_input_id)
      × (lookup hash left ≡ none)
      × (report.cable_id ≡ (
          if str_eq id ""
          then ""
          else cable_name (find (feeds id slot.probe_input_id) snap.cables)))
unfolding attach_report
report_cached hash reply snap slot metas =
    rw (lookup-insert_self hash slot metas)
      (refl, refl, lookup-delete_self hash (insert hash slot metas), refl)

-- If an attachment's preview succeeds, the limit of probes allows its slot, and a commit under its
-- plan hash, with no other preview between them, reports the probe that this slot names, whether by
-- id or by the alias under which the bridge has added it, and the slot's input. The slot is then no
-- longer cached, and a cable that is reported is a cable of the new snapshot into that input.
pub attach_report-preview :
    (s : Signer) (now at : ℕ) (args : AttachArgs) (instance : SelectedInstance) (snap : Snapshot)
    (reply : Result PreviewReply) (m : TransactionManager) (metas : List (String × AttachMeta))
    (r : PreviewResult) (slot : AttachMeta) (answer : AttachReply) (later : Snapshot)
    → let (m', metas', result) = preview_attach_probe s now at args instance snap reply m metas in
      result ≡ ok (r, slot)
      → let (left, report) = attach_report r.preview.plan_hash answer later metas' in
        let chosen = choose_slot snap args.probe in
        (is_over_limit snap chosen ≡ false)
        × (report.probe_module_id ≡ attached_module answer (some chosen))
        × (report.probe_input_id ≡ chosen.probe_input_id)
        × (lookup r.preview.plan_hash left ≡ none)
        × ((report.cable_id ≡ "")
            ⊎ (any
                  (λ c.
                    feeds report.probe_module_id report.probe_input_id c
                    && str_eq c.cable_id report.cable_id)
                  later.cables
                ≡ true))
attach_report-preview s now at args instance snap reply m metas r slot answer later e =
    let (same, within, cached) =
      attach_previewed s now at args instance snap reply m metas r slot e in
    let hash = r.preview.plan_hash in
    let chosen = choose_slot snap args.probe in
    let id = attached_module answer (some chosen) in
    rw (cached, same)
      (let (module_, input_, gone, cable) = report_cached hash answer later chosen metas in
        (
          rw same at within,
          module_,
          input_,
          gone,
          rw (module_, input_, cable)
              (elim (Bool-cases (str_eq id "")) [
                | inl unknown ↦ rw unknown (inl refl)
                | inr known ↦ rw known (elim (find-any id chosen.probe_input_id later.cables) [
                  | inl (none_there, unfed) ↦ rw none_there (inl refl)
                  | inr (c, found, good, there) ↦ rw found (inr there)
                ])
              ]),
        ))

detach_previewed :
    (s : Signer) (now at : ℕ) (times : CommitTimes) (args : DetachArgs)
    (instance : SelectedInstance) (before : Snapshot) (reply : Result PreviewReply)
    (lease : Result (Unit {0})) (answer : Result Json) (m : TransactionManager) (r : PreviewResult)
    → let expected : Expected = record {
      fingerprint = none;
      patch_epoch = args.expected_patch_epoch;
    } in
      let (m', result) = preview s now at (detach_operations args) instance expected reply m in
      result ≡ ok r
      → (detach_probe s now at times args instance before reply lease answer m).0
        ≡ commit s times (confirming args.operation_id instance r) lease answer m'
unfolding detach_probe
detach_previewed s now at times args instance before reply lease answer m r e =
    rw (e, detach_probe) refl

pub unlimited : (cut at : ℕ) (l : RateLimiter) → admit cut at 0 l ≡ admitted l
unfolding admit
unlimited cut at l = ground arith

-- If the preview of a detachment succeeds and its commit follows within five minutes with the writer
-- lease held, the commit sends exactly the previewed plan with the epoch of the preview, in whatever
-- state the rate limiter is.
pub detach_probe-preview :
    (s : Signer) (now at : ℕ) (times : CommitTimes) (args : DetachArgs)
    (instance : SelectedInstance) (before : Snapshot) (reply : Result PreviewReply)
    (answer : Result Json) (m : TransactionManager) (r : PreviewResult)
    → times.pruned ≤ at + 300_000
    → times.verified ≤ at + 300_000
    → let expected : Expected = record {
      fingerprint = none;
      patch_epoch = args.expected_patch_epoch;
    } in
      (preview s now at (detach_operations args) instance expected reply m).1 ≡ ok r
      → (detach_probe s now at times args instance before reply (ok tt) answer m).0.sent
        ≡ previewed_request args.operation_id instance r.preview ∷ []
unfolding count_param_changes
detach_probe-preview s now at times args instance before reply answer m r pruned verified e =
    let expected : Expected = record {
      fingerprint = none;
      patch_epoch = args.expected_patch_epoch;
    } in
    ap (λ o. o.sent)
      (detach_previewed s now at times args instance before reply (ok tt) answer m r e)
    ∙ commit-preview s now at (detach_operations args) instance expected reply m r times
        args.operation_id answer m.limiter e pruned verified
        (unlimited times.cut times.at m.limiter)
