-- ===== src/Telemetry/Attached.antt =====
-- telemetry.ts: a previewed attachment that is confirmed is committed, and reported with its slot.
use vcv_rack_mcp.Prelude.{
  eq_iff, ◌≢◌, ℕ, ◌+◌, ◌≤◌, ◌≡◌, refl, inl, inr, String, true, false, List, [], ◌∷◌, none, some,
  str_eq, arith, ap, ◌∙◌, sym, subst, Bool-cases, lookup, insert, lookup-insert_self, ◌⊎◌, any,
  ◌&&◌,
}
use vcv_rack_mcp.Errors.{Result, ok, Result-cases}
use vcv_rack_mcp.Operations.{Json}
use vcv_rack_mcp.Connection.{SelectedInstance}
use vcv_rack_mcp.RateLimiter.{admit, admitted}
use vcv_rack_mcp.Transactions.{TransactionManager, Signer}
use vcv_rack_mcp.Transactions.Preview.{
  PreviewReply, PreviewResult, Expected, preview, count_param_changes, prune_expired,
}
use vcv_rack_mcp.Transactions.Commit.{
  CommitArgs, CommitTimes, CommitRequest, commit, send_commit, authorised,
}
use vcv_rack_mcp.Transactions.Safety.{
  Admission-cases, commit_refused, commit_admitted, commit_limited,
}
use vcv_rack_mcp.Transactions.Accept.{previewed_request, confirming, commit-preview}
use vcv_rack_mcp.Telemetry.{
  Snapshot, AttachMeta, choose_slot, attach_operations, is_over_limit, feeds,
}
use vcv_rack_mcp.Telemetry.Attach.{
  AttachArgs, AttachReply, AttachReport, preview_attach_probe, attach_report, attached_module,
  report_attached, commit_attach_probe,
}
use vcv_rack_mcp.Telemetry.Reports.{unlimited, report_cached, attach_report-preview}

-- A commit that has sent its request returns what the bridge replies.
commit-answered :
    (s : Signer) (times : CommitTimes) (args : CommitArgs) (answer : Json) (m : TransactionManager)
    (r : CommitRequest)
    → (commit s times args (ok tt) (ok answer) m).sent ≡ r ∷ []
    → (commit s times args (ok tt) (ok answer) m).result ≡ ok answer
unfolding send_commit
commit-answered s times args answer m r sent =
    let pruned = prune_expired times.pruned m in
    elim (Result-cases (authorised s times.verified args pruned)) [
      | inl (e, refused) ↦
          absurd (ground (arith, commit_refused s times args (ok tt) (ok answer) m refused, sent))
      | inr (plan, passed) ↦
          elim (Admission-cases (admit times.cut times.at plan.param_changes pruned.limiter)) [
            | inr (ms, (l, late)) ↦ absurd (
                ground (arith, commit_limited s times args (ok tt) (ok answer) m passed late, sent))
            | inl (l, allowed) ↦
                ground (arith, commit_admitted s times args (ok tt) (ok answer) m passed allowed)
          ]
    ]

unchanging :
    (slot : AttachMeta) (source : String) (port : ℕ)
    → count_param_changes (attach_operations slot source port) ≡ 0
unfolding count_param_changes attach_operations
unchanging slot source port = elim (Bool-cases slot.adds_probe_module) [
  | inl new ↦ ground (arith, new)
  | inr old ↦ ground (arith, old)
]

-- What is reported once the bridge has replied and the fresh snapshot is there.
report_attached-snapshot :
    (hash : String) (answer : Json) (reply : AttachReply) (later : Snapshot)
    (metas : List (String × AttachMeta))
    → str_eq (attached_module reply (lookup hash metas)) "" ≡ false
    → report_attached hash answer reply (ok later) metas ≡ (
      (attach_report hash reply later metas).0,
      ok (answer, (attach_report hash reply later metas).1),
    )
unfolding report_attached attach_report
report_attached-snapshot hash answer reply later metas known = rw (known, report_attached) refl

-- The transaction that the preview of an attachment has previewed.
attach_inner :
    (s : Signer) (now at : ℕ) (args : AttachArgs) (instance : SelectedInstance) (snap : Snapshot)
    (reply : Result PreviewReply) (m : TransactionManager) (metas : List (String × AttachMeta))
    (r : PreviewResult) (slot : AttachMeta)
    → let expected : Expected = record {
      fingerprint = none;
      patch_epoch = args.expected_patch_epoch;
    } in
      let tried =
        preview s now at
          (attach_operations slot args.source args.port_id)
          instance
          expected
          reply
          m in
      let (m', metas', result) = preview_attach_probe s now at args instance snap reply m metas in
      result ≡ ok (r, slot)
      → (tried.1 ≡ ok r) × (m' ≡ tried.0) × (metas' ≡ insert r.preview.plan_hash slot metas)
unfolding preview_attach_probe
attach_inner s now at args instance snap reply m metas r slot e =
    let chosen = choose_slot snap args.probe in
    let expected : Expected = record {
      fingerprint = none;
      patch_epoch = args.expected_patch_epoch;
    } in
    let tried =
      preview s now at (attach_operations chosen args.source args.port_id) instance expected reply
        m in
    elim (Bool-cases (is_over_limit snap chosen)) [
      | inl over ↦ absurd (ground (arith, over, e))
      | inr within ↦ elim (Result-cases tried.1) [
        | inl (t, failed) ↦ absurd (ground (arith, within, failed, e))
        | inr (q, good) ↦
            let same : chosen ≡ slot = ground (arith, within, good, e) in
            let same_result : q ≡ r = ground (arith, within, good, e) in
            rw (sym same) (
              ground (arith, within, good, e, same_result),
              ground (arith, within, good),
              ground (arith, within, good, same, same_result),
            )
      ]
    ]

commit_attach_probe-ok :
    (s : Signer) (times : CommitTimes) (args : CommitArgs) (answer : Json)
    (read : Json → AttachReply) (later : Snapshot) (m : TransactionManager)
    (metas : List (String × AttachMeta))
    → (commit s times args (ok tt) (ok answer) m).result ≡ ok answer
    → str_eq (attached_module (read answer) (lookup args.plan_hash metas)) "" ≡ false
    → let o = commit_attach_probe s times args (ok tt) (ok answer) read (ok later) m metas in
      let (left, report) = attach_report args.plan_hash (read answer) later metas in
      (o.sent ≡ (commit s times args (ok tt) (ok answer) m).sent)
      × (o.result ≡ ok (answer, report))
      × (o.metas ≡ left)
unfolding commit_attach_probe
commit_attach_probe-ok s times args answer read later m metas done known =
    let reported = report_attached-snapshot args.plan_hash answer (read answer) later metas known in
    (ground (arith, done), ground (arith, done, reported), ground (arith, done, reported))

-- The probe of a slot: the module that the slot gives, or, where it gives none, the module that the
-- bridge's reply gives for the slot's alias.
pub record IsProbeOf (slot : AttachMeta) (reply : AttachReply) (id : String) : Type 0 where
  pub named : id ≢ ""
  pub which :
      (slot.probe_module_id ≡ some id)
      ⊎ (((slot.probe_module_id ≡ none) ⊎ (slot.probe_module_id ≡ some ""))
          × ((name : String) × (name ≢ "")
              × (slot.probe_alias ≡ some name)
              × (lookup name reply.alias_to_module_id ≡ some id)))

attached_module_lem :
    (slot : AttachMeta) (reply : AttachReply) (id : String)
    → IsProbeOf slot reply id
    → attached_module reply (some slot) ≡ id
unfolding attached_module
attached_module_lem slot reply id p = elim p.which [
  | inl given ↦ ground (arith, given, eq_iff id "", p.named)
  | inr (inl free, (name, known, alias_, found)) ↦
      rw (free, alias_, attached_module) (ground (arith, found, eq_iff name "", known))
  | inr (inr empty, (name, known, alias_, found)) ↦
      rw (empty, alias_, attached_module) (ground (arith, found, eq_iff name "", known))
]

-- After an attachment's preview has succeeded, its confirmation within five minutes, with the lease
-- held, commits exactly the previewed plan. Where a module is the slot's probe, by its id or by the
-- alias under which the bridge's reply has it, the report names that module and the slot's input, the
-- slot is no longer cached, and a cable that is reported is a cable of the new snapshot into that
-- input.
pub commit_attach_probe-preview :
    (s : Signer) (now at : ℕ) (args : AttachArgs) (instance : SelectedInstance) (snap : Snapshot)
    (reply : Result PreviewReply) (m : TransactionManager) (metas : List (String × AttachMeta))
    (r : PreviewResult) (slot : AttachMeta) (times : CommitTimes) (operation_id : String)
    (answer : Json) (read : Json → AttachReply) (later : Snapshot) (id : String)
    → let (m', metas', result) = preview_attach_probe s now at args instance snap reply m metas in
      let request = confirming operation_id instance r in
      let o = commit_attach_probe s times request (ok tt) (ok answer) read (ok later) m' metas' in
      result ≡ ok (r, slot)
      → times.pruned ≤ at + 300_000
      → times.verified ≤ at + 300_000
      → IsProbeOf slot (read answer) id
      → (o.sent ≡ previewed_request operation_id instance r.preview ∷ [])
        × ((report : AttachReport) × (o.result ≡ ok (answer, report))
            × (report.probe_module_id ≡ id)
            × (report.probe_input_id ≡ slot.probe_input_id)
            × (lookup r.preview.plan_hash o.metas ≡ none)
            × ((report.cable_id ≡ "")
                ⊎ (any
                      (λ c.
                        feeds report.probe_module_id report.probe_input_id c
                        && str_eq c.cable_id report.cable_id)
                      later.cables
                    ≡ true)))
commit_attach_probe-preview s now at args instance snap reply m metas r slot times operation_id
      answer read later id e pruned verified probe =
    let is : attached_module (read answer) (some slot) ≡ id =
      attached_module_lem slot (read answer) id probe in
    let known : str_eq (attached_module (read answer) (some slot)) "" ≡ false =
      rw is (ground (arith, eq_iff id "", probe.named)) in
    let expected : Expected = record {
      fingerprint = none;
      patch_epoch = args.expected_patch_epoch;
    } in
    let operations = attach_operations slot args.source args.port_id in
    let (previewed, same, cached) =
      attach_inner s now at args instance snap reply m metas r slot e in
    let request = confirming operation_id instance r in
    let metas' = insert r.preview.plan_hash slot metas in
    let allowed : admit times.cut times.at (count_param_changes operations) m.limiter
        ≡ admitted m.limiter =
      subst (λ n. admit times.cut times.at n m.limiter ≡ admitted m.limiter)
        (sym (unchanging slot args.source args.port_id)) (unlimited times.cut times.at m.limiter) in
    let sent =
      commit-preview s now at operations instance expected reply m r times operation_id (ok answer)
        m.limiter previewed pruned verified allowed in
    let after = (preview s now at operations instance expected reply m).0 in
    let done = commit-answered s times request answer after _ sent in
    let held = lookup-insert_self r.preview.plan_hash slot metas in
    let (whole, result, left) =
      commit_attach_probe-ok s times request answer read later after metas' done
        (rw (held) known) in
    let (module_, input_, gone, _) =
      report_cached r.preview.plan_hash (read answer) later slot metas in
    let (_, _, _, _, cable) =
      attach_report-preview s now at args instance snap reply m metas r slot (read answer) later
        e in
    rw (same, cached)
      (
        whole ∙ sent,
        (
          (attach_report r.preview.plan_hash (read answer) later metas').1,
          result,
          module_ ∙ is,
          input_,
          ap (λ l. lookup r.preview.plan_hash l) left ∙ gone,
          rw (sym cached) cable,
        ),
      )
