-- ===== src/Tools/Unattended.antt =====
-- tools.ts: when a plan is committed without a confirmation.
use vcv_rack_mcp.Prelude.{
  ◌+◌, ◌≤◌, ◌≡◌, refl, ◌↔◌, inl, inr, true, false, List, [], ◌∷◌, some, lookup, arith, Bool-cases,
  not, ◌||◌, subst, ap, ◌∙◌,
}
use vcv_rack_mcp.Errors.{Thrown, Result, ok, throw, Result-cases}
use vcv_rack_mcp.Operations.{PatchOperation}
use vcv_rack_mcp.Connection.{SelectedInstance}
use vcv_rack_mcp.RateLimiter.{RateLimiter, admit, admitted}
use vcv_rack_mcp.Transactions.{TransactionManager, Signer}
use vcv_rack_mcp.Transactions.Preview.{
  PreviewResult, preview, cached_plan, prune_expired, count_param_changes,
}
use vcv_rack_mcp.Transactions.Accept.{previewed_request}
use vcv_rack_mcp.Transactions.Commit.{CommitRequest, commit, commit_request}
use vcv_rack_mcp.Transactions.Safety.{Sends, commit-sent_iff}
use vcv_rack_mcp.Transactions.Cycle.{lookup-prune_live, preview_cases}
use vcv_rack_mcp.Tools.Build.{
  BuildOptions, BuildAnswers, BuildOutcome, unattended, expected_epoch, maybe_commit,
  preview_and_maybe_commit,
}

module _ (s : Signer) (w : BuildAnswers) (instance : SelectedInstance)
    (operations : List PatchOperation) (opts : BuildOptions) (m : TransactionManager) where
  abbrev Previewed : TransactionManager × Result PreviewResult
  Previewed =
      preview s w.pruned_at w.previewed_at operations instance
        (expected_epoch opts.expected_patch_epoch) w.reply m

  -- The conditions for a commit that nobody is asked about, and what it sends.
  pub record IsUnattended (r : CommitRequest) : Type 0 where
    pub result : PreviewResult
    pub previewed :
        (preview s w.pruned_at w.previewed_at operations instance
          (expected_epoch opts.expected_patch_epoch)
          w.reply
          m).1
        ≡ ok result
    pub wanted : opts.auto_commit ≡ true
    pub harmless : result.preview.confirmation_required ≡ false
    pub in_rate :
        (l : RateLimiter) × (admit w.times.cut w.times.at (count_param_changes operations) m.limiter
          ≡ admitted l)
    pub lease : w.lease ≡ ok tt
    pub request : r ≡ previewed_request opts.operation_id instance result.preview

  preview-same :
      (result : PreviewResult)
      → Previewed.1 ≡ ok result
      → (result.confirmation.required ≡ result.preview.confirmation_required)
        × (Previewed.0.limiter ≡ m.limiter)
  unfolding preview
  preview-same result done = (ground (arith, done), ground (arith, done))

  -- A commit right after the preview sends what the preview cached.
  unattended-Sends_iff :
      (result : PreviewResult) (r : CommitRequest)
      → Previewed.1 ≡ ok result
      → w.times.pruned ≤ w.previewed_at + 300_000
      → Sends s w.times (unattended opts.operation_id instance result) w.lease Previewed.0 r ↔ (
          (result.preview.confirmation_required ≡ false)
          × ((l : RateLimiter) × (admit w.times.cut w.times.at
                  (count_param_changes operations)
                  m.limiter
                ≡ admitted l))
          × (w.lease ≡ ok tt)
          × (r ≡ previewed_request opts.operation_id instance result.preview))
  unfolding cached_plan prune_expired commit_request
  unattended-Sends_iff result r done early =
      let plan = cached_plan operations instance result.preview (w.previewed_at + 300_000) in
      let args = unattended opts.operation_id instance result in
      let (_, limiter) = preview-same result done in
      elim (preview_cases s w.pruned_at w.previewed_at operations instance
        (expected_epoch opts.expected_patch_epoch) w.reply m) [
          | inl (e, failed, _) ↦ absurd (ground arith)
          | inr (result', done', p) ↦
              let one : result' ≡ result = ground arith in
              let stored : lookup result.preview.plan_hash Previewed.0.plans ≡ some plan =
                subst
                  (λ (x : PreviewResult).
                    lookup x.preview.plan_hash Previewed.0.plans
                    ≡ some (cached_plan operations instance x.preview (w.previewed_at + 300_000)))
                  one p.stored in
              let live : lookup result.preview.plan_hash
                    (prune_expired w.times.pruned Previewed.0).plans
                  ≡ some plan =
                lookup-prune_live result.preview.plan_hash w.times.pruned Previewed.0.plans plan
                  stored early in
              (
                λ (plan', a, (l, allowed), held, same).
                    let this : plan' ≡ plan = ground (arith, a.found, live) in
                    (
                      elim (Bool-cases result.preview.confirmation_required) [
                        | inr harmless ↦ harmless
                        | inl needed ↦
                            let c = a.confirmed (ground (arith, this, needed)) in
                            let supplied = c.supplied in absurd (ground (arith, supplied))
                      ],
                      (l, ground (arith, this, allowed, limiter)),
                      held,
                      same ∙ ap (λ x. commit_request args x) this,
                    ),
                λ (harmless, (l, allowed), held, same). (
                  plan,
                  record {
                    found = live;
                    instance_id = refl;
                    session_id = refl;
                    fingerprint = refl;
                    confirmed = λ needed. absurd (ground (arith, harmless, needed));
                  },
                  (l, rw limiter allowed),
                  held,
                  same,
                ),
              )
        ]

  maybe_commit-quiet :
      (n : TransactionManager) (result : PreviewResult)
      → (not opts.auto_commit || result.confirmation.required) ≡ true
      → (maybe_commit s w instance opts n result).sent ≡ []
  unfolding maybe_commit
  maybe_commit-quiet n result stop = ground (arith, stop)

  maybe_commit-commits :
      (n : TransactionManager) (result : PreviewResult)
      → (not opts.auto_commit || result.confirmation.required) ≡ false
      → (maybe_commit s w instance opts n result).sent
        ≡ (commit s w.times
            (unattended opts.operation_id instance result)
            w.lease
            w.committed
            n).sent
  unfolding maybe_commit
  maybe_commit-commits n result go = ground (arith, go)

  previewed-sent :
      (result : PreviewResult)
      → Previewed.1 ≡ ok result
      → preview_and_maybe_commit s w instance operations opts m
        ≡ maybe_commit s w instance opts Previewed.0 result
  unfolding preview_and_maybe_commit
  previewed-sent result done = ground (arith, done)

  failed-sent :
      (e : Thrown)
      → Previewed.1 ≡ throw e
      → (preview_and_maybe_commit s w instance operations opts m).sent ≡ []
  unfolding preview_and_maybe_commit
  failed-sent e failed = ground (arith, failed)

  -- A build sends the commit `r`, and no other, exactly if: the preview succeeded, the caller wants
  -- the plan committed, the bridge does not require a confirmation for it, the rate limiter admits
  -- its parameter changes, the lease is held, and `r` is the commit of what was just previewed,
  -- with its epoch and fingerprint. The commit follows within the five minutes that a plan lives.
  pub preview_and_maybe_commit-sent_iff :
      (r : CommitRequest)
      → w.times.pruned ≤ w.previewed_at + 300_000
      → ((preview_and_maybe_commit s w instance operations opts m).sent ≡ r ∷ []) ↔ IsUnattended r
  preview_and_maybe_commit-sent_iff r early = (to, from)
    where
      to : (preview_and_maybe_commit s w instance operations opts m).sent ≡ r ∷ [] → IsUnattended r
      to e = elim (Result-cases Previewed.1) [
        | inl (f, failed) ↦ let quiet = failed-sent f failed in absurd (ground (arith, quiet, e))
        | inr (result, done) ↦
            let same = previewed-sent result done in
            elim (Bool-cases (not opts.auto_commit || result.confirmation.required)) [
              | inl stop ↦
                  let quiet = maybe_commit-quiet Previewed.0 result stop in
                  absurd (ground (arith, same, quiet, e))
              | inr go ↦
                  let sends = maybe_commit-commits Previewed.0 result go in
                  let sent : (commit s w.times (unattended opts.operation_id instance result)
                        w.lease w.committed Previewed.0).sent
                      ≡ r ∷ [] =
                    ground (arith, same, sends, e) in
                  let args = unattended opts.operation_id instance result in
                  let (harmless, allowed, held, request) =
                    (unattended-Sends_iff result r done early).0
                      ((commit-sent_iff s w.times args w.lease w.committed Previewed.0 r).0 sent) in
                  record {
                    result = result;
                    previewed = done;
                    wanted = ground (arith, go);
                    harmless = harmless;
                    in_rate = allowed;
                    lease = held;
                    request = request;
                  }
            ]
      ]

      from :
          IsUnattended r → (preview_and_maybe_commit s w instance operations opts m).sent ≡ r ∷ []
      from u =
          let args = unattended opts.operation_id instance u.result in
          let (required, _) = preview-same u.result u.previewed in
          let go : (not opts.auto_commit || u.result.confirmation.required) ≡ false =
            rw (u.wanted, required, u.harmless) refl in
          ap (λ (o : BuildOutcome). o.sent) (previewed-sent u.result u.previewed)
          ∙ maybe_commit-commits Previewed.0 u.result go
          ∙ (commit-sent_iff s w.times args w.lease w.committed Previewed.0 r).1 (
              (unattended-Sends_iff u.result r u.previewed early).1
                (u.harmless, u.in_rate, u.lease, u.request))
