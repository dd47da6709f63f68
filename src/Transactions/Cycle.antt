-- ===== src/Transactions/Cycle.antt =====
-- transactions.ts: a plan's life from its preview to its commit.
use vcv_rack_mcp.Prelude.{
  ℕ, ◌+◌, ◌≤◌, ◌≡◌, refl, ◌≢◌, ◌⊎◌, inl, inr, String, true, List, [], ◌∷◌, Option, none, some,
  lookup, lookup-insert, lookup-insert_self, lookup-delete_self, arith, eq_iff,
}
use vcv_rack_mcp.Errors.{Thrown, Result, ok, throw, Result-cases, retryable, confirmation_expired}
use vcv_rack_mcp.Operations.{Json, PatchOperation}
use vcv_rack_mcp.Connection.{SelectedInstance}
use vcv_rack_mcp.RateLimiter.{admit}
use vcv_rack_mcp.Transactions.{TransactionManager, CachedPlan, Signer, mint_token}
use vcv_rack_mcp.Transactions.Preview.{
  PreviewReply, PreviewResult, Expected, preview, prune, prune_expired, checked_reply, cached_plan,
  token_binding, added_modules, epoch_agrees, fingerprint_agrees,
}
use vcv_rack_mcp.Transactions.Commit.{
  CommitArgs, CommitTimes, commit, send_commit, authorised, cached,
}
use vcv_rack_mcp.Transactions.Safety.{
  Admission-cases, commit_refused, commit_admitted, commit_limited,
}

module _ (k : String) where
  pub lookup-prune_live :
      (now : ℕ) (m : List (String × CachedPlan)) (v : CachedPlan)
      → lookup k m ≡ some v
      → now ≤ v.expires_at
      → lookup k (prune now m) ≡ some v
  unfolding lookup prune
  lookup-prune_live now [] v e fresh = cc
  lookup-prune_live now ((j, w) ∷ m) v e fresh =
      ground (arith, eq_iff j k, lookup-prune_live now m v)

  lookup-prune-none :
      (now : ℕ) (m : List (String × CachedPlan)) → lookup k m ≡ none → lookup k (prune now m) ≡ none
  unfolding lookup prune
  lookup-prune-none now [] e = refl
  lookup-prune-none now ((j, w) ∷ m) e = ground (arith, eq_iff j k, lookup-prune-none now m)

  -- No plan survives its expiry.
  lookup-prune_fresh :
      (now : ℕ) (m : List (String × CachedPlan)) (v : CachedPlan)
      → lookup k (prune now m) ≡ some v
      → now ≤ v.expires_at
  unfolding lookup prune
  lookup-prune_fresh now [] v e = cc
  lookup-prune_fresh now ((j, w) ∷ m) v e = ground (arith, eq_iff j k, lookup-prune_fresh now m v)

commit_unknown :
    (s : Signer) (times : CommitTimes) (args : CommitArgs) (lease : Result (Unit {0}))
    (reply : Result Json) (m : TransactionManager)
    → lookup args.plan_hash m.plans ≡ none
    → let next = commit s times args lease reply m in
      (next.sent ≡ []) × (next.result ≡ throw (retryable confirmation_expired))
unfolding authorised cached prune_expired
commit_unknown s times args lease reply m missing =
    let gone = lookup-prune-none args.plan_hash times.pruned m.plans missing in
    let refused : authorised s times.verified args (prune_expired times.pruned m)
        ≡ throw (retryable confirmation_expired) =
      ground (arith, gone) in
    ground (arith, commit_refused s times args lease reply m refused)

sent_drops :
    (args : CommitArgs) (plan : CachedPlan) (lease : Result (Unit {0})) (reply : Result Json)
    (m : TransactionManager) (answer : Json)
    → (send_commit args plan lease reply m).result ≡ ok answer
    → lookup args.plan_hash (send_commit args plan lease reply m).manager.plans ≡ none
unfolding send_commit
sent_drops args plan (throw e) reply m answer h = cc
sent_drops args plan (ok u) (throw e) m answer h = cc
sent_drops args plan (ok u) (ok r) m answer h = lookup-delete_self args.plan_hash m.plans

commit_drops :
    (s : Signer) (times : CommitTimes) (args : CommitArgs) (lease : Result (Unit {0}))
    (reply : Result Json) (m : TransactionManager) (answer : Json)
    → (commit s times args lease reply m).result ≡ ok answer
    → lookup args.plan_hash (commit s times args lease reply m).manager.plans ≡ none
commit_drops s times args lease reply m answer done =
    elim (Result-cases (authorised s times.verified args pruned)) [
      | inl (f, refused) ↦
          absurd (ground (arith, commit_refused s times args lease reply m refused))
      | inr (plan, passed) ↦
          elim (Admission-cases (admit times.cut times.at plan.param_changes pruned.limiter)) [
            | inr (ms, (l, late)) ↦
                absurd (ground (arith, commit_limited s times args lease reply m passed late))
            | inl (l, allowed) ↦
                let step = commit_admitted s times args lease reply m passed allowed in
                rw step (
                  sent_drops args plan lease reply (record pruned { limiter = l }) answer
                    (rw step at done))
          ]
    ]
  where
    pruned : TransactionManager
    pruned = prune_expired times.pruned m

-- A plan whose commit succeeded is gone: whoever commits under the same hash next, with whatever token
-- and at whatever time, gets the retryable CONFIRMATION_EXPIRED, and nothing is sent.
pub commit_once :
    (s : Signer) (times later : CommitTimes) (args again : CommitArgs)
    (lease lease' : Result (Unit {0})) (reply reply' : Result Json) (m : TransactionManager)
    (answer : Json)
    → (commit s times args lease reply m).result ≡ ok answer
    → again.plan_hash ≡ args.plan_hash
    → let next = commit s later again lease' reply' (commit s times args lease reply m).manager in
      (next.sent ≡ []) × (next.result ≡ throw (retryable confirmation_expired))
commit_once s times later args again lease lease' reply reply' m answer done same =
    commit_unknown s later again lease' reply' (commit s times args lease reply m).manager
      (rw same (commit_drops s times args lease reply m answer done))

-- What a preview that succeeds has checked and done: the plan adds at most 32 modules, the live epoch
-- and fingerprint are the expected ones where the caller gave any, and the reply is cached under its
-- hash with its base fingerprint, epoch and session for five minutes; every other plan is as the
-- pruning left it.
pub record IsPreviewed (operations : List PatchOperation) (instance : SelectedInstance)
    (expected : Expected) (reply : Result PreviewReply) (at : ℕ) (pruned after : TransactionManager)
    (result : PreviewResult) : Type 0 where
  pub replied : reply ≡ ok result.preview
  pub small : added_modules operations ≤ 32
  pub epoch : (n : ℕ) → expected.patch_epoch ≡ some n → result.preview.patch_epoch ≡ n
  pub fingerprint :
      (f : String) → expected.fingerprint ≡ some f → result.preview.base_fingerprint ≡ f
  pub expires_at : result.confirmation.expires_at ≡ at + 300_000
  pub stored :
      lookup result.preview.plan_hash after.plans
      ≡ some (cached_plan operations instance result.preview (at + 300_000))
  pub others :
      (k : String) → result.preview.plan_hash ≢ k → lookup k after.plans ≡ lookup k pruned.plans

checked_reply_sound :
    (operations : List PatchOperation) (expected : Expected) (reply : Result PreviewReply)
    (r : PreviewReply)
    → checked_reply operations expected reply ≡ ok r
    → (reply ≡ ok r)
      × (added_modules operations ≤ 32)
      × (epoch_agrees expected.patch_epoch r.patch_epoch ≡ true)
      × (fingerprint_agrees expected.fingerprint r.base_fingerprint ≡ true)
unfolding checked_reply
checked_reply_sound operations expected reply r e = elim (Result-cases reply) [
  | inl (f, failed) ↦ absurd (ground arith)
  | inr (r', replied) ↦ (ground arith, ground arith, ground arith, ground arith)
]

epoch_agrees→eq : (o : Option ℕ) (live n : ℕ) → epoch_agrees o live ≡ true → o ≡ some n → live ≡ n
epoch_agrees→eq none live n h e = cc
epoch_agrees→eq (some m) live n h e = ground arith

fingerprint_agrees→eq :
    (o : Option String) (live f : String) → fingerprint_agrees o live ≡ true → o ≡ some f → live ≡ f
fingerprint_agrees→eq none live f h e = cc
fingerprint_agrees→eq (some g) live f h e = ground (arith, eq_iff live g)

-- A preview either throws and changes nothing but dropping expired plans, or succeeds as described.
pub preview_cases :
    (s : Signer) (now at : ℕ) (operations : List PatchOperation) (instance : SelectedInstance)
    (expected : Expected) (reply : Result PreviewReply) (m : TransactionManager)
    → let r = preview s now at operations instance expected reply m in
      let pruned = prune_expired now m in
      ((e : Thrown) × (r.1 ≡ throw e) × (r.0 ≡ pruned))
      ⊎ ((result : PreviewResult) × (r.1 ≡ ok result)
          × IsPreviewed operations instance expected reply at pruned r.0 result)
unfolding preview
preview_cases s now at operations instance expected reply m =
    elim (Result-cases (checked_reply operations expected reply)) [
      | inl (e, refused) ↦ inl (e, ground arith, ground arith)
      | inr (r, passed) ↦
          let (replied, small, epoch, fingerprint) =
            checked_reply_sound operations expected reply r passed in
          let expires_at = at + 300_000 in
          let result : PreviewResult = record {
            preview = r;
            confirmation = record {
              token = mint_token s (token_binding instance r expires_at);
              expires_at = expires_at;
              required = r.confirmation_required;
            };
          } in
          rw (passed, preview)
            (inr (
              result,
              refl,
              record {
                replied = replied;
                small = small;
                epoch = λ n. epoch_agrees→eq expected.patch_epoch r.patch_epoch n epoch;
                fingerprint = λ f.
                    fingerprint_agrees→eq expected.fingerprint r.base_fingerprint f fingerprint;
                expires_at = refl;
                stored = lookup-insert_self r.plan_hash _ _;
                others = λ k other. ground (
                  arith,
                  lookup-insert r.plan_hash k (cached_plan operations instance r expires_at)
                      (prune_expired now m).plans,
                  eq_iff r.plan_hash k,
                );
              },
            ))
    ]
