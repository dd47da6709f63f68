-- ===== src/Transactions/Safety.antt =====
-- transactions.ts: when a commit reaches the plugin.
use vcv_rack_mcp.Prelude.{
  ℕ, ◌≡◌, refl, ◌↔◌, ◌⊎◌, inl, inr, String, true, [], ◌∷◌, Option, none, some, str_eq, lookup,
  arith, eq_iff, Bool-cases, Option-cases,
}
use vcv_rack_mcp.Errors.{Thrown, Result, ok, throw, Result-cases, retryable, rate_limited}
use vcv_rack_mcp.Operations.{Json}
use vcv_rack_mcp.RateLimiter.{RateLimiter, admit, Admission, admitted}
use vcv_rack_mcp.Transactions.{TransactionManager, CachedPlan, TokenBinding, Signer, verify_token}
use vcv_rack_mcp.Transactions.Tokens.{verify_token-empty}
use vcv_rack_mcp.Transactions.Preview.{prune_expired}
use vcv_rack_mcp.Transactions.Commit.{
  CommitArgs, CommitTimes, CommitRequest, commit, commit_request, send_commit, authorised, cached,
  confirm, binds, given,
}

-- A token that verifies at the time and binds this commit.
pub record IsConfirmed (s : Signer) (now : ℕ) (args : CommitArgs) : Type 0 where
  pub token : String
  pub binding : TokenBinding
  pub supplied : args.confirmation_token ≡ some token
  pub verified : verify_token s now token ≡ ok binding
  pub plan_hash : binding.plan_hash ≡ args.plan_hash
  pub fingerprint : binding.base_fingerprint ≡ args.expected_fingerprint
  pub instance_id : binding.instance_id ≡ args.instance.instance_id
  pub session_id : binding.session_id ≡ args.instance.session_id

-- The plan is cached under the hash, for this session and for the fingerprint that the caller gives,
-- and is confirmed if it has to be.
pub record IsAuthorised (s : Signer) (now : ℕ) (args : CommitArgs) (m : TransactionManager)
    (plan : CachedPlan) : Type 0 where
  pub found : lookup args.plan_hash m.plans ≡ some plan
  pub instance_id : plan.instance_id ≡ args.instance.instance_id
  pub session_id : plan.session_id ≡ args.instance.session_id
  pub fingerprint : args.expected_fingerprint ≡ plan.base_fingerprint
  pub confirmed : plan.confirmation_required ≡ true → IsConfirmed s now args

given-eq-some : (o : Option String) (t : String) → given o ≡ some t → o ≡ some t
given-eq-some none t e = cc
given-eq-some (some u) t e = ground arith

confirm-eq-ok :
    (s : Signer) (now : ℕ) (args : CommitArgs) → confirm s now args ≡ ok tt → IsConfirmed s now args
unfolding confirm binds
confirm-eq-ok s now args e = elim (Option-cases (given args.confirmation_token)) [
  | inl absent ↦ absurd (ground arith)
  | inr (token, present) ↦ elim (Result-cases (verify_token s now token)) [
    | inl (f, refused) ↦ absurd (ground arith)
    | inr (b, passed) ↦ record {
      token = token;
      binding = b;
      supplied = given-eq-some args.confirmation_token token present;
      verified = passed;
      plan_hash = ground (arith, eq_iff b.plan_hash args.plan_hash);
      fingerprint = ground (arith, eq_iff b.base_fingerprint args.expected_fingerprint);
      instance_id = ground (arith, eq_iff b.instance_id args.instance.instance_id);
      session_id = ground (arith, eq_iff b.session_id args.instance.session_id);
    }
  ]
]

authorised-eq-ok :
    (s : Signer) (now : ℕ) (args : CommitArgs) (m : TransactionManager) (plan : CachedPlan)
    → authorised s now args m ≡ ok plan
    → IsAuthorised s now args m plan
unfolding authorised cached
authorised-eq-ok s now args m plan e = elim (Option-cases (lookup args.plan_hash m.plans)) [
  | inl missing ↦ absurd (ground arith)
  | inr (p, hit) ↦
      let same : p ≡ plan = ground arith in
      record {
        found = ground arith;
        instance_id = ground (arith, eq_iff p.instance_id args.instance.instance_id);
        session_id = ground (arith, eq_iff p.session_id args.instance.session_id);
        fingerprint = ground (arith, eq_iff args.expected_fingerprint p.base_fingerprint);
        confirmed = λ needed. confirm-eq-ok s now args (ground arith);
      }
]

given_verified :
    (s : Signer) (now : ℕ) (o : Option String) (t : String) (b : TokenBinding)
    → o ≡ some t
    → verify_token s now t ≡ ok b
    → given o ≡ some t
given_verified s now none t b e v = cc
given_verified s now (some u) t b e v = elim (Bool-cases (str_eq u "")) [
  | inl empty ↦ absurd (ground (arith, (eq_iff u "").0 empty, verify_token-empty s now))
  | inr full ↦ ground arith
]

confirm_of_IsConfirmed :
    (s : Signer) (now : ℕ) (args : CommitArgs) → IsConfirmed s now args → confirm s now args ≡ ok tt
unfolding confirm binds
confirm_of_IsConfirmed s now args c =
    let b = c.binding in
    ground (
      arith,
      given_verified s now args.confirmation_token c.token b c.supplied c.verified,
      c.verified,
      eq_iff b.plan_hash args.plan_hash,
      eq_iff b.base_fingerprint args.expected_fingerprint,
      eq_iff b.instance_id args.instance.instance_id,
      eq_iff b.session_id args.instance.session_id,
    )

authorised_of_IsAuthorised :
    (s : Signer) (now : ℕ) (args : CommitArgs) (m : TransactionManager) (plan : CachedPlan)
    → IsAuthorised s now args m plan
    → authorised s now args m ≡ ok plan
unfolding authorised cached
authorised_of_IsAuthorised s now args m plan a = elim (Bool-cases plan.confirmation_required) [
  | inl needed ↦ ground (
    arith,
    confirm_of_IsConfirmed s now args (a.confirmed needed),
    eq_iff plan.instance_id args.instance.instance_id,
    eq_iff plan.session_id args.instance.session_id,
    eq_iff args.expected_fingerprint plan.base_fingerprint,
  )
  | inr free ↦ ground (
    arith,
    eq_iff plan.instance_id args.instance.instance_id,
    eq_iff plan.session_id args.instance.session_id,
    eq_iff args.expected_fingerprint plan.base_fingerprint,
  )
]

-- The conditions under which a commit sends the request `r`.
abbrev pub Sends :
    Signer
    → CommitTimes
    → CommitArgs
    → Result (Unit {0})
    → TransactionManager
    → CommitRequest
    → Type 0
Sends s times args lease m r =
    (plan : CachedPlan) × IsAuthorised s times.verified args (prune_expired times.pruned m) plan
    × ((l : RateLimiter) × (admit times.cut times.at plan.param_changes
            (prune_expired times.pruned m).limiter
          ≡ admitted l))
    × (lease ≡ ok tt)
    × (r ≡ record {
      instance_id = args.instance.instance_id;
      session_id = args.instance.session_id;
      patch_epoch = plan.patch_epoch;
      operation_id = args.operation_id;
      plan = plan.plan;
      plan_hash = args.plan_hash;
      expected_fingerprint = args.expected_fingerprint;
    })

pub Admission-cases :
    (a : Admission)
    → ((l : RateLimiter) × (a ≡ admitted l))
      ⊎ ((ms : ℕ) × ((l : RateLimiter) × (a ≡ Admission.rate_limited ms l)))
Admission-cases (admitted l) = inl (l, refl)
Admission-cases (Admission.rate_limited ms l) = inr (ms, (l, refl))

module _ (s : Signer) (times : CommitTimes) (args : CommitArgs) (lease : Result (Unit {0}))
    (reply : Result Json) (m : TransactionManager) where
  pub commit_refused :
      {e : Thrown}
      → authorised s times.verified args (prune_expired times.pruned m) ≡ throw e
      → commit s times args lease reply m
        ≡ record { manager = prune_expired times.pruned m; sent = []; result = throw e }
  unfolding commit
  commit_refused h = rw (h, commit)

  pub commit_admitted :
      {plan : CachedPlan} {l : RateLimiter}
      → authorised s times.verified args (prune_expired times.pruned m) ≡ ok plan
      → admit times.cut times.at plan.param_changes (prune_expired times.pruned m).limiter
        ≡ admitted l
      → commit s times args lease reply m
        ≡ send_commit args plan lease reply (record (prune_expired times.pruned m) { limiter = l })
  unfolding commit
  commit_admitted h a = ground arith

  pub commit_limited :
      {plan : CachedPlan} {ms : ℕ} {l : RateLimiter}
      → authorised s times.verified args (prune_expired times.pruned m) ≡ ok plan
      → admit times.cut times.at plan.param_changes (prune_expired times.pruned m).limiter
        ≡ Admission.rate_limited ms l
      → commit s times args lease reply m ≡ record {
        manager = record (prune_expired times.pruned m) { limiter = l };
        sent = [];
        result = throw (retryable rate_limited);
      }
  unfolding commit
  commit_limited h a = ground arith

  -- A commit sends the request `r`, and no other, exactly when: a plan is still cached under the
  -- hash after the pruning; it was previewed for this instance and session and against the
  -- fingerprint that the caller expects; where it needs confirmation, the caller's token is
  -- authentic, unexpired, and binds this hash, fingerprint, instance and session; the rate limiter
  -- admits its parameter changes; the writer lease is held; and `r` carries that plan and its epoch.
  pub commit-sent_iff :
      (r : CommitRequest)
      → ((commit s times args lease reply m).sent ≡ r ∷ []) ↔ Sends s times args lease m r
  unfolding send_commit commit_request
  commit-sent_iff r = (to, from)
    where
      pruned : TransactionManager
      pruned = prune_expired times.pruned m

      sent_once :
          (plan : CachedPlan) (n : TransactionManager)
          → (lease ≡ ok tt)
          → (send_commit args plan lease reply n).sent ≡ commit_request args plan ∷ []
      sent_once plan n h = elim (Result-cases reply) [
        | inl (f, failed) ↦ ground arith
        | inr (a, answered) ↦ ground arith
      ]

      to : (commit s times args lease reply m).sent ≡ r ∷ [] → Sends s times args lease m r
      to e = elim (Result-cases (authorised s times.verified args pruned)) [
        | inl (f, refused) ↦ absurd (ground (arith, commit_refused refused))
        | inr (plan, passed) ↦
            elim (Admission-cases (admit times.cut times.at plan.param_changes pruned.limiter)) [
              | inr (ms, (l, late)) ↦ absurd (ground (arith, commit_limited passed late))
              | inl (l, allowed) ↦ elim (Result-cases lease) [
                | inl (f, lost) ↦ absurd (ground (arith, commit_admitted passed allowed))
                | inr (u, held) ↦ (
                  plan,
                  authorised-eq-ok s times.verified args pruned plan passed,
                  (l, allowed),
                  ground arith,
                  ground (
                    arith,
                    commit_admitted passed allowed,
                    sent_once plan (record pruned { limiter = l }) (ground arith),
                  ),
                )
              ]
            ]
      ]

      from : Sends s times args lease m r → (commit s times args lease reply m).sent ≡ r ∷ []
      from (plan, a, (l, allowed), held, same) =
          let passed = authorised_of_IsAuthorised s times.verified args pruned plan a in
          rw (commit_admitted passed allowed, same)
            (sent_once plan (record pruned { limiter = l }) held)
