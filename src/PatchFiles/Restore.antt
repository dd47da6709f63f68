-- ===== src/PatchFiles/Restore.antt =====
-- patchfiles.ts: `restoreCheckpoint`, a preview without a token and a commit with one.
use vcv_rack_mcp.Prelude.{
  ℕ, ◌≡◌, inl, inr, String, true, List, [], Option, none, some, str_eq, any, if◌then◌else◌, arith,
  Option-cases, subst, subst,
}
use vcv_rack_mcp.Errors.{Result, ok, throw, Result-cases, ◌>>=◌, ◌>>◌}
use vcv_rack_mcp.Operations.{Json}
use vcv_rack_mcp.Connection.{SelectedInstance}
use vcv_rack_mcp.Transactions.{restore, TransactionManager, Signer}
use vcv_rack_mcp.Paths.{FileSystem}
use vcv_rack_mcp.Paths.Policy.{checkpoints, PatchDirectories, ResolvedPath, resolve_patch_path}
use vcv_rack_mcp.Paths.Containment.{IsAllowed, resolve_patch_path-IsAllowed}
use vcv_rack_mcp.Paths.Checkpoints.{Directory}
use vcv_rack_mcp.PatchFiles.{PatchFingerprint, BridgeCall, require_root, mint_for}
use vcv_rack_mcp.PatchFiles.Replace.{ReplaceArgs, Answers, commit_load_or_clear}
use vcv_rack_mcp.PatchFiles.Stages.{replaces, same_root-eq}
use vcv_rack_mcp.PatchFiles.Confirmed.{IsConfirmed, commit_load_or_clear-IsConfirmed}

pub data RestorePhase : Type 0 where
  previewed_restore : (token : String) → RestorePhase
  restored : (recovery : String) → Json → RestorePhase

pub record RestoreOutcome : Type 0 where
  pub manager : TransactionManager
  pub directory : Directory
  pub sent : List BridgeCall
  pub result : Result RestorePhase

-- The token is tested for its truth.
abbrev pub given_token : Option String → Option String
given_token none = none
given_token (some token) = if str_eq token "" then none else some token

unfoldable pub check_checkpoint : FileSystem → PatchDirectories → String → Result ResolvedPath
check_checkpoint fs config path = do
  checkpoint ← resolve_patch_path fs config path true
  require_root checkpoints checkpoint
  ok checkpoint

-- The arguments of the commit that a restoration with a token is.
abbrev pub restore_args : String → String → ResolvedPath → ReplaceArgs
restore_args token operation_id checkpoint = record {
  kind = restore;
  token = token;
  operation_id = operation_id;
  expected_path = some checkpoint.absolute;
}

module _ (s : Signer) (config : PatchDirectories) (w : Answers) where
  -- From the policy on. `size` is what `statSync` says of the checkpoint after the token is minted.
  unfoldable pub restore_resolved :
      (token : Option String)
      → (operation_id : String) → ResolvedPath
      → SelectedInstance
      → (now : ℕ) → (id : String) → (state : Result PatchFingerprint) → (size : Result ℕ)
      → TransactionManager
      → Directory
      → RestoreOutcome
  restore_resolved none operation_id checkpoint i now id state size m d = elim state [
    | throw e ↦ record { manager = m; directory = d; sent = []; result = throw e }
    | ok live ↦
        let (m', token) = mint_for s now id restore (some checkpoint.absolute) i live m in
        record {
          manager = m';
          directory = d;
          sent = [];
          result = elim size [ throw e ↦ throw e | ok n ↦ ok (previewed_restore token) ];
        }
  ]
  restore_resolved (some token) operation_id checkpoint i now id state size m d =
      let o = commit_load_or_clear s config (restore_args token operation_id checkpoint) w m d in
      record {
        manager = o.manager;
        directory = o.directory;
        sent = o.sent;
        result = elim o.result [
          | throw e ↦ throw e
          | ok (recovery, reply) ↦ ok (restored recovery reply)
        ];
      }

  -- `connected` is the instance that this handler gets; the commit asks for it again.
  unfoldable pub restore_checkpoint :
      FileSystem
      → (path : String) → (token : Option String) → (operation_id : String)
      → (connected : Result SelectedInstance) → (now : ℕ) → (id : String)
      → (state : Result PatchFingerprint) → (size : Result ℕ) → TransactionManager
      → Directory
      → RestoreOutcome
  restore_checkpoint fs path token operation_id connected now id state size m d =
      elim (check_checkpoint fs config path) [
        | throw e ↦ record { manager = m; directory = d; sent = []; result = throw e }
        | ok checkpoint ↦ elim connected [
          | throw e ↦ record { manager = m; directory = d; sent = []; result = throw e }
          | ok i ↦
              restore_resolved (given_token token) operation_id checkpoint i now id state size m d
        ]
      ]

  -- What a restoration that replaces the patch rests on.
  pub record IsRestoration (fs : FileSystem) (path : String) (token : Option String)
      (operation_id : String) (m : TransactionManager) (d : Directory) (sent : List BridgeCall)
      : Type 0 where
    pub checkpoint : ResolvedPath
    pub confirmation : String
    pub given : given_token token ≡ some confirmation
    pub allowed : IsAllowed fs config path true checkpoint
    pub root : checkpoint.root ≡ checkpoints
    pub committed :
        let a = restore_args confirmation operation_id checkpoint in
        let o = commit_load_or_clear s config a w m d in
        (sent ≡ o.sent) × IsConfirmed s config a w m d o

  check_checkpoint-IsAllowed :
      (fs : FileSystem) (path : String) (r : ResolvedPath)
      → check_checkpoint fs config path ≡ ok r
      → IsAllowed fs config path true r × (r.root ≡ checkpoints)
  unfolding check_checkpoint require_root
  check_checkpoint-IsAllowed fs path r e =
      elim (Result-cases (resolve_patch_path fs config path true)) [
        | inl (f, failed) ↦ absurd (ground (arith, failed, e))
        | inr (r', good) ↦ (
          resolve_patch_path-IsAllowed fs config path true r (ground (arith, good, e)),
          same_root-eq r.root checkpoints (ground (arith, good, e)),
        )
      ]

  -- A restoration that sends a request that replaces the patch has a token, and is a commit, with all
  -- that this rests on, of the checkpoint that the path policy allows for the path given: it is in
  -- the directory of the checkpoints, and the file that the token was minted for.
  pub restore_checkpoint-IsRestoration :
      (fs : FileSystem) (path : String) (token : Option String) (operation_id : String)
      (connected : Result SelectedInstance) (now : ℕ) (id : String)
      (state : Result PatchFingerprint) (size : Result ℕ) (m : TransactionManager) (d : Directory)
      → let o = restore_checkpoint fs path token operation_id connected now id state size m d in
        any replaces o.sent ≡ true → IsRestoration fs path token operation_id m d o.sent
  unfolding restore_checkpoint restore_resolved
  restore_checkpoint-IsRestoration fs path token operation_id connected now id state size m d loud =
      elim (Result-cases (check_checkpoint fs config path)) [
        | inl (e, failed) ↦ absurd (ground (arith, failed, loud))
        | inr (r, found) ↦ elim (Result-cases connected) [
          | inl (e, failed) ↦ absurd (ground (arith, found, failed, loud))
          | inr (i, up) ↦ elim (Option-cases (given_token token)) [
            | inl none_given ↦ elim (Result-cases state) [
              | inl (e, failed) ↦ absurd (ground (arith, found, up, none_given, failed, loud))
              | inr (live, told) ↦ absurd (ground (arith, found, up, none_given, told, loud))
            ]
            | inr (t, given) ↦
                let a = restore_args t operation_id r in
                let same : (restore_checkpoint fs path token operation_id connected now id state
                      size m d).sent
                    ≡ (commit_load_or_clear s config a w m d).sent =
                  ground (arith, found, up, given) in
                record {
                  checkpoint = r;
                  confirmation = t;
                  given = given;
                  allowed = (check_checkpoint-IsAllowed fs path r found).0;
                  root = (check_checkpoint-IsAllowed fs path r found).1;
                  committed = (
                    same,
                    commit_load_or_clear-IsConfirmed s config a w m d
                        (subst (λ l. any replaces l ≡ true) same loud),
                  );
                }
          ]
        ]
      ]
