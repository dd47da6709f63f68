-- ===== src/PatchFiles/Stages.antt =====
-- patchfiles.ts: what has happened before a request that replaces the patch is sent.
use vcv_rack_mcp.Prelude.{
  ℕ, ◌≡◌, refl, ◌⊎◌, inl, inr, String, Bool, true, false, List, [], ◌∷◌, none, some, eq_iff, insert,
  lookup, lookup-insert, lookup-insert_self, ◌≢◌, any, arith, subst, sym,
}
use vcv_rack_mcp.Errors.{Result, Thrown, ok, throw, Result-cases, retryable, internal}
use vcv_rack_mcp.Operations.{Json}
use vcv_rack_mcp.Connection.{SelectedInstance}
use vcv_rack_mcp.Transactions.{LoadKind, load, clear, restore, LoadTokenBinding}
use vcv_rack_mcp.Paths.{FileSystem}
use vcv_rack_mcp.Paths.Policy.{
  patches, checkpoints, PatchRoot, PatchDirectories, ResolvedPath, resolve_patch_path,
}
use vcv_rack_mcp.Paths.Containment.{IsAllowed, resolve_patch_path-IsAllowed}
use vcv_rack_mcp.Paths.Checkpoints.{Directory, reserve_checkpoint_path}
use vcv_rack_mcp.Paths.Reservation.{IsReserved, reserve_checkpoint_path-ok}
use vcv_rack_mcp.PatchFiles.{
  BridgeCall, save_copy, load_file, clear_patch, require_root, same_root, same_path, same_kind,
  FileOutcome, create_checkpoint,
}
use vcv_rack_mcp.PatchFiles.Replace.{ReplaceArgs, Answers, accept, bound_path, replacement}

abbrev pub replaces : BridgeCall → Bool
replaces (load_file p set id) = true
replaces (clear_patch id) = true
replaces _ = false

same_kind-eq : (k l : LoadKind) → same_kind k l ≡ true → k ≡ l
same_kind-eq load load e = refl
same_kind-eq clear clear e = refl
same_kind-eq restore restore e = refl
same_kind-eq load clear e = absurd (cc)
same_kind-eq load restore e = absurd (cc)
same_kind-eq clear load e = absurd (cc)
same_kind-eq clear restore e = absurd (cc)
same_kind-eq restore load e = absurd (cc)
same_kind-eq restore clear e = absurd (cc)

pub same_root-eq : (k l : PatchRoot) → same_root k l ≡ true → k ≡ l
same_root-eq patches patches e = refl
same_root-eq checkpoints checkpoints e = refl
same_root-eq patches checkpoints e = absurd (cc)
same_root-eq checkpoints patches e = absurd (cc)

-- What the token says is what is asked for, and is still so.
pub record IsAccepted (a : ReplaceArgs) (w : Answers) (i : SelectedInstance) (b : LoadTokenBinding)
    : Type 0 where
  pub kind : b.kind ≡ a.kind
  pub instance_id : b.instance_id ≡ i.instance_id
  pub session_id : b.session_id ≡ i.session_id
  pub path : (p : String) → a.expected_path ≡ some p → same_path w.files b.path p ≡ true
  pub live : w.live ≡ ok (record { fingerprint = b.fingerprint; patch_epoch = b.patch_epoch })
  pub lease : w.lease ≡ ok tt

pub accept-IsAccepted :
    (a : ReplaceArgs) (w : Answers) (i : SelectedInstance) (b : LoadTokenBinding)
    → accept a w i b ≡ ok tt
    → IsAccepted a w i b
unfolding accept
accept-IsAccepted a w i b e = elim (Result-cases w.live) [
  | inl (t, failed) ↦ absurd (ground (arith, failed, e))
  | inr (l, given) ↦ record {
    kind = same_kind-eq b.kind a.kind (ground (arith, given, e));
    instance_id = ground (arith, given, e, eq_iff b.instance_id i.instance_id);
    session_id = ground (arith, given, e, eq_iff b.session_id i.session_id);
    path = λ p asked. ground (arith, given, asked, e);
    live = ground (arith, given, e, eq_iff l.fingerprint b.fingerprint);
    lease = ground (arith, given, e);
  }
]

-- A request that replaces the patch: a clear, or a load of a file that the policy allows, in the
-- root that the kind of the operation has. Only a load makes the file the patch's own.
pub IsReplacement :
    PatchDirectories → FileSystem → LoadKind → String → LoadTokenBinding → BridgeCall → Type 0
IsReplacement config fs clear id b call = call ≡ clear_patch id
IsReplacement config fs load id b call =
    (r : ResolvedPath) × IsAllowed fs config (bound_path b) true r
    × (r.root ≡ patches)
    × (call ≡ load_file r.absolute true id)
IsReplacement config fs restore id b call =
    (r : ResolvedPath) × IsAllowed fs config (bound_path b) true r
    × (r.root ≡ checkpoints)
    × (call ≡ load_file r.absolute false id)

pub replacement-IsReplacement :
    (config : PatchDirectories) (fs : FileSystem) (kind : LoadKind) (id : String)
    (b : LoadTokenBinding) (call : BridgeCall)
    → replacement config fs kind id b ≡ ok call
    → IsReplacement config fs kind id b call
unfolding replacement IsReplacement require_root
replacement-IsReplacement config fs clear id b call e = ground (arith, e)
replacement-IsReplacement config fs load id b call e =
    elim (Result-cases (resolve_patch_path fs config (bound_path b) true)) [
      | inl (t, failed) ↦ absurd (ground (arith, failed, e))
      | inr (r, good) ↦ (
        r,
        resolve_patch_path-IsAllowed fs config (bound_path b) true r good,
        same_root-eq r.root patches (ground (arith, good, e)),
        ground (arith, good, e),
      )
    ]
replacement-IsReplacement config fs restore id b call e =
    elim (Result-cases (resolve_patch_path fs config (bound_path b) true)) [
      | inl (t, failed) ↦ absurd (ground (arith, failed, e))
      | inr (r, good) ↦ (
        r,
        resolve_patch_path-IsAllowed fs config (bound_path b) true r good,
        same_root-eq r.root checkpoints (ground (arith, good, e)),
        ground (arith, good, e),
      )
    ]

-- The checkpoint took a free name, changed no other file, and was written by the bridge.
pub record IsCheckpoint (w : Answers) (before after : Directory) (path : String)
    (sent : List BridgeCall) : Type 0 where
  pub copied : (reply : Json) × (w.copied ≡ ok reply)
  pub was_free : lookup path before.files ≡ none
  pub written : lookup path after.files ≡ some w.copied_size
  pub others : (p : String) → path ≢ p → lookup p after.files ≡ lookup p before.files
  pub only : sent ≡ save_copy path w.checkpoint_id ∷ []

abbrev pub Made : Answers → Directory → FileOutcome → Type 0
Made w d o =
    ((p : String) × (reply : Json) × (o.result ≡ ok (p, reply))
      × IsCheckpoint w d o.directory p o.sent)
    ⊎ ((e : Thrown) × (o.result ≡ throw e) × (any replaces o.sent ≡ false))

-- What `create_checkpoint` returns, by what the reservation and the bridge return.
create_checkpoint-throw :
    (w : Answers) (d : Directory) (e : Thrown)
    → (reserve_checkpoint_path w.checkpoint_names d).1 ≡ throw e
    → create_checkpoint w.checkpoint_names w.checkpoint_id w.copied w.copied_size d ≡ record {
      directory = (reserve_checkpoint_path w.checkpoint_names d).0;
      sent = [];
      result = throw e;
    }
unfolding create_checkpoint
create_checkpoint-throw w d e failed = ground (arith, failed)

pub create_checkpoint-ok :
    (w : Answers) (d : Directory) (p : String) (reply : Json)
    → (reserve_checkpoint_path w.checkpoint_names d).1 ≡ ok p
    → w.copied ≡ ok reply
    → create_checkpoint w.checkpoint_names w.checkpoint_id w.copied w.copied_size d ≡ (
        let reserved = (reserve_checkpoint_path w.checkpoint_names d).0 in
        record {
          directory = record reserved { files = insert p w.copied_size reserved.files };
          sent = save_copy p w.checkpoint_id ∷ [];
          result = ok (p, reply);
        })
unfolding create_checkpoint
create_checkpoint-ok w d p reply given good = ground (arith, given, good)

create_checkpoint-fails :
    (w : Answers) (d : Directory) (p : String) (e : Thrown)
    → (reserve_checkpoint_path w.checkpoint_names d).1 ≡ ok p
    → w.copied ≡ throw e
    → let o = create_checkpoint w.checkpoint_names w.checkpoint_id w.copied w.copied_size d in
      (o.result ≡ throw e) × (any replaces o.sent ≡ false)
unfolding create_checkpoint
create_checkpoint-fails w d p e given failed =
    (ground (arith, given, failed), ground (arith, given, failed))

free_name_or_error :
    (names : Result (ℕ → String)) (d : Directory)
    → let (d', result) = reserve_checkpoint_path names d in
      ((path : String) × (result ≡ ok path) × IsReserved path d d')
      ⊎ ((e : Thrown) × (result ≡ throw e))
unfolding reserve_checkpoint_path
free_name_or_error (throw e) d = inr (e, refl)
free_name_or_error (ok name) d = elim (reserve_checkpoint_path-ok name d) [
  | inl (k, low, high, given, taken, open_) ↦ inl (name k, given, taken)
  | inr (same, failed, why) ↦ inr (retryable internal, failed)
]

pub create_checkpoint_cases :
    (w : Answers) (d : Directory)
    → Made w d (create_checkpoint w.checkpoint_names w.checkpoint_id w.copied w.copied_size d)
create_checkpoint_cases w d = elim (free_name_or_error w.checkpoint_names d) [
  | inr (e, failed) ↦
      subst (Made w d) (sym (create_checkpoint-throw w d e failed)) (inr (e, refl, refl))
  | inl (path, given, taken) ↦ elim (Result-cases w.copied) [
    | inl (e, failed) ↦
        let (thrown, quiet) = create_checkpoint-fails w d path e given failed in
        inr (e, thrown, quiet)
    | inr (reply, good) ↦
        let reserved = (reserve_checkpoint_path w.checkpoint_names d).0 in
        subst (Made w d) (sym (create_checkpoint-ok w d path reply given good)) (
          inl (
            path,
            reply,
            refl,
            record {
              copied = (reply, good);
              was_free = taken.was_free;
              written = lookup-insert_self path w.copied_size reserved.files;
              others = λ p other. ground (
                arith,
                lookup-insert path p w.copied_size reserved.files,
                eq_iff path p,
                other,
                taken.others p other,
              );
              only = refl;
            },
          ))
  ]
]
