-- ===== src/PatchFiles.antt =====
-- apps/mcp-server/src/patchfiles.ts: a patch is loaded, cleared or restored behind a confirmation and a
-- recovery checkpoint. What the connection, the clock and the bridge answer are arguments. The
-- listing of the roots and the bodies of previews are not modelled.
pub mod Replace
pub mod Stages
pub mod Confirmed
pub mod Once
pub mod Restore
pub mod Load
mod Tests
use vcv_rack_mcp.Prelude.{
  ℕ, ◌≡◌, String, Bool, true, false, not, List, [], ◌∷◌, Option, none, some, str_eq, ◌==◌, ◌&&◌,
  ◌||◌, if◌then◌else◌, insert,
}
use vcv_rack_mcp.Errors.{
  ErrorCode, timeout, rack_disconnected, Thrown, tool, bridge, other, Result, ok, throw, guard,
  ◌>>=◌, ◌>>◌, to_error_payload, path_not_allowed, confirmation_required,
}
use vcv_rack_mcp.Operations.{Json}
use vcv_rack_mcp.Connection.{SelectedInstance}
use vcv_rack_mcp.Transactions.{
  LoadKind, load, clear, restore, LoadTokenBinding, TransactionManager, Signer,
}
use vcv_rack_mcp.Transactions.LoadTokens.{mint_load_token}
use vcv_rack_mcp.Paths.{FileSystem}
use vcv_rack_mcp.Paths.Policy.{
  PatchRoot, patches, checkpoints, PatchDirectories, ResolvedPath, resolve_patch_path, normal,
}
use vcv_rack_mcp.Paths.Checkpoints.{
  Directory, reserve_checkpoint_path, release_checkpoint_reservation,
}

pub record PatchFingerprint : Type 0 where
  pub fingerprint : String
  pub patch_epoch : ℕ

-- The requests that write or replace a patch.
pub data BridgeCall : Type 0 where
  save_copy : (path operation_id : String) → BridgeCall
  save : (path operation_id : String) → BridgeCall
  load_file : (path : String) → (set_path : Bool) → (operation_id : String) → BridgeCall
  clear_patch : (operation_id : String) → BridgeCall

abbrev pub same_root : PatchRoot → PatchRoot → Bool
same_root patches patches = true
same_root checkpoints checkpoints = true
same_root _ _ = false

unfoldable pub require_root : PatchRoot → ResolvedPath → Result (Unit {0})
require_root want resolved = guard (same_root resolved.root want) path_not_allowed

-- What the bridge did not say of a failure leaves it open whether it still writes.
abbrev pub is_uncertain : ErrorCode → Bool
is_uncertain timeout = true
is_uncertain rack_disconnected = true
is_uncertain _ = false

unfoldable pub plugin_reported_failure : Thrown → Bool
plugin_reported_failure e = not (is_uncertain (to_error_payload e []).code)

unfoldable pub same_path : FileSystem → Option String → String → Bool
same_path fs none b = false
same_path fs (some a) b = str_eq (normal fs a) (normal fs b)

abbrev pub same_kind : LoadKind → LoadKind → Bool
same_kind load load = true
same_kind clear clear = true
same_kind restore restore = true
same_kind _ _ = false

pub record FileOutcome : Type 0 where
  pub directory : Directory
  pub sent : List BridgeCall
  pub result : Result (String × Json)

-- `createCheckpoint` from its reservation on: `saved` is the bridge's reply and `size` what it wrote.
unfoldable pub create_checkpoint :
    (names : Result (ℕ → String))
    → (operation_id : String) → Result Json
    → (size : ℕ) → Directory
    → FileOutcome
create_checkpoint names operation_id saved size d =
    let (reserved, path) = reserve_checkpoint_path names d in
    elim path [
      | throw e ↦ record { directory = reserved; sent = []; result = throw e }
      | ok p ↦ elim saved [
        | throw e ↦ record {
          directory =
              if plugin_reported_failure e
              then release_checkpoint_reservation p reserved
              else reserved;
          sent = save_copy p operation_id ∷ [];
          result = throw e;
        }
        | ok reply ↦ record {
          directory = record reserved { files = insert p size reserved.files };
          sent = save_copy p operation_id ∷ [];
          result = ok (p, reply);
        }
      ]
    ]

-- The target of `savePatch`; without a path the bridge saves where the patch lives.
unfoldable pub save_target : FileSystem → PatchDirectories → Option String → Result String
save_target fs config none = ok ""
save_target fs config (some requested) = if str_eq requested "" then ok "" else do
  resolved ← resolve_patch_path fs config requested false
  require_root patches resolved
  ok resolved.absolute

unfoldable pub check_source : FileSystem → PatchDirectories → String → Result (Unit {0})
check_source fs config requested = do
  resolved ← resolve_patch_path fs config requested true
  require_root patches resolved

-- The file whose size a preview of a load shows.
unfoldable pub find_source :
    FileSystem → PatchDirectories → LoadKind → Option String → Result (Unit {0})
find_source fs config load (some path) =
    let resolved = resolve_patch_path fs config path true in
    if str_eq path "" then ok tt else elim resolved [ throw e ↦ throw e | ok r ↦ ok tt ]
find_source fs config kind path = ok tt

-- `mintLoadToken` for what the bridge reports of the patch.
unfoldable pub mint_for :
    Signer
    → (now : ℕ) → (id : String) → LoadKind
    → Option String
    → SelectedInstance
    → PatchFingerprint
    → TransactionManager
    → TransactionManager × String
mint_for s now id kind path i live m =
    let binding : LoadTokenBinding = record {
      instance_id = i.instance_id;
      session_id = i.session_id;
      kind = kind;
      path = path;
      patch_epoch = live.patch_epoch;
      fingerprint = live.fingerprint;
    } in
    mint_load_token s now id binding m

-- `buildLoadPreview` as far as it mints a token: `state` is the fingerprint that the bridge reports,
-- or how it fails to, with the request for the status before it.
unfoldable pub build_load_preview :
    Signer
    → FileSystem
    → PatchDirectories
    → (now : ℕ) → (id : String) → LoadKind
    → Option String
    → Result SelectedInstance
    → Result PatchFingerprint
    → TransactionManager
    → TransactionManager × Result String
build_load_preview s fs config now id kind path instance state m = elim instance [
  | throw e ↦ (m, throw e)
  | ok i ↦ elim state [
    | throw e ↦ (m, throw e)
    | ok live ↦ elim (find_source fs config kind path) [
      | throw e ↦ (m, throw e)
      | ok u ↦ let (m', token) = mint_for s now id kind path i live m in (m', ok token)
    ]
  ]
]

unfoldable pub preview_load_patch :
    Signer
    → FileSystem
    → PatchDirectories
    → (now : ℕ) → (id : String) → (requested : String) → Result SelectedInstance
    → Result PatchFingerprint
    → TransactionManager
    → TransactionManager × Result String
preview_load_patch s fs config now id requested instance state m =
    elim (check_source fs config requested) [
      | throw e ↦ (m, throw e)
      | ok u ↦ build_load_preview s fs config now id load (some requested) instance state m
    ]

unfoldable pub preview_clear_patch :
    Signer
    → FileSystem
    → PatchDirectories
    → (now : ℕ) → (id : String) → Result SelectedInstance
    → Result PatchFingerprint
    → TransactionManager
    → TransactionManager × Result String
preview_clear_patch s fs config now id instance state m =
    build_load_preview s fs config now id clear none instance state m
