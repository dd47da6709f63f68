-- ===== src/Paths/Policy.antt =====
-- paths.ts: `within` and `resolvePatchPath`.
use Prim.Native.String
use vcv_rack_mcp.Prelude.{
  String, Bool, true, false, Option, none, some, str_eq, ◌==◌, ◌&&◌, ◌||◌, not, any, is_some,
  if◌then◌else◌,
}
use vcv_rack_mcp.Errors.{other, Result, ok, throw, path_not_allowed, guard, ◌>>=◌, ◌>>◌}
use vcv_rack_mcp.Paths.{
  FileSystem, FileStatus, real, no_entry, unresolvable, codes, starts_with, ends_with, is_url,
  is_reserved_windows_name,
}
use vcv_rack_mcp.Paths.Canonical.{canonical_allowing_missing, max_link_hops, not_allowed}

pub data PatchRoot : Type 0 where
  patches checkpoints : PatchRoot

pub record PatchDirectories : Type 0 where
  pub patches_dir : String
  pub checkpoints_dir : String

pub record ResolvedPath : Type 0 where
  pub absolute : String
  pub root : PatchRoot
  pub exists : Bool

module _ (fs : FileSystem) where
  -- `canonicalDir`, once `mkdirSync` has made the directory.
  unfoldable pub canonical_dir : String → Result String
  canonical_dir dir = elim (fs.realpath dir) [
    | real canonical ↦ ok canonical
    | no_entry ↦ throw other
    | unresolvable ↦ throw other
  ]

  abbrev pub normal : String → String
  normal s = if fs.windows then fs.lower_case s else s

  abbrev pub with_separator : String → String
  with_separator root =
      if ends_with (codes fs.separator) (codes root) then root else String.◌++◌ root fs.separator

  unfoldable pub within : String → String → Bool
  within root target =
      str_eq (normal target) (normal root)
      || starts_with (codes (normal (with_separator root))) (codes (normal target))

  abbrev pub is_regular : Option FileStatus → Bool
  is_regular none = true
  is_regular (some s) = s.is_file

  abbrev pub is_empty_file : Option FileStatus → Bool
  is_empty_file none = false
  is_empty_file (some s) = s.size == 0

  -- The root that holds the canonical path, the patches first.
  unfoldable pub root_of : String → String → String → Result PatchRoot
  root_of patches_root checkpoints_root canonical =
      if within patches_root canonical
      then ok patches
      else if within checkpoints_root canonical
      then ok checkpoints
      else not_allowed

  -- The tests on the text of the request.
  unfoldable pub check_request : String → Result (Unit {0})
  check_request requested = do
    guard (not (str_eq requested "") && not (is_url requested)) path_not_allowed
    guard (not (any (λ c. c == 0) (codes requested))) path_not_allowed
    guard (ends_with (codes ".vcv") (codes (fs.lower_case requested))) path_not_allowed
    guard (not (fs.windows && is_reserved_windows_name (fs.basename requested))) path_not_allowed

  -- Running out of fuel, which does not happen, stands as a refusal.
  abbrev pub finished : Option (Result String) → Result String
  finished none = not_allowed
  finished (some r) = r

  -- The tests on the canonical path.
  unfoldable pub check_target : PatchRoot → (must_exist : Bool) → String → Result ResolvedPath
  check_target root must_exist canonical = do
    let found = fs.status canonical
    guard (is_some found || is_some (fs.status (fs.parent canonical))) path_not_allowed
    guard (not must_exist || is_some found) path_not_allowed
    guard (not must_exist || not (is_empty_file found)) path_not_allowed
    ok (record { absolute = canonical; root = root; exists = is_some found })

  unfoldable pub resolve_patch_path :
      PatchDirectories → String → (must_exist : Bool) → Result ResolvedPath
  resolve_patch_path config requested must_exist = do
    check_request requested
    patches_root ← canonical_dir config.patches_dir
    checkpoints_root ← canonical_dir config.checkpoints_dir
    canonical ← finished (canonical_allowing_missing fs max_link_hops (fs.resolve requested))
    guard (is_regular (fs.status canonical)) path_not_allowed
    root ← root_of patches_root checkpoints_root canonical
    check_target root must_exist canonical
