-- ===== src/Paths/Tests.antt =====
-- The path theorems on a small file system.
use vcv_rack_mcp.Prelude.{
  none, ◌≢◌, ℕ, ◌≡◌, ◌≤◌, ◌<◌, ◌+◌, ◌⊎◌, refl, String, true, false, [], ◌∷◌, some, lookup,
}
use vcv_rack_mcp.Errors.{
  other, Result, ok, throw, retryable, internal, tool_error, path_not_allowed,
}
use vcv_rack_mcp.Paths.{real, FileSystem, FileStatus, is_url, is_reserved_windows_name}
use vcv_rack_mcp.Paths.Canonical.{
  canonical_allowing_missing, canonical_allowing_missing-Ends, max_link_hops,
}
use vcv_rack_mcp.Paths.Policy.{patches, checkpoints, ResolvedPath, resolve_patch_path, within}
use vcv_rack_mcp.Paths.Containment.{IsAllowed, resolve_patch_path-IsAllowed}
use vcv_rack_mcp.Paths.Checkpoints.{
  Directory, candidate, checkpoint_names, checkpoint_stem, reserve_checkpoint_path,
}
use vcv_rack_mcp.Paths.Reservation.{IsReserved, reserve_checkpoint_path_cases}
use vcv_rack_mcp.Paths.Samples.{sample_files, sample_roots}

abbrev new_patch : ResolvedPath
new_patch = record { absolute = "/p/new.vcv"; root = patches; exists = false }

resolve-link : resolve_patch_path sample_files sample_roots "/p/link.vcv" false ≡ ok new_patch
unfolding resolve_patch_path vcv_rack_mcp.Paths.Policy.check_request is_url
    vcv_rack_mcp.Paths.has_scheme vcv_rack_mcp.Paths.starts_with vcv_rack_mcp.Paths.ends_with
    vcv_rack_mcp.Paths.same_codes vcv_rack_mcp.Paths.Policy.canonical_dir canonical_allowing_missing
    vcv_rack_mcp.Paths.Canonical.up_parents vcv_rack_mcp.Paths.Canonical.through_link
    vcv_rack_mcp.Paths.Policy.root_of within vcv_rack_mcp.Paths.Policy.check_target
resolve-link = refl

resolve-missing :
    resolve_patch_path sample_files sample_roots "/p/link.vcv" true
    ≡ throw (tool_error path_not_allowed)
unfolding resolve_patch_path vcv_rack_mcp.Paths.Policy.check_request is_url
    vcv_rack_mcp.Paths.has_scheme vcv_rack_mcp.Paths.starts_with vcv_rack_mcp.Paths.ends_with
    vcv_rack_mcp.Paths.same_codes vcv_rack_mcp.Paths.Policy.canonical_dir canonical_allowing_missing
    vcv_rack_mcp.Paths.Canonical.up_parents vcv_rack_mcp.Paths.Canonical.through_link
    vcv_rack_mcp.Paths.Policy.root_of within vcv_rack_mcp.Paths.Policy.check_target
resolve-missing = refl

resolve_patch_path-IsAllowed_example :
    IsAllowed sample_files sample_roots "/p/link.vcv" false new_patch
resolve_patch_path-IsAllowed_example =
    resolve_patch_path-IsAllowed sample_files sample_roots "/p/link.vcv" false new_patch
      resolve-link

canonical_allowing_missing-Ends_example :
    (r : Result String) × (canonical_allowing_missing sample_files max_link_hops "/p/link.vcv"
      ≡ some r)
canonical_allowing_missing-Ends_example =
    canonical_allowing_missing-Ends sample_files max_link_hops "/p/link.vcv"

abbrev one_taken : Directory
one_taken = record { files = ("/p.vcv", 5) ∷ []; writable = true }

reserve_checkpoint_path_cases_example :
    let names =
      checkpoint_names sample_files true "/p" (λ root name. root) (λ k. "x") "stamp" none in
    let (d', result) = reserve_checkpoint_path names one_taken in
    ((true ≡ true)
      × ((root : String) × (sample_files.realpath "/p" ≡ real root)
          × (let name =
                candidate (λ k. "x") (checkpoint_stem (λ root name. root) root "stamp" none) in
              ((k : ℕ) × (1 ≤ k)
                × (k < 1 + 100)
                × (result ≡ ok (name k))
                × IsReserved (name k) one_taken d'
                × (one_taken.writable ≡ true))
              ⊎ ((d' ≡ one_taken)
                  × (result ≡ throw (retryable internal))
                  × ((one_taken.writable ≡ false)
                      ⊎ ((k : ℕ)
                          → 1 ≤ k
                          → k < 1 + 100
                          → (size : ℕ) × (lookup (name k) one_taken.files ≡ some size)))))))
    ⊎ (((true ≡ false) ⊎ ((root : String) → sample_files.realpath "/p" ≢ real root))
        × (d' ≡ one_taken)
        × (result ≡ throw other))
reserve_checkpoint_path_cases_example =
    reserve_checkpoint_path_cases sample_files true "/p" (λ root name. root) (λ k. "x") "stamp" none
      one_taken

reserve-second :
    (reserve_checkpoint_path
      (checkpoint_names sample_files true "/p" (λ root name. root) (λ k. "x") "stamp" none)
      one_taken).1
    ≡ ok "/p-x.vcv"
unfolding reserve_checkpoint_path vcv_rack_mcp.Paths.Checkpoints.try_names lookup candidate
    checkpoint_names checkpoint_stem vcv_rack_mcp.Paths.Policy.canonical_dir
reserve-second = refl

device_names : is_reserved_windows_name "nul.vcv" ≡ true
unfolding is_reserved_windows_name vcv_rack_mcp.Paths.same_codes vcv_rack_mcp.Paths.split_extension
device_names = refl

plain_names : is_reserved_windows_name "nulls.vcv" ≡ false
unfolding is_reserved_windows_name vcv_rack_mcp.Paths.same_codes vcv_rack_mcp.Paths.split_extension
    vcv_rack_mcp.Paths.ends_with
plain_names = refl

beside_root : within sample_files "/p" "/p2/a.vcv" ≡ false
unfolding within vcv_rack_mcp.Paths.starts_with vcv_rack_mcp.Paths.ends_with
    vcv_rack_mcp.Paths.same_codes
beside_root = refl

urls : (is_url "file:x.vcv" ≡ true) × (is_url "c:x.vcv" ≡ false)
unfolding is_url vcv_rack_mcp.Paths.has_scheme vcv_rack_mcp.Paths.scheme_rest
    vcv_rack_mcp.Paths.starts_with
urls = (refl, refl)
