-- ===== src/Paths/Samples.antt =====
-- A file system with two roots, in which a patch is there, another is not, and a link leads to it.
use Prim.Native.String
use vcv_rack_mcp.Prelude.{
  ℕ, ◌≢◌, ◌<◌, refl, String, Bool, true, false, Option, none, some, str_eq, inl, inr, Bool-cases,
  ◌||◌, if◌then◌else◌, arith,
}
use vcv_rack_mcp.Paths.{RealPath, real, no_entry, FileStatus, FileSystem}
use vcv_rack_mcp.Paths.Policy.{PatchDirectories}

abbrev inside : String → Bool
inside p =
    str_eq p "/p/a.vcv" || str_eq p "/p/new.vcv" || str_eq p "/p/link.vcv" || str_eq p "/c/r.vcv"

abbrev sample_parent : String → String
sample_parent p = if inside p then "/p" else p

abbrev sample_depth : String → ℕ
sample_depth p = if inside p then 1 else 0

pub sample_parent_shorter :
    (p : String) → sample_parent p ≢ p → sample_depth (sample_parent p) < sample_depth p
sample_parent_shorter p moved = elim (Bool-cases (inside p)) [
  | inl deep ↦ rw (deep) (omega arith)
  | inr top ↦ absurd (moved (rw (top) refl))
]

abbrev sample_realpath : String → RealPath
sample_realpath p =
    if str_eq p "/p" || str_eq p "/c" || str_eq p "/p/a.vcv" || str_eq p "/c/r.vcv"
    then real p
    else no_entry

abbrev sample_status : String → Option FileStatus
sample_status p =
    if str_eq p "/p" || str_eq p "/c"
    then some (record { is_file = false; size = 0 })
    else if str_eq p "/p/a.vcv" || str_eq p "/c/r.vcv"
    then some (record { is_file = true; size = 9 })
    else none

abbrev sample_basename : String → String
sample_basename p =
    if str_eq p "/p/link.vcv" then "link.vcv" else if str_eq p "/p/new.vcv" then "new.vcv" else p

abbrev pub sample_files : FileSystem
sample_files = record {
  windows = false;
  separator = "/";
  realpath = sample_realpath;
  read_link = λ p. if str_eq p "/p/link.vcv" then some "new.vcv" else none;
  status = sample_status;
  resolve = λ p. p;
  parent = sample_parent;
  join = λ d n. String.◌++◌ d (String.◌++◌ "/" n);
  basename = sample_basename;
  lower_case = λ p. p;
  depth = sample_depth;
  parent_shorter = sample_parent_shorter;
}

abbrev pub sample_roots : PatchDirectories
sample_roots = record { patches_dir = "/p"; checkpoints_dir = "/c" }
