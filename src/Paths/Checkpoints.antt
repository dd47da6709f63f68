-- ===== src/Paths/Checkpoints.antt =====
-- paths.ts: the names of checkpoints, and their reservation in the checkpoints directory. The
-- directory is its files with their sizes; that creating a missing file succeeds is a flag.
use Prim.Native.Char.{Char, code}
use Prim.Native.String
use vcv_rack_mcp.Prelude.{
  ℕ, zero, suc, String, Bool, false, List, Option, none, some, leb, ltb, ◌==◌, ◌||◌, ◌&&◌,
  if◌then◌else◌, not, lookup, insert, delete,
}
use vcv_rack_mcp.Errors.{Result, ok, throw, retryable, internal, other}
use vcv_rack_mcp.Paths.{FileSystem}
use vcv_rack_mcp.Paths.Policy.{canonical_dir}

pub record Directory : Type 0 where
  pub files : List (String × ℕ)
  pub writable : Bool

-- `[a-zA-Z0-9_-]`
abbrev pub is_safe : ℕ → Bool
is_safe c =
    (leb 97 c && leb c 122)
    || (leb 65 c && leb c 90)
    || (leb 48 c && leb c 57)
    || c == 95
    || c == 45

abbrev underscore : Char
underscore = "_"

-- Each UTF-16 unit that is not safe is replaced: a character beyond the first 2 ^ 16 has two.
unfoldable pub replace_unsafe : String → String
replace_unsafe String.[] = String.[]
replace_unsafe (String.◌∷◌ c s) =
    let rest = replace_unsafe s in
    if is_safe (code c)
    then String.◌∷◌ c rest
    else if ltb (code c) 65536
    then String.◌∷◌ underscore rest
    else String.◌∷◌ underscore (String.◌∷◌ underscore rest)

-- `slice(0, n)`
unfoldable pub prefix : ℕ → String → String
prefix zero s = String.[]
prefix (suc n) String.[] = String.[]
prefix (suc n) (String.◌∷◌ c s) = String.◌∷◌ c (prefix n s)

unfoldable pub safe_label : Option String → String
safe_label none = prefix 40 (replace_unsafe "checkpoint")
safe_label (some label) = prefix 40 (replace_unsafe label)

-- `checkpointPath` without its extension: `stamp` is the ISO time with its colons and dots replaced.
unfoldable pub checkpoint_stem :
    (join : String → String → String) → String → String → Option String → String
checkpoint_stem join root stamp label =
    join root (String.◌++◌ stamp (String.◌++◌ "_" (safe_label label)))

-- The n-th name that is tried; `decimal` prints a number.
unfoldable pub candidate : (decimal : ℕ → String) → String → ℕ → String
candidate decimal stem n =
    if n == 1
    then String.◌++◌ stem ".vcv"
    else String.◌++◌ stem (String.◌++◌ "-" (String.◌++◌ (decimal n) ".vcv"))

abbrev pub max_checkpoint_attempts : ℕ
max_checkpoint_attempts = 100

-- The attempts from the n-th, of which `left` remain.
unfoldable pub try_names : (ℕ → String) → (n left : ℕ) → Directory → Directory × Result String
try_names name n zero d = (d, throw (retryable internal))
try_names name n (suc left) d = elim (lookup (name n) d.files) [
  | some size ↦ try_names name (suc n) left d
  | none ↦
      if d.writable
      then (record d { files = insert (name n) 0 d.files }, ok (name n))
      else (d, throw (retryable internal))
]

-- The names that `checkpointPath` gives to try: `made` is whether `mkdirSync` makes the directory.
unfoldable pub checkpoint_names :
    FileSystem
    → (made : Bool) → (dir : String) → (join : String → String → String) → (decimal : ℕ → String)
    → (stamp : String) → Option String
    → Result (ℕ → String)
checkpoint_names fs made dir join decimal stamp label =
    if not made then throw other else elim (canonical_dir fs dir) [
      | throw e ↦ throw e
      | ok root ↦ ok (candidate decimal (checkpoint_stem join root stamp label))
    ]

unfoldable pub reserve_checkpoint_path : Result (ℕ → String) → Directory → Directory × Result String
reserve_checkpoint_path (throw e) d = (d, throw e)
reserve_checkpoint_path (ok name) d = try_names name 1 max_checkpoint_attempts d

abbrev pub is_zero_size : Option ℕ → Bool
is_zero_size none = false
is_zero_size (some n) = n == 0

-- Only an empty file is removed.
unfoldable pub release_checkpoint_reservation : String → Directory → Directory
release_checkpoint_reservation path d =
    if is_zero_size (lookup path d.files) then record d { files = delete path d.files } else d
