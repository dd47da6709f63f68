-- ===== src/Paths.antt =====
-- apps/mcp-server/src/paths.ts: which paths a patch file may have. The file system and node:path are
-- the parameter `FileSystem`; the answers are those at the moment of the call.
pub mod Policy
pub mod Canonical
pub mod Checkpoints
pub mod Containment
pub mod Reservation
pub mod Samples
mod Tests
use Prim.Native.Char.{Char, code}
use Prim.Native.String
use vcv_rack_mcp.Prelude.{
  ℕ, zero, suc, ◌+◌, ◌<◌, ◌≡◌, ◌≢◌, String, Bool, true, false, List, [], ◌∷◌, ◌++◌, Option, none,
  some, map, leb, ltb, ◌==◌, str_eq, ◌&&◌, ◌||◌, not, any, if◌then◌else◌,
}

-- The code units of a text.
abbrev pub codes : String → List ℕ
codes String.[] = []
codes (String.◌∷◌ c s) = code c ∷ codes s

-- `s.startsWith(prefix)`
unfoldable pub starts_with : List ℕ → List ℕ → Bool
starts_with [] s = true
starts_with (p ∷ ps) [] = false
starts_with (p ∷ ps) (c ∷ s) = p == c && starts_with ps s

unfoldable pub same_codes : List ℕ → List ℕ → Bool
same_codes [] [] = true
same_codes (a ∷ as_) (b ∷ bs) = a == b && same_codes as_ bs
same_codes _ _ = false

-- `s.endsWith(suffix)`
unfoldable pub ends_with : List ℕ → List ℕ → Bool
ends_with suffix [] = same_codes suffix []
ends_with suffix (c ∷ s) = same_codes suffix (c ∷ s) || ends_with suffix s

-- What the flag `i` of a pattern folds: the ASCII letters.
abbrev pub fold_case : ℕ → ℕ
fold_case c = if leb 65 c && leb c 90 then c + 32 else c

abbrev pub is_letter : ℕ → Bool
is_letter c = leb 97 c && leb c 122

abbrev pub is_digit : ℕ → Bool
is_digit c = leb 48 c && leb c 57

-- `[a-z0-9+.-]`
abbrev pub is_scheme_char : ℕ → Bool
is_scheme_char c = is_letter c || is_digit c || c == 43 || c == 46 || c == 45

-- `[a-z0-9+.-]*://` from here.
unfoldable pub scheme_rest : List ℕ → Bool
scheme_rest [] = false
scheme_rest (c ∷ s) = starts_with (codes "://") (c ∷ s) || (is_scheme_char c && scheme_rest s)

-- `[a-z][a-z0-9+.-]+://`
unfoldable pub has_scheme : List ℕ → Bool
has_scheme (a ∷ b ∷ s) = is_letter a && is_scheme_char b && scheme_rest s
has_scheme _ = false

unfoldable pub is_url : String → Bool
is_url p =
    let folded = map fold_case (codes p) in has_scheme folded || starts_with (codes "file:") folded

-- The text up to the first dot, and the rest from there.
unfoldable pub split_extension : List ℕ → List ℕ × List ℕ
split_extension [] = ([], [])
split_extension (c ∷ s) =
    let (stem, rest) = split_extension s in if c == 46 then ([], c ∷ s) else (c ∷ stem, rest)

abbrev pub is_line_terminator : ℕ → Bool
is_line_terminator c = c == 10 || c == 13 || c == 8232 || c == 8233

-- `com` or `lpt` and one of the digits from 1.
abbrev pub is_numbered_device : List ℕ → Bool
is_numbered_device (a ∷ b ∷ c ∷ d ∷ []) =
    (same_codes (codes "com") (a ∷ b ∷ c ∷ []) || same_codes (codes "lpt") (a ∷ b ∷ c ∷ []))
    && leb 49 d
    && leb d 57
is_numbered_device _ = false

abbrev pub is_device : List ℕ → Bool
is_device s =
    same_codes (codes "con") s
    || same_codes (codes "prn") s
    || same_codes (codes "aux") s
    || same_codes (codes "nul") s
    || is_numbered_device s

-- A device name with any extension, or a last character that is a dot or a space.
unfoldable pub is_reserved_windows_name : String → Bool
is_reserved_windows_name name =
    let (stem, rest) = split_extension (map fold_case (codes name)) in
    (is_device stem && not (any is_line_terminator rest))
    || ends_with (codes ".") (codes name)
    || ends_with (codes " ") (codes name)

-- `realpathSync.native`: the canonical path, ENOENT, or another error.
pub data RealPath : Type 0 where
  real : String → RealPath
  no_entry unresolvable : RealPath

pub record FileStatus : Type 0 where
  pub is_file : Bool
  pub size : ℕ

pub record FileSystem : Type 0 where
  pub windows : Bool
  pub separator : String
  pub realpath : String → RealPath
  -- The target of a symbolic link; `none` for anything else, and where nothing is there.
  pub read_link : String → Option String
  -- `existsSync` and `statSync`.
  pub status : String → Option FileStatus
  -- `resolve(path)`, `resolve(path, "..")`, `resolve(directory, path)` and `basename`.
  pub resolve : String → String
  pub parent : String → String
  pub join : String → String → String
  pub basename : String → String
  -- `toLowerCase`
  pub lower_case : String → String
  -- The length of the way up to the root.
  pub depth : String → ℕ
  pub parent_shorter : (p : String) → parent p ≢ p → depth (parent p) < depth p
