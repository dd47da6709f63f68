-- ===== src/Audit.antt =====
-- apps/mcp-server/src/audit.ts: the audit log, its rotation by size and its expiry by age. The two files
-- are part of the state, as lists of lines; what the file system lets happen is an argument, and
-- `bytes` is the length of a line in UTF-8.
pub mod Size
mod Tests
use vcv_rack_mcp.Prelude.{
  ℕ, ◌+◌, ◌-◌, ◌*◌, ◌==◌, min, max, String, Bool, true, false, not, List, [], ◌∷◌, ◌++◌, Option,
  none, some, ltb, leb, ◌&&◌, ◌||◌, if◌then◌else◌,
}

-- 0 turns a limit off.
pub record AuditRetention : Type 0 where
  pub max_bytes : ℕ
  pub max_age_days : ℕ

pub record Rotated : Type 0 where
  pub lines : List String
  pub modified_at : ℕ

pub record AuditLog : Type 0 where
  pub retention : AuditRetention
  -- That `ensureFile` has succeeded.
  pub opened : Bool
  pub since_check : ℕ
  pub live : List String
  pub rotated : Option Rotated

-- In the course of one call: the clock, and which operations on the files succeed.
pub record FileAnswers : Type 0 where
  pub now : ℕ
  pub makes_directory : Bool
  pub appends : Bool
  pub inspects : Bool
  pub renames : Bool
  pub removes : Bool

abbrev pub day_ms : ℕ
day_ms = 86_400_000

abbrev pub is_expired : ℕ → AuditRetention → Rotated → Bool
is_expired now retention r = ltb (retention.max_age_days * day_ms) (now - r.modified_at)

unfoldable pub expire_rotated : FileAnswers → AuditLog → AuditLog
expire_rotated w a = elim a.rotated [
  | none ↦ a
  | some r ↦
      if not (a.retention.max_age_days == 0) && is_expired w.now a.retention r && w.removes
      then record a { rotated = none }
      else a
]

-- The file is there to be written to if the Boolean is true.
unfoldable pub ensure_file : FileAnswers → AuditLog → AuditLog × Bool
ensure_file w a =
    if a.opened
    then (a, true)
    else if w.makes_directory
    then (record (expire_rotated w a) { opened = true }, true)
    else (a, false)

-- The bytes written that make a check of the size worth while.
abbrev pub check_threshold : AuditRetention → ℕ
check_threshold retention = min 65_536 (max 1 retention.max_bytes)

module _ (bytes : String → ℕ) where
  abbrev pub file_size : List String → ℕ
  file_size [] = 0
  file_size (line ∷ lines) = bytes line + file_size lines

  -- `renameSync` replaces the generation that is there.
  unfoldable pub rotate : FileAnswers → AuditLog → AuditLog
  rotate w a =
      let expired = expire_rotated w a in
      if w.renames
      then record expired {
        live = [];
        rotated = some (record { lines = a.live; modified_at = w.now });
      }
      else expired

  unfoldable pub rotate_if_large : FileAnswers → AuditLog → AuditLog
  rotate_if_large w a =
      let checked = record a { since_check = 0 } in
      if a.retention.max_bytes == 0 || ltb a.since_check (check_threshold a.retention)
      then a
      else if not w.inspects || leb (file_size a.live) a.retention.max_bytes
      then checked
      else rotate w checked

  -- `record`, for the text of an entry's line. An append that fails has written nothing.
  unfoldable pub record_line : FileAnswers → String → AuditLog → AuditLog
  record_line w line a =
      let (ready, there) = ensure_file w a in
      let appended = record ready {
        live = ready.live ++ (line ∷ []);
        since_check = ready.since_check + bytes line;
      } in
      if there && w.appends then rotate_if_large w appended else ready

  unfoldable pub record_all : List (FileAnswers × String) → AuditLog → AuditLog
  record_all [] a = a
  record_all ((w, line) ∷ entries) a = record_all entries (record_line w line a)
