-- ===== src/Audit/Tests.antt =====
-- A log of four bytes is rotated at its second check, by its fourth line of two bytes.
use vcv_rack_mcp.Prelude.{
  ℕ, ◌+◌, ◌<◌, ◌≡◌, refl, String, true, false, List, [], ◌∷◌, none, some, arith,
}
use vcv_rack_mcp.Audit.{AuditRetention, AuditLog, FileAnswers, file_size, record_all}
use vcv_rack_mcp.Audit.Size.{IsBounded, record_all_bound}

abbrev two_bytes : String → ℕ
two_bytes line = 2

abbrev empty : AuditLog
empty = record {
  retention = record { max_bytes = 4; max_age_days = 30 };
  opened = false;
  since_check = 0;
  live = [];
  rotated = none;
}

abbrev works : FileAnswers
works = record {
  now = 5;
  makes_directory = true;
  appends = true;
  inspects = true;
  renames = true;
  removes = true;
}

abbrev entries : List (FileAnswers × String)
entries = (works, "a") ∷ (works, "b") ∷ (works, "c") ∷ (works, "d") ∷ []

rotated_once :
    (record_all two_bytes entries empty).rotated
    ≡ some (record { lines = "a" ∷ "b" ∷ "c" ∷ "d" ∷ []; modified_at = 5 })
unfolding record_all vcv_rack_mcp.Audit.record_line vcv_rack_mcp.Audit.ensure_file
    vcv_rack_mcp.Audit.expire_rotated vcv_rack_mcp.Audit.rotate_if_large vcv_rack_mcp.Audit.rotate
rotated_once = refl

empty-IsBounded : IsBounded two_bytes empty
empty-IsBounded = record { near = omega arith; fresh = omega arith }

record_all_bound_example :
    file_size two_bytes (record_all two_bytes entries empty).live < 4 + 65_536
record_all_bound_example =
    record_all_bound two_bytes entries empty (omega arith) empty-IsBounded
      ((refl, refl), ((refl, refl), ((refl, refl), ((refl, refl), tt))))
