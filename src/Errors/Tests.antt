-- ===== src/Errors/Tests.antt =====
-- The error theorems at a failed commit that was rolled back, and at a long message.
use vcv_rack_mcp.Prelude.{
  ℕ, ◌≡◌, ◌≤◌, ◌⊎◌, ◌<◌, ◌++◌, length, take, true, false, List, some, replicate,
}
use vcv_rack_mcp.Errors.{Thrown, bridge, to_error_payload, truncation_mark}
use vcv_rack_mcp.Errors.Payload.{to_error_payload_message}

abbrev rolled_back : Thrown
rolled_back = bridge (record {
  code = "ROLLBACK_FAILED";
  retry_safe = false;
  mutation_may_have_occurred = true;
  rollback = some (record { complete = false; failed_operation_index = 3; inverses_executed = 2 });
})

abbrev long : List ℕ
long = replicate 5000 97

to_error_payload_message_example :
    let message = (to_error_payload rolled_back long).message in
    (length message ≤ 4096)
    × (((length long ≤ 4096) × (message ≡ long))
        ⊎ ((4096 < length long) × (message ≡ take 4081 long ++ truncation_mark)))
to_error_payload_message_example = to_error_payload_message rolled_back long
