-- ===== src/Tools.antt =====
-- apps/mcp-server/src/tools.ts: the handlers that put other components together. What the bridge, the
-- connection and the clock answer in the course of a call are arguments.
pub mod Build
pub mod Unattended
pub mod BuildRecipe
mod Tests
use vcv_rack_mcp.Prelude.{ℕ, ◌==◌, String, Bool, List, [], ◌∷◌, Option, none, some, find}
use vcv_rack_mcp.Errors.{Thrown, tool_error, Result, ok, throw, ◌>>=◌, ◌>>◌, parameter_not_found}
use vcv_rack_mcp.Operations.{Json}
use vcv_rack_mcp.Connection.{SelectedInstance}

-- `txn.undoLast`: the transaction that is meant, and the undo's own key.
pub record UndoRequest : Type 0 where
  pub instance_id : String
  pub session_id : String
  pub expected_operation_id : String
  pub operation_id : String

pub record UndoOutcome : Type 0 where
  pub sent : List UndoRequest
  pub result : Result Json

-- `id` is a fresh random id.
unfoldable pub undo_last_mcp_transaction :
    (instance : Result SelectedInstance)
    → (lease : Result (Unit {0})) → (id : String) → (operation_id : String) → (reply : Result Json)
    → UndoOutcome
undo_last_mcp_transaction (throw e) lease id operation_id reply = record {
  sent = [];
  result = throw e;
}
undo_last_mcp_transaction (ok i) (throw e) id operation_id reply = record {
  sent = [];
  result = throw e;
}
undo_last_mcp_transaction (ok i) (ok _) id operation_id reply = record {
  sent =
      record {
        instance_id = i.instance_id;
        session_id = i.session_id;
        expected_operation_id = operation_id;
        operation_id = id;
      }
      ∷ [];
  result = reply;
}
