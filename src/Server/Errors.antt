-- ===== src/Server/Errors.antt =====
-- engraphy/server/tools/errors.py: the code of the answer to an exception of the core. The model of a
-- failed check tells the trigger on edges apart by its own error.
use engraphy.Core.Tx.{
  Error, not_found, scope_unknown, scope_forbidden, pending_expired, validation, config_error,
  edge_rule, check_violation, unique_violation, privilege, canonical_chain, value_error, type_error,
  key_error,
}

-- The codes of `ToolError` that the server raises.
pub data Code : Type 0 where
  code_not_found code_scope_unknown code_scope code_validation code_pending_expired : Code
  code_internal code_edge_rule code_role code_rate_limited : Code

-- `to_tool_error`
unfoldable pub to_tool_error : Error → Code
to_tool_error not_found = code_not_found
to_tool_error scope_unknown = code_scope_unknown
to_tool_error scope_forbidden = code_scope
to_tool_error validation = code_validation
to_tool_error pending_expired = code_pending_expired
to_tool_error config_error = code_internal
to_tool_error edge_rule = code_edge_rule
to_tool_error check_violation = code_validation
to_tool_error unique_violation = code_internal
to_tool_error value_error = code_validation
to_tool_error key_error = code_validation
to_tool_error privilege = code_internal
to_tool_error canonical_chain = code_internal
to_tool_error type_error = code_internal
