-- ===== src/Spawn/Policy/Tools.antt =====
-- supervisor/internal/spawn/pipeline.go: the names of tools, bare or behind the prefix of their server.
use garrison.Common.{Bool, true, none, some, if◌then◌else◌}
use garrison.Common.Bytes.{codes, bytes_eq}
use garrison.Common.Replace.{strip_prefix, is_prefix}
use garrison.ClaudeProto.Events.{Text}
use garrison.ClaudeProto.Decode.{is_empty}

abbrev pub finalize_tool_ticket : Text
finalize_tool_ticket = codes "finalize_ticket"

abbrev pub finalize_tool_oneshot : Text
finalize_tool_oneshot = codes "finalize_oneshot"

abbrev without_prefix : Text → Text → Text
without_prefix prefix name = elim (strip_prefix prefix name) [ none ↦ name | some rest ↦ rest ]

-- `tool_name` is that of the hook; an empty one is that of tickets
unfoldable pub is_expected_finalize_tool : Text → Text → Bool
is_expected_finalize_tool tool_name name =
    bytes_eq (without_prefix (codes "mcp__finalize__") name)
      (if is_empty tool_name then finalize_tool_ticket else tool_name)

unfoldable pub is_mempalace_tool_name : Text → Bool
is_mempalace_tool_name name =
    if is_prefix (codes "mcp__mempalace__") name then true else is_prefix (codes "mempalace_") name
