-- ===== src/ClaudeProto/Events.antt =====
-- supervisor/internal/claudeproto/events.go. Texts that the code walks or tests for emptiness are
-- lists of bytes; `json.Number` and the floats, which are only carried, are texts too.
use garrison.Common.{ℕ, String, Bool, List}
use garrison.Common.Int.{ℤ}
use garrison.ClaudeProto.Health.{McpServer}

abbrev pub Text : Type 0
Text = List ℕ

pub record InitEvent : Type 0 where
  pub session_id : Text
  pub model : Text
  pub cwd : Text
  pub tools : List Text
  pub mcp_servers : List McpServer
  pub raw : Text

pub record ToolUseBlock : Type 0 where
  pub name : Text
  pub tool_use_id : String
  pub input_raw : Text

pub record AssistantEvent : Type 0 where
  pub model : Text
  pub content_block_count : ℕ
  pub content_types : List String
  pub tool_uses : List ToolUseBlock
  pub raw : Text

pub record ToolResultSummary : Type 0 where
  pub tool_use_id : String
  pub is_error : Bool
  pub detail : Text

pub record UserEvent : Type 0 where
  pub tool_results : List ToolResultSummary
  pub raw : Text

pub record RateLimitInfo : Type 0 where
  pub status : String
  pub resets_at : ℤ
  pub rate_limit_type : String
  pub utilization : Text
  pub is_using_overage : Bool
  pub surpassed_threshold : Text

pub record RateLimitEvent : Type 0 where
  pub info : RateLimitInfo
  pub uuid : Text
  pub session_id : Text
  pub raw : Text

pub record ResultEvent : Type 0 where
  pub subtype : Text
  pub is_error : Bool
  pub duration_ms : ℤ
  pub duration_api_ms : ℤ
  pub total_cost_usd : Text
  pub terminal_reason : Text
  pub stop_reason : Text
  pub result : Text
  pub permission_denials : List Text
  pub session_id : Text
  pub raw : Text

pub record StreamInner : Type 0 where
  pub index : ℤ
  pub delta_type : Text
  pub delta_text : Text
  pub stop_reason : Text
  pub input_tokens : ℤ
  pub output_tokens : ℤ
  pub cache_read_input : ℤ
  pub cache_creation_input : ℤ

pub record StreamEvent : Type 0 where
  pub session_id : Text
  pub inner_type : Text
  pub inner : StreamInner
  pub raw : Text

pub record UnknownEvent : Type 0 where
  pub type : String
  pub subtype : String
  pub raw : Text
