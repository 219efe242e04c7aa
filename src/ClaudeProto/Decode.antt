-- ===== src/ClaudeProto/Decode.antt =====
-- The decoders of supervisor/internal/claudeproto/router.go. `encoding/json` is a parameter: one
-- function for each type that the code unmarshals into, `none` where it reports an error.
use garrison.Common.{
  String, Bool, true, false, not, ◌&&◌, Option, none, some, List, [], ◌∷◌, ◌++◌, str_eq, length,
  if◌then◌else◌, ◌==◌,
}
use garrison.Common.Int.{ℤ, pos, pos_part, neg_part, ltb_ℤ}
use garrison.Common.Bytes.{codes}
use garrison.ClaudeProto.Events.{
  Text, InitEvent, ToolUseBlock, AssistantEvent, ToolResultSummary, UserEvent, RateLimitEvent,
  ResultEvent, StreamInner, StreamEvent,
}

pub record Envelope : Type 0 where
  pub type : String
  pub subtype : String

pub record AssistantBlock : Type 0 where
  pub type : String
  pub name : Text
  pub id : String
  pub input : Text

pub record UserBlock : Type 0 where
  pub type : String
  pub tool_use_id : String
  pub is_error : Bool
  pub content : Text

pub record TextBlock : Type 0 where
  pub type : String
  pub text : Text

pub record AssistantWire : Type 0 where
  pub model : Text
  pub content : List AssistantBlock

pub record StreamEventWire : Type 0 where
  pub session_id : Text
  pub type : Text
  pub inner : StreamInner

-- What is decoded of `event.usage`; an error leaves it as far as it went.
pub record DeltaUsage : Type 0 where
  pub input_tokens : ℤ
  pub output_tokens : ℤ

-- The functions of `encoding/json`, each at the type that the code unmarshals into.
pub record Json : Type 0 where
  pub envelope : Text → Option Envelope
  pub init : Text → Option InitEvent
  pub assistant : Text → Option AssistantWire
  pub user : Text → Option (List UserBlock)
  pub rate_limit : Text → Option RateLimitEvent
  pub stream_event : Text → Option StreamEventWire
  pub delta_usage : Text → DeltaUsage
  pub result : Text → Option ResultEvent
  pub text : Text → Option Text
  pub text_blocks : Text → Option (List TextBlock)

-- `s == ""`
abbrev pub is_empty : Text → Bool
is_empty [] = true
is_empty (c ∷ s) = false

abbrev is_seen : String → List String → Bool
is_seen t [] = false
is_seen t (u ∷ types) = if str_eq t u then true else is_seen t types

-- The types of the blocks, each once, in the order of their first block.
content_types : List String → List AssistantBlock → List String
content_types types [] = types
content_types types (b ∷ blocks) =
    content_types (if is_seen b.type types then types else types ++ b.type ∷ []) blocks

abbrev tool_use_of : AssistantBlock → ToolUseBlock
tool_use_of b = record { name = b.name; tool_use_id = b.id; input_raw = b.input }

tool_uses : List AssistantBlock → List ToolUseBlock
tool_uses [] = []
tool_uses (b ∷ blocks) =
    let rest = tool_uses blocks in if str_eq b.type "tool_use" then tool_use_of b ∷ rest else rest

unfoldable pub decode_assistant : Json → Text → Option AssistantEvent
unfolding content_types tool_uses
decode_assistant json raw = elim (json.assistant raw) [
  | none ↦ none
  | some wire ↦ some (record {
    model = wire.model;
    content_block_count = length wire.content;
    content_types = content_types [] wire.content;
    tool_uses = tool_uses wire.content;
    raw = raw;
  })
]

first_text : List TextBlock → Text
first_text [] = []
first_text (b ∷ blocks) =
    if str_eq b.type "text" && not (is_empty b.text) then b.text else first_text blocks

-- A text, or the first text of an array of blocks.
unfoldable pub summarize_detail : Json → Text → Text
unfolding first_text
summarize_detail json [] = []
summarize_detail json (c ∷ content) = elim (json.text (c ∷ content)) [
  | some s ↦ s
  | none ↦ elim (json.text_blocks (c ∷ content)) [ some blocks ↦ first_text blocks | none ↦ [] ]
]

tool_results : Json → List UserBlock → List ToolResultSummary
unfolding summarize_detail
tool_results json [] = []
tool_results json (b ∷ blocks) =
    let rest = tool_results json blocks in
    if str_eq b.type "tool_result"
    then record {
      tool_use_id = b.tool_use_id;
      is_error = b.is_error;
      detail = summarize_detail json b.content;
    }
      ∷ rest
    else rest

unfoldable pub decode_user : Json → Text → Option UserEvent
unfolding tool_results
decode_user json raw = elim (json.user raw) [
  | none ↦ none
  | some blocks ↦ some (record { tool_results = tool_results json blocks; raw = raw })
]

-- The count of a message, or that of its delta if the first is zero and the second is positive.
merge : ℤ → ℤ → ℤ
merge count delta =
    if (pos_part count == 0 && neg_part count == 0) && ltb_ℤ (pos 0) delta then delta else count

unfoldable pub decode_stream_event : Json → Text → Option StreamEvent
unfolding merge
decode_stream_event json raw = elim (json.stream_event raw) [
  | none ↦ none
  | some wire ↦
      let usage = json.delta_usage raw in
      some (record {
        session_id = wire.session_id;
        inner_type = wire.type;
        inner = record wire.inner {
          output_tokens = merge wire.inner.output_tokens usage.output_tokens;
          input_tokens = merge wire.inner.input_tokens usage.input_tokens;
        };
        raw = raw;
      })
]

terminal_reason : ResultEvent → Text
terminal_reason e =
    if not (is_empty e.subtype)
    then e.subtype
    else if not (is_empty e.stop_reason)
    then e.stop_reason
    else codes "completed"

unfoldable pub decode_result : Json → Text → Option ResultEvent
unfolding terminal_reason
decode_result json raw = elim (json.result raw) [
  | none ↦ none
  | some e ↦ some (record e { raw = raw; terminal_reason = terminal_reason e })
]
