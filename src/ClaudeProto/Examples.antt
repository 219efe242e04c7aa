-- ===== src/ClaudeProto/Examples.antt =====
-- The health check and the dispatch, at concrete inputs.
use garrison.Common.{
  ℕ, String, ◌≡◌, refl, ◌↔◌, false, none, some, List, [], ◌∷◌, ◌==◌, if◌then◌else◌, All,
}
use garrison.Common.Int.{pos}
use garrison.Common.Bytes.{codes}
use garrison.ClaudeProto.Health.{
  McpServer, check_mcp_health, healthy, offender, IsLive, IsFirst, check_mcp_health_iff,
}
use garrison.ClaudeProto.Decode.{Json, decode_assistant, summarize_detail}
use garrison.ClaudeProto.Router.{bail, Router, route}

abbrev servers : List McpServer
servers =
    record { name = "postgres"; status = "connected" }
    ∷ record { name = "finalize"; status = "failed" }
    ∷ record { name = "mempalace"; status = "needs-auth" }
    ∷ []

check_mcp_health_iff_example :
    ((check_mcp_health servers ≡ healthy) ↔ All IsLive servers)
    × ((name status : String)
        → (check_mcp_health servers ≡ offender name status)
          ↔ ((s : McpServer) × IsFirst servers s × (s.name ≡ name) × (s.status ≡ status)))
check_mcp_health_iff_example = check_mcp_health_iff servers

first_offender : check_mcp_health servers ≡ offender "finalize" "failed"
unfolding check_mcp_health
first_offender = refl

-- Lines of one byte: 1 is an init event, 2 an event of an assistant, 3 one of a user, 4 a result;
-- any other does not parse.
abbrev json : Json
json = record {
  envelope = λ raw. elim raw [
    | [] ↦ none
    | c ∷ s ↦
        if c == 1
        then some (record { type = "system"; subtype = "init" })
        else if c == 2
        then some (record { type = "assistant"; subtype = "" })
        else if c == 3
        then some (record { type = "user"; subtype = "" })
        else if c == 4
        then some (record { type = "result"; subtype = "" })
        else none
  ];
  init = λ raw. some (record {
    session_id = [];
    model = [];
    cwd = [];
    tools = [];
    mcp_servers = servers;
    raw = raw;
  });
  assistant = λ raw. some (record {
    model = [];
    content =
        record { type = "text"; name = []; id = ""; input = [] }
        ∷ record { type = "tool_use"; name = codes "finalize_ticket"; id = "t"; input = 7 ∷ [] }
        ∷ record { type = "text"; name = []; id = ""; input = [] }
        ∷ [];
  });
  user = λ raw.
      some (
        record { type = "tool_result"; tool_use_id = "t"; is_error = false; content = 8 ∷ [] }
        ∷ []);
  rate_limit = λ raw. none;
  stream_event = λ raw. none;
  delta_usage = λ raw. record { input_tokens = pos 0; output_tokens = pos 0 };
  result = λ raw. none;
  text = λ raw. none;
  text_blocks =
      λ raw. some (record { type = "text"; text = [] } ∷ record { type = "text"; text = raw } ∷ []);
}

-- A router that counts its calls and bails at an init event.
abbrev counting : Router ℕ
counting = record {
  on_init = λ e n. (bail, n);
  on_assistant = λ e n. n;
  on_user = λ e n. n;
  on_rate_limit = λ e n. n;
  on_result = λ e n. n;
  on_stream_event = λ e n. n;
  on_task_started = λ raw n. n;
  on_unknown = λ e n. n;
}

bails_at_init : route json counting (1 ∷ []) 5 ≡ record { action = bail; failed = false; state = 5 }
unfolding route
bails_at_init = refl

types_of_content :
    decode_assistant json (2 ∷ [])
    ≡ some (record {
      model = [];
      content_block_count = 3;
      content_types = "text" ∷ "tool_use" ∷ [];
      tool_uses =
          record { name = codes "finalize_ticket"; tool_use_id = "t"; input_raw = 7 ∷ [] } ∷ [];
      raw = 2 ∷ [];
    })
unfolding decode_assistant
types_of_content = refl

detail_of_blocks : summarize_detail json (8 ∷ []) ≡ 8 ∷ []
unfolding summarize_detail
detail_of_blocks = refl
