-- ===== src/Ai/Prompt.antt =====
-- pkg/bridge/ai/service.go: the messages and the tools of a request to a model.
pub mod System
use Prim.Native.String.{◌++◌ as join}
use yomo.Common.{
  String, Bool, false, ◌||◌, Option, none, some, List, [], ◌∷◌, ◌++◌, map, ◌==◌, nat_key,
  string_key, if◌then◌else◌,
}
use yomo.Frame.{Tag}
use yomo.GoMap.{GoMap}
use yomo.Register.{Tool}
use yomo.Ai.{FunctionDefinition, Message, Request, ToolMessage, ChainMessage}

-- a message with a role and a content only
abbrev pub message_of : String → String → Message
message_of role content = record {
  role = role;
  content = content;
  tool_calls = [];
  tool_call_id = "";
}

abbrev pub is_system : Message → Bool
is_system m = m.role == "system"

-- the loop of overWriteSystemPrompt, and its `isOverWrite`
unfoldable pub set_prompts : List Message → String → List Message
set_prompts [] prompt = []
set_prompts (m ∷ ms) prompt =
    (if is_system m then message_of m.role prompt else m) ∷ set_prompts ms prompt

unfoldable pub has_system : List Message → Bool
has_system [] = false
has_system (m ∷ ms) = is_system m || has_system ms

-- overWriteSystemPrompt(req, sysPrompt)
unfoldable pub over_write_system_prompt : Request → String → Request
over_write_system_prompt req prompt = if prompt == "" then req else (record req {
  messages =
      if has_system req.messages
      then set_prompts req.messages prompt
      else set_prompts req.messages prompt ++ message_of "system" prompt ∷ [];
})

-- prepareToolCalls(tcs), whose error is nil
unfoldable pub prepare_tool_calls :
    GoMap Tag (Tool FunctionDefinition) → List (Tool FunctionDefinition)
prepare_tool_calls [] = []
prepare_tool_calls ((tag, tool) ∷ tcs) = tool ∷ prepare_tool_calls tcs

-- if len(tools) > 0 { req.Tools = tools }
unfoldable pub with_tools : Request → List (Tool FunctionDefinition) → Request
with_tools req [] = req
with_tools req (tool ∷ tools) = record req { tools = tool ∷ tools }

-- addToolsToRequest(req, tagTools), whose error is nil
unfoldable pub add_tools_to_request : Request → GoMap Tag (Tool FunctionDefinition) → Request
add_tools_to_request req tcs = with_tools req (prepare_tool_calls tcs)

-- the loop over the tools in prepareMessages, joined
unfoldable pub tool_lines : List (Tool FunctionDefinition) → String
tool_lines [] = ""
tool_lines (t ∷ tools) = join "- " (join t.function.description (join "\n" (tool_lines tools)))

-- strings.Join(systemInstructions, "")
unfoldable pub system_instructions : List (Tool FunctionDefinition) → Bool → String
system_instructions tools with_tool =
    join "## Instructions\n" (if with_tool then join (tool_lines tools) "\n" else "")

abbrev pub tool_message : ToolMessage → Message
tool_message tool = record {
  role = "tool";
  content = tool.content;
  tool_calls = [];
  tool_call_id = tool.tool_call_id;
}

-- 2. previous tool calls
unfoldable pub chained : Option Message → List ToolMessage → List Message
chained none tools = []
chained (some assistant) tools = assistant ∷ map tool_message tools

-- prepareMessages(baseSystemMessage, userInstruction, chainMessage, tools, withTool)
unfoldable pub prepare_messages :
    String → String → ChainMessage → List (Tool FunctionDefinition) → Bool → List Message
prepare_messages base user chain tools with_tool =
    message_of "system" (join base (join "\n\n" (system_instructions tools with_tool)))
    ∷ (chained chain.preceeding_assistant_message chain.tool_messages
        ++ message_of "user" user ∷ [])
