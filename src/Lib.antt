-- ===== src/Lib.antt =====
-- Verification of the core of SimpleCoder, a terminal client that lets a language model work on code
-- with tools. The user's text goes to the agent, the agent asks the server in a loop and runs the tools
-- that the model calls, the gate asks the user before a dangerous one, and the events of the worker
-- thread reach the interface through a queue.
--
-- Files, and the code that they model:
-- - Prelude: Boolean tests on numbers, lists, byte strings, bit operations.
-- - Util.Base64, Util.Utf8, Util.Diff: src/util/Base64.cpp, Utf8.cpp and Diff.cpp, a function for each
--   function, a loop for each loop.
-- - Util.ThreadQueue: src/util/ThreadQueue.hpp. A critical section, a notification and a test of the
--   waiting predicate are steps of threads; Util.ThreadQueue.Wakeup has all their interleavings.
-- - Llm.Message: src/llm/Message.hpp and the result type of src/llm/ApiClient.hpp.
-- - Llm.StreamParser: src/llm/ChatResponse.cpp. The callbacks are a log. Llm.Json is the interface of
--   the JSON library, which is no part of the model.
-- - Agent.Confirm: src/agent/Confirm.cpp, the policy of the configuration and the gate.
-- - Agent.ToolLoop and Agent.Session: src/agent/Agent.cpp, the loop and the class. The server, the
--   tools, the user and the cancel flag are functions on a world that they change.
-- - Agent.EditTools: execute and confirm_details of src/agent/tools/StrReplaceTool.cpp and
--   WriteFileTool.cpp; a file system is a function from paths to contents.
-- - App.ConfigValue and App.Config: src/app/Config.cpp. A file and the environment are functions; the
--   numbers that strtod reads are a parameter, those that strtol reads are computed.
-- - App.Command: src/app/Command.cpp. App.Skill: src/app/Skill.cpp, a directory being its list of files.
-- - App.Attachments: src/app/Attachments.cpp.
-- - App.SystemPrompt and App.Prompts: src/app/SystemPrompt.cpp, without the reading of AGENTS.md.
-- - App.Loop: src/app/App.cpp, the class and the loop of its run. Commands has the slash commands, Events
--   what becomes of the worker thread's events, Keys a round of the loop, and Threads the steps of the
--   two threads, which come in any order. The worker thread is a state: there is none, it is inside
--   Agent::send, it waits for the user, or it has ended. A turn changes the agent in one step, the one
--   that pushes its last event, since the interface leaves the agent alone while a turn is on its way.
-- - Ui.InputBar and Ui.WrapLayout: src/ui/InputBar.cpp, all keys and the layout, without the drawing.
-- - Ui.TextWrap, Ui.Markdown and Ui.ChatView: src/ui/TextWrap.cpp, Markdown.cpp and ChatView.cpp; what is
--   drawn is the list of the lines that are shown.
-- - Net.Html: src/net/Html.cpp. An overflow of its signed number is taken modulo 2^32.
-- - Mcp.Client and Mcp.Servers: src/mcp/McpClient.cpp and src/agent/tools/McpTool.cpp. The transport and
--   the JSON library are parameters; a request is its method with what the code puts into it.
-- - Tests: runs on concrete inputs.
--
-- A string is its list of bytes. A number that the code keeps in 32 bits is unbounded here, except where
-- the code computes modulo a power of two: a byte is taken modulo 256, the accumulator of
-- base64_decode and the number of a character reference modulo 2^32. The loop of the agent recurs on the
-- rounds that are left, of which the configuration gives the number. The loops of wrap_layout and of
-- html_to_text recur on as many rounds as bytes are left, since each round takes a byte at least; the
-- loop of wrap_text that breaks a word has one round more than the word has bytes, since each round but
-- the last takes a character. The loop over the pages of an MCP server has the pages as its fuel, and says
-- when it is not at its end. All other loops recur on their input.
--
-- Not modelled: drawing with ncurses, requests with libcurl, the processes of the MCP transport, the
-- log, the requests for a completion, the tools that run commands, search or read, the listing of the
-- project's files, the banner, the default paths of the configuration, and the JSON library itself. An
-- exception of the JSON library is a result of its own. An exception of memory is left out.
pub mod Agent
pub mod App
pub mod Llm
pub mod Mcp
pub mod Net
pub mod Prelude
pub mod Tests
pub mod Ui
pub mod Util
