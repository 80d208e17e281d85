-- ===== src/Tests/Mcp.antt =====
-- Runs of the model of src/mcp/McpClient.cpp, with a small JSON library and two servers.
use simple_coder.Prelude.{
  Bool, Bytes, List, Option, [], bytes_eq, codes, false, if◌then◌else◌, is_empty, map, none, not,
  refl, some, true, ℕ, ◌&&◌, ◌+◌, ◌||◌, ◌∷◌, ◌≡◌,
}
use simple_coder.Mcp.Client.{
  McpJson, McpToolInfo, McpClient, RpcResult, Request, Transport, Outcome, start,
}
use simple_coder.Mcp.Client.Pages.{Page, Reads, Greets, Repeats, start-Repeats}
use simple_coder.Mcp.Servers.{McpServerConfig, parse_mcp_servers, make_mcp_tools, McpTool}

data Doc : Type 0 where
  nothing : Doc
  word tool said block : Bytes → Doc
  tools_named : List Bytes → Doc
  listing : List Bytes → Bytes → Doc
  response : Doc → Doc
  server : Bytes → Doc
  servers : List Bytes → Doc

abbrev find_doc : Doc → Bytes → Option Doc
find_doc (response d) key = if bytes_eq key (codes "result") then some d else none
find_doc (listing names cursor) key =
    if bytes_eq key (codes "tools")
    then some (tools_named names)
    else if bytes_eq key (codes "nextCursor") && not (is_empty cursor)
    then some (word cursor)
    else none
find_doc (said s) key = if bytes_eq key (codes "content") then some (tools_named (s ∷ [])) else none
find_doc _ key = none

-- A block of content stands for its text, as a tool stands for its name.
abbrev value_doc : Doc → Bytes → Bytes → Option Bytes
value_doc (tool s) key fallback =
    if bytes_eq key (codes "name") || bytes_eq key (codes "text")
    then some s
    else if bytes_eq key (codes "type")
    then some (codes "text")
    else some fallback
value_doc (server s) key fallback = if bytes_eq key (codes "command") then some s else some fallback
value_doc _ key fallback = none

abbrev elements_doc : Doc → Option (List Doc)
elements_doc (tools_named names) = some (map tool names)
elements_doc _ = none

abbrev text_doc : Doc → Option Bytes
text_doc (word s) = some s
text_doc _ = none

abbrev members_doc : Doc → List (Bytes × Doc)
members_doc (servers names) = map (λ s. (s, server s)) names
members_doc _ = []

abbrev is_null_doc : Doc → Bool
is_null_doc nothing = true
is_null_doc _ = false

abbrev docs : McpJson
docs = record {
  Json = Doc;
  null = nothing;
  empty_object = word [];
  is_null = is_null_doc;
  is_object = λ d. not (is_null_doc d);
  find = find_doc;
  index = λ d key. elim (find_doc d key) [ none ↦ some nothing | some v ↦ some v ];
  elements = elements_doc;
  members = members_doc;
  parse = λ s. none;
  text = text_doc;
  number = λ d. none;
  value = value_doc;
  value_bool = λ d key b. some b;
}

abbrev answer : Doc → RpcResult Doc
answer d = record { ok = true; response = response d; error = [] }

-- Two pages: the second follows the cursor 2. The world is the number of requests.
abbrev reply_two : Request Doc → Doc
reply_two Request.initialize = word []
reply_two (Request.tools_list []) = listing (codes "a" ∷ [] ∷ []) (codes "2")
reply_two (Request.tools_list (k ∷ cursor)) = listing (codes "b" ∷ []) []
reply_two (Request.tools_call name args) = said (codes "hi")

abbrev two_pages : Transport Doc ℕ
two_pages = record { request = λ w i req. (answer (reply_two req), w + 1); notify = λ w. w }

-- Every page names the same cursor.
abbrev reply_same : Request Doc → Doc
reply_same (Request.tools_list cursor) = listing (codes "a" ∷ []) (codes "2")
reply_same req = word []

abbrev same_cursor : Transport Doc ℕ
same_cursor = record { request = λ w i req. (answer (reply_same req), w + 1); notify = λ w. w }

abbrev client : McpClient Doc ℕ
client = record { world = 0; name = codes "s"; tools = []; last_error = []; id = 0 }

abbrev info : Bytes → McpToolInfo Doc
info name = record { name = name; description = []; input_schema = nothing }

abbrev pages : List (List (McpToolInfo Doc))
pages = (info (codes "a") ∷ info [] ∷ []) ∷ (info (codes "b") ∷ []) ∷ []

start_runs : (start docs two_pages 5 client).1.tools ≡ info (codes "a") ∷ info (codes "b") ∷ []
unfolding start bytes_eq
start_runs = refl

Page-same :
    Page docs (answer (listing (codes "a" ∷ []) (codes "2"))) (info (codes "a") ∷ []) (codes "2")
unfolding start bytes_eq
Page-same = record {
  result = listing (codes "a" ∷ []) (codes "2");
  answered = refl;
  no_error = refl;
  has_result = refl;
  readable = Reads.one_more _ _ _ _ refl Reads.no_tools;
  next_cursor = refl;
}

same_cursor-Repeats : Repeats docs same_cursor
same_cursor-Repeats w i cursor = (info (codes "a") ∷ [], b'2', [], Page-same)

same_cursor-Greets : Greets docs same_cursor 0 0
unfolding start bytes_eq
same_cursor-Greets = (refl, refl)

start-Repeats_example : (start docs same_cursor 7 client).0 ≡ Outcome.unfinished
start-Repeats_example =
    start-Repeats docs same_cursor client 7 same_cursor-Greets same_cursor-Repeats

parse_runs :
    parse_mcp_servers docs (servers (codes "x" ∷ [] ∷ []))
    ≡ some (record { name = codes "x"; command = codes "x"; args = []; env = [] } ∷ [])
unfolding parse_mcp_servers
parse_runs = refl

abbrev configured : Bytes → McpServerConfig
configured name = record { name = name; command = codes "run"; args = []; env = [] }

abbrev exposed : Bytes → Bytes → McpTool Doc
exposed name remote = record {
  exposed_name = name;
  remote_name = remote;
  description = [];
  input_schema = nothing;
}

-- A server that cannot be started is passed over; the names of the others carry the server's.
make_runs :
    make_mcp_tools docs two_pages
      (λ cfg. if is_empty cfg.name then none else some 0)
      2
      (configured (codes "x") ∷ configured [] ∷ [])
    ≡ (
      Outcome.finished true,
      record {
        client = record {
          world = 3;
          name = codes "x";
          tools = info (codes "a") ∷ info (codes "b") ∷ [];
          last_error = [];
          id = 3;
        };
        mcp_tools = exposed (codes "x__a") (codes "a") ∷ exposed (codes "x__b") (codes "b") ∷ [];
      }
          ∷ [],
    )
unfolding make_mcp_tools start bytes_eq
make_runs = refl
