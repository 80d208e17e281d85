-- ===== src/Mcp/Servers.antt =====
-- The servers of src/mcp/McpClient.cpp and their tools, which are those of src/agent/tools/McpTool.cpp.
-- The log is left out. An exception is `none`.
use simple_coder.Prelude.{
  Bool, Bytes, List, Option, [], bytes_eq, codes, false, if◌then◌else◌, is_empty, length, ltb, map,
  none, not, some, true, ℕ, ◌++◌, ◌>>=◌, ◌||◌, ◌∷◌,
}
use simple_coder.Agent.ToolLoop.{ToolResult}
use simple_coder.Mcp.Client.{McpJson, McpToolInfo, McpClient, Transport, Outcome, start, call}

pub record McpServerConfig : Type 0 where
  pub name : Bytes
  pub command : Bytes
  pub args : List Bytes
  pub env : List (Bytes × Bytes)

pub record McpTool (Json : Type 0) : Type 0 where
  pub exposed_name : Bytes
  pub remote_name : Bytes
  pub description : Bytes
  pub input_schema : Json

-- The tools of a server share its client.
pub record Serving (Json W : Type 0) : Type 0 where
  pub client : McpClient Json W
  pub mcp_tools : List (McpTool Json)

unfoldable pub expose : {Json : Type 0} → Bool → Bytes → McpToolInfo Json → McpTool Json
expose namespaced server info = record {
  exposed_name = if namespaced then server ++ codes "__" ++ info.name else info.name;
  remote_name = info.name;
  description = info.description;
  input_schema = info.input_schema;
}

module _ (J : McpJson) where
  open J use {Json, is_object, find, elements, members, text, value, parse}

  -- The elements that are texts.
  unfoldable pub texts_of : List Json → List Bytes
  texts_of [] = []
  texts_of (a ∷ args) =
      let more = texts_of args in elim (text a) [ none ↦ more | some s ↦ s ∷ more ]

  unfoldable pub pairs_of : List (Bytes × Json) → List (Bytes × Bytes)
  pairs_of [] = []
  pairs_of ((key, v) ∷ env) =
      let more = pairs_of env in elim (text v) [ none ↦ more | some s ↦ (key, s) ∷ more ]

  unfoldable pub args_in : Option (List Json) → List Bytes
  unfolding texts_of
  args_in none = []
  args_in (some args) = texts_of args

  unfoldable pub env_in : Option Json → List (Bytes × Bytes)
  unfolding pairs_of
  env_in none = []
  env_in (some e) = if is_object e then pairs_of (members e) else []

  unfoldable pub add_server : Bytes → Bytes → Json → List McpServerConfig → List McpServerConfig
  unfolding args_in env_in
  add_server key [] s servers = servers
  add_server key (c ∷ command) s servers =
      record {
        name = key;
        command = c ∷ command;
        args = args_in (find s (codes "args") >>= elements);
        env = env_in (find s (codes "env"));
      }
      ∷ servers

  unfoldable pub read_servers : List (Bytes × Json) → Option (List McpServerConfig)
  unfolding add_server bytes_eq
  read_servers [] = some []
  read_servers ((key, s) ∷ rest) =
      let more = read_servers rest in
      if bytes_eq key (codes "mcpServers") || not (is_object s) then more else (do
        command ← value s (codes "command") []
        servers ← more
        some (add_server key command s servers))

  -- The object of servers: the document, or the one in it.
  unfoldable pub servers_in : Json → Option Json → Json
  servers_in doc none = doc
  servers_in doc (some inner) = if is_object inner then inner else doc

  unfoldable pub parse_mcp_servers : Json → Option (List McpServerConfig)
  unfolding read_servers servers_in
  parse_mcp_servers doc =
      if not (is_object doc)
      then some []
      else read_servers (members (servers_in doc (find doc (codes "mcpServers"))))

  unfoldable pub load_mcp_servers : (Bytes → Option Bytes) → Bytes → Option (List McpServerConfig)
  unfolding parse_mcp_servers
  load_mcp_servers read_file path =
      if is_empty path
      then some []
      else elim (read_file path >>= parse) [ none ↦ some [] | some doc ↦ parse_mcp_servers doc ]

  module _ {W : Type 0} (T : Transport Json W) where
    -- `McpTool::execute`
    unfoldable pub execute :
        McpTool Json → Json → McpClient Json W → Option ToolResult × McpClient Json W
    unfolding call
    execute tool args c =
        let called = call J T tool.remote_name args c in
        (called.0 >>= λ r. some (record { ok = r.ok; output = r.text }), called.1)

    abbrev pub new_client : W → Bytes → McpClient Json W
    new_client w name = record { world = w; name = name; tools = []; last_error = []; id = 0 }

    -- A server whose handshake fails is passed over; an exception ends it all.
    unfoldable pub serve :
        Bool
        → Bytes
        → Outcome × McpClient Json W
        → Outcome × List (Serving Json W)
        → Outcome × List (Serving Json W)
    unfolding expose
    serve namespaced name (Outcome.threw, c) rest = (Outcome.threw, [])
    serve namespaced name (Outcome.unfinished, c) rest = (Outcome.unfinished, [])
    serve namespaced name (Outcome.finished false, c) rest = rest
    serve namespaced name (Outcome.finished true, c) (end, servings) =
        (end, record { client = c; mcp_tools = map (expose namespaced name) c.tools } ∷ servings)

    -- `factory` starts a server, if it can; `fuel` bounds the pages that each may list.
    unfoldable pub make_from :
        (McpServerConfig → Option W)
        → Bool
        → ℕ
        → List McpServerConfig
        → Outcome × List (Serving Json W)
    unfolding serve start
    make_from factory namespaced fuel [] = (Outcome.finished true, [])
    make_from factory namespaced fuel (cfg ∷ servers) =
        let rest = make_from factory namespaced fuel servers in
        elim (factory cfg) [
          | none ↦ rest
          | some w ↦ serve namespaced cfg.name (start J T fuel (new_client w cfg.name)) rest
        ]

    unfoldable pub make_mcp_tools :
        (McpServerConfig → Option W) → ℕ → List McpServerConfig → Outcome × List (Serving Json W)
    unfolding make_from
    make_mcp_tools factory fuel servers = make_from factory (ltb 1 (length servers)) fuel servers
