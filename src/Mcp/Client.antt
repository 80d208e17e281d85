-- ===== src/Mcp/Client.antt =====
-- The class `McpClient` of src/mcp/McpClient.cpp. The JSON library and the transport are parameters; a
-- request is its method with what the code puts into it. The loop over the pages of tools has fuel.
pub mod Pages
pub mod Calls
use simple_coder.Prelude.{
  Bool, Bytes, List, Option, [], bytes_eq, codes, false, if◌then◌else◌, is_empty, none, not, some,
  suc, to_string, true, zero, ℕ, ◌++◌, ◌+◌, ◌>>=◌, ◌∷◌,
}
use simple_coder.Llm.Message.{ℤ}

-- The calls of the JSON library; `none` of the calls that may throw is an exception.
pub record McpJson : Type 1 where
  pub Json : Type 0
  pub null : Json
  pub empty_object : Json
  pub is_null : Json → Bool
  pub is_object : Json → Bool
  -- `find(key)`; `none` is `end()`, also for a value that is no object
  pub find : Json → Bytes → Option Json
  -- `operator[](key)`, which throws for a value that is neither an object nor null
  pub index : Json → Bytes → Option Json
  -- the elements, if `is_array()`
  pub elements : Json → Option (List Json)
  -- the members, in the order of the iterator; none unless `is_object()`
  pub members : Json → List (Bytes × Json)
  -- `json::parse(s, nullptr, false)`; `none` is a discarded value
  pub parse : Bytes → Option Json
  -- the text, if `is_string()`
  pub text : Json → Option Bytes
  -- the number as a `long long`, if `is_number()`
  pub number : Json → Option ℤ
  -- `value(key, fallback)`, which throws for a value that is no object and a field of another type
  pub value : Json → Bytes → Bytes → Option Bytes
  pub value_bool : Json → Bytes → Bool → Option Bool

pub record RpcResult (Json : Type 0) : Type 0 where
  pub ok : Bool
  pub response : Json
  pub error : Bytes

-- A request for the list has an empty cursor where the code puts none into it.
pub data Request (Json : Type 0) : Type 0 where
  initialize : Request Json
  tools_list : Bytes → Request Json
  tools_call : Bytes → Json → Request Json

-- The server, as a world that a request and a notification change; the number is the request's id.
pub record Transport (Json W : Type 0) : Type 0 where
  pub request : W → ℕ → Request Json → RpcResult Json × W
  pub notify : W → W

pub record McpToolInfo (Json : Type 0) : Type 0 where
  pub name : Bytes
  pub description : Bytes
  pub input_schema : Json

pub record McpCallResult : Type 0 where
  pub ok : Bool
  pub text : Bytes

pub record McpClient (Json W : Type 0) : Type 0 where
  pub world : W
  pub name : Bytes
  pub tools : List (McpToolInfo Json)
  pub last_error : Bytes
  pub id : ℕ

-- `start` returns, an exception leaves it, or its loop is not at its end yet.
pub data Outcome : Type 0 where
  finished : Bool → Outcome
  threw unfinished : Outcome

-- `std::to_string` of a `long long`
unfoldable pub integer_text : ℤ → Bytes
integer_text (ℤ.pos n) = to_string n
integer_text (ℤ.negsuc n) = codes "-" ++ to_string (suc n)

unfoldable pub code_note : Option ℤ → Bytes
unfolding integer_text
code_note none = []
code_note (some n) = codes " (code " ++ integer_text n ++ codes ")"

module _ (J : McpJson) where
  open J use {
    Json, null, empty_object, is_null, is_object, find, index, elements, text, number, value,
    value_bool,
  }

  unfoldable pub error_text : Option Json → Option Bytes
  unfolding code_note
  error_text none = some []
  error_text (some e) = if not (is_object e) then some [] else (do
    msg ← value e (codes "message") (codes "unknown error")
    some (msg ++ code_note (find e (codes "code") >>= number)))

  -- The message of an error; empty where the response is none.
  unfoldable pub rpc_error : Json → Option Bytes
  unfolding error_text
  rpc_error resp = error_text (find resp (codes "error"))

  unfoldable pub schema_of : Option Json → Json
  schema_of none = null
  schema_of (some s) = if is_object s then s else null

  unfoldable pub read_tool : Json → Option (McpToolInfo Json)
  unfolding schema_of
  read_tool t = do
    name ← value t (codes "name") []
    description ← value t (codes "description") []
    some (record {
      name = name;
      description = description;
      input_schema = schema_of (find t (codes "inputSchema"));
    })

  -- A tool without a name is left out.
  unfoldable pub keep_named : McpToolInfo Json → List (McpToolInfo Json)
  keep_named info = if is_empty info.name then [] else info ∷ []

  unfoldable pub tools_of : Json → List Json
  tools_of result = elim (find result (codes "tools") >>= elements) [ none ↦ [] | some ts ↦ ts ]

  unfoldable pub cursor_of : Json → Bytes
  cursor_of result = elim (find result (codes "nextCursor") >>= text) [ none ↦ [] | some k ↦ k ]

  -- What the content blocks say.
  unfoldable pub show_block : Bytes → Json → Option Bytes
  unfolding bytes_eq
  show_block type block =
      if bytes_eq type (codes "text")
      then value block (codes "text") []
      else some (if is_empty type then [] else codes "[" ++ type ++ codes " content]")

  unfoldable pub join_blocks : List Json → Option Bytes
  unfolding show_block
  join_blocks [] = some []
  join_blocks (block ∷ blocks) = do
    type ← value block (codes "type") []
    shown ← show_block type block
    more ← join_blocks blocks
    some (shown ++ more)

  unfoldable pub blocks_of : Json → List Json
  blocks_of res = elim (find res (codes "content") >>= elements) [ none ↦ [] | some bs ↦ bs ]

  abbrev pub call_failed : Bytes → McpCallResult
  call_failed message = record { ok = false; text = codes "error: " ++ message }

  unfoldable pub call_content : Option Json → Option McpCallResult
  unfolding join_blocks blocks_of
  call_content none = some (call_failed (codes "malformed tools/call response"))
  call_content (some res) =
      if not (is_object res)
      then some (call_failed (codes "malformed tools/call response"))
      else (do
        joined ← join_blocks (blocks_of res)
        is_error ← value_bool res (codes "isError") false
        some (record { ok = not is_error; text = joined }))

  unfoldable pub call_response : Option Bytes → Json → Option McpCallResult
  unfolding call_content
  call_response none resp = none
  call_response (some (c ∷ err)) resp = some (call_failed (c ∷ err))
  call_response (some []) resp = call_content (find resp (codes "result"))

  unfoldable pub call_result : RpcResult Json → Option McpCallResult
  unfolding call_response rpc_error
  call_result r =
      if not r.ok
      then some (call_failed r.error)
      else call_response (rpc_error r.response) r.response

  module _ {W : Type 0} (T : Transport Json W) where
    -- `transport_->request`, with the next id
    unfoldable pub send : Request Json → McpClient Json W → RpcResult Json × McpClient Json W
    send req c =
        let (r, after) = T.request c.world (c.id + 1) req in
        (r, record c { world = after; id = c.id + 1 })

    -- `none` is an exception that leaves `call`.
    unfoldable pub call : Bytes → Json → McpClient Json W → Option McpCallResult × McpClient Json W
    unfolding send call_result
    call tool args c =
        let sent = send (Request.tools_call tool (if is_null args then empty_object else args)) c in
        (call_result sent.0, sent.1)

    unfoldable pub fail : Bytes → McpClient Json W → Outcome × McpClient Json W
    fail error c = (finished false, record c { last_error = error })

    -- The tools of a page; false says that an exception cut them off.
    unfoldable pub add_tools : List Json → McpClient Json W → Bool × McpClient Json W
    unfolding read_tool keep_named
    add_tools [] c = (true, c)
    add_tools (t ∷ ts) c = elim (read_tool t) [
      | none ↦ (false, c)
      | some info ↦ add_tools ts (record c { tools = c.tools ++ keep_named info })
    ]

    -- The rest of the loop is given: it is run where there is a cursor.
    unfoldable pub follow :
        (Bytes → McpClient Json W → Outcome × McpClient Json W)
        → Bytes
        → Bool × McpClient Json W
        → Outcome × McpClient Json W
    follow more cursor (false, c) = (threw, c)
    follow more [] (true, c) = (finished true, c)
    follow more (k ∷ cursor) (true, c) = more (k ∷ cursor) c

    unfoldable pub page_result :
        (Bytes → McpClient Json W → Outcome × McpClient Json W)
        → Option Json
        → McpClient Json W
        → Outcome × McpClient Json W
    unfolding follow add_tools tools_of cursor_of
    page_result more none c = (threw, c)
    page_result more (some result) c =
        follow more (cursor_of result) (add_tools (tools_of result) c)

    unfoldable pub page_response :
        (Bytes → McpClient Json W → Outcome × McpClient Json W)
        → Option Bytes
        → Json
        → McpClient Json W
        → Outcome × McpClient Json W
    unfolding page_result fail
    page_response more none resp c = (threw, c)
    page_response more (some (e ∷ err)) resp c = fail (codes "tools/list failed: " ++ e ∷ err) c
    page_response more (some []) resp c = page_result more (index resp (codes "result")) c

    unfoldable pub after_page :
        (Bytes → McpClient Json W → Outcome × McpClient Json W)
        → RpcResult Json × McpClient Json W
        → Outcome × McpClient Json W
    unfolding page_response fail rpc_error
    after_page more (r, c) =
        if not r.ok then fail r.error c else page_response more (rpc_error r.response) r.response c

    unfoldable pub list_tools : ℕ → Bytes → McpClient Json W → Outcome × McpClient Json W
    unfolding after_page send
    list_tools zero cursor c = (unfinished, c)
    list_tools (suc fuel) cursor c =
        after_page (list_tools fuel) (send (Request.tools_list cursor) c)

    unfoldable pub after_init : ℕ → Option Bytes → McpClient Json W → Outcome × McpClient Json W
    unfolding list_tools fail
    after_init fuel none c = (threw, c)
    after_init fuel (some (e ∷ err)) c = fail (codes "initialize failed: " ++ e ∷ err) c
    after_init fuel (some []) c =
        list_tools fuel [] (record c { world = T.notify c.world; tools = [] })

    unfoldable pub initialized : ℕ → RpcResult Json × McpClient Json W → Outcome × McpClient Json W
    unfolding after_init fail rpc_error
    initialized fuel (r, c) =
        if not r.ok then fail r.error c else after_init fuel (rpc_error r.response) c

    unfoldable pub start : ℕ → McpClient Json W → Outcome × McpClient Json W
    unfolding initialized send
    start fuel c = initialized fuel (send Request.initialize c)
