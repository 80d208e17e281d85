-- ===== src/Mcp/Client/Calls.antt =====
-- `call` of src/mcp/McpClient.cpp: when a tool is said to have succeeded.
use simple_coder.Prelude.{
  Bytes, Option, [], codes, false, if◌then◌else◌, none, some, true, ◌+◌, ◌≡◌,
}
use simple_coder.Mcp.Client.{
  McpJson, McpCallResult, McpClient, RpcResult, Request, Transport, rpc_error, join_blocks,
  blocks_of,
}

abbrev pub Succeeds : Option McpCallResult → Type 0
Succeeds none = ⊥
Succeeds (some res) = res.ok ≡ true

module _ (J : McpJson) where
  open J use {Json, empty_object, is_null, is_object, find, value_bool}

  -- The response holds a result without the mark of an error, whose text is this one.
  pub record Sound (r : RpcResult Json) (text : Bytes) : Type 0 where
    pub res : Json
    pub answered : r.ok ≡ true
    pub no_error : rpc_error J r.response ≡ some []
    pub has_result : find r.response (codes "result") ≡ some res
    pub object : is_object res ≡ true
    pub joined : join_blocks J (blocks_of J res) ≡ some text
    pub unmarked : value_bool res (codes "isError") false ≡ some false

  -- The rest of `call`, from what `find` gave.
  Content : Option Json → Bytes → Type 0
  Content o text =
      (res : Json) × (o ≡ some res)
      × (is_object res ≡ true)
      × (join_blocks J (blocks_of J res) ≡ some text)
      × (value_bool res (codes "isError") false ≡ some false)

  -- The response to a call of a tool.
  abbrev pub called :
      {W : Type 0} → Transport Json W → Bytes → Json → McpClient Json W → RpcResult Json
  called T tool args c =
      (T.request c.world (c.id + 1)
        (Request.tools_call tool (if is_null args then empty_object else args))).0
