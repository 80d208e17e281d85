-- ===== src/Mcp/Client/Pages.antt =====
-- `start` of src/mcp/McpClient.cpp: the pages of a server's tools.
use simple_coder.Prelude.{
  Bytes, List, [], ap, append-nil, append_assoc, codes, refl, some, suc, sym, true, zero, ℕ, ◌++◌,
  ◌+◌, ◌∙◌, ◌∷◌, ◌≡◌,
}
use simple_coder.Mcp.Client.{
  McpJson, McpToolInfo, McpClient, RpcResult, Request, Transport, Outcome, rpc_error, read_tool,
  keep_named, tools_of, cursor_of, add_tools, send, follow, page_result, page_response, after_page,
  list_tools, after_init, initialized, start,
}

module _ (J : McpJson) where
  open J use {Json, index}

  -- The tools are read as these.
  pub data Reads : List Json → List (McpToolInfo Json) → Type 0 where
    no_tools : Reads [] []
    one_more :
        (t : Json) (ts : List Json) (info : McpToolInfo Json) (infos : List (McpToolInfo Json))
        → read_tool J t ≡ some info
        → Reads ts infos
        → Reads (t ∷ ts) (info ∷ infos)

  -- The response is a page of these tools, with the cursor of the next page; empty on the last one.
  pub record Page (r : RpcResult Json) (infos : List (McpToolInfo Json)) (cursor : Bytes)
      : Type 0 where
    pub result : Json
    pub answered : r.ok ≡ true
    pub no_error : rpc_error J r.response ≡ some []
    pub has_result : index r.response (codes "result") ≡ some result
    pub readable : Reads (tools_of J result) infos
    pub next_cursor : cursor_of J result ≡ cursor

  -- The tools that have a name.
  unfoldable pub named : List (McpToolInfo Json) → List (McpToolInfo Json)
  unfolding keep_named
  named [] = []
  named (info ∷ infos) = keep_named J info ++ named infos

  unfoldable pub named_in : List (List (McpToolInfo Json)) → List (McpToolInfo Json)
  unfolding named
  named_in [] = []
  named_in (infos ∷ pages) = named infos ++ named_in pages

  module _ {W : Type 0} (T : Transport Json W) where
    -- What the server answers to requests for the list, each with the cursor of the page before it and
    -- the next id, up to the last page.
    pub data Listing : W → ℕ → Bytes → List (List (McpToolInfo Json)) → W → Type 0 where
      ends :
          (w : W) (i : ℕ) (cursor : Bytes) (infos : List (McpToolInfo Json))
          → Page (T.request w (i + 1) (Request.tools_list cursor)).0 infos []
          → Listing w i cursor (infos ∷ []) (T.request w (i + 1) (Request.tools_list cursor)).1
      goes_on :
          (w : W) (i : ℕ) (cursor : Bytes) (infos : List (McpToolInfo Json)) (k : ℕ) (next : Bytes)
          (pages : List (List (McpToolInfo Json))) (after : W)
          → Page (T.request w (i + 1) (Request.tools_list cursor)).0 infos (k ∷ next)
          → Listing
              (T.request w (i + 1) (Request.tools_list cursor)).1
              (i + 1)
              (k ∷ next)
              pages
              after
          → Listing w i cursor (infos ∷ pages) after

    add_tools-named :
        (ts : List Json) (infos : List (McpToolInfo Json)) (c : McpClient Json W)
        → Reads ts infos
        → add_tools J T ts c ≡ (true, record c { tools = c.tools ++ named infos })
    unfolding add_tools named
    add_tools-named _ _ c no_tools =
        ap (λ (ts : List (McpToolInfo Json)). (true, record c { tools = ts }))
          (sym (append-nil c.tools))
    add_tools-named _ _ c (one_more t ts info infos e h) =
        rw (e, add_tools)
          (add_tools-named ts infos (record c { tools = c.tools ++ keep_named J info }) h
            ∙ ap (λ (ts : List (McpToolInfo Json)). (true, record c { tools = ts }))
                (append_assoc c.tools (keep_named J info) (named infos)))

    -- A page is added, and the loop follows its cursor.
    after_page-Page :
        (more : Bytes → McpClient Json W → Outcome × McpClient Json W) (r : RpcResult Json)
        (c : McpClient Json W) (infos : List (McpToolInfo Json)) (cursor : Bytes)
        → Page r infos cursor
        → after_page J T more (r, c)
          ≡ follow J T more cursor (true, record c { tools = c.tools ++ named infos })
    unfolding after_page page_response page_result
    after_page-Page more r c infos cursor p =
        rw (p.answered, p.no_error, p.has_result, p.next_cursor)
          (ap (follow J T more cursor) (add_tools-named (tools_of J p.result) infos c p.readable))

    -- The loop is at its end.
    abbrev pub listed :
        McpClient Json W → W → ℕ → List (McpToolInfo Json) → Outcome × McpClient Json W
    listed c w i infos = (Outcome.finished true, record c { world = w; id = i; tools = infos })

    -- The server takes the handshake.
    abbrev pub Greets : W → ℕ → Type 0
    Greets w i =
        let r = (T.request w (i + 1) Request.initialize).0 in
        (r.ok ≡ true) × (rpc_error J r.response ≡ some [])

    abbrev pub ready : W → ℕ → W
    ready w i = T.notify (T.request w (i + 1) Request.initialize).1

    -- Every page of the server names a cursor.
    abbrev pub Repeats : Type 0
    Repeats =
        (w : W) (i : ℕ) (cursor : Bytes)
        → (infos : List (McpToolInfo Json)) × (k : ℕ) × (next : Bytes) × Page
            (T.request w (i + 1) (Request.tools_list cursor)).0 infos (k ∷ next)

    list_tools-Repeats :
        Repeats
        → (fuel : ℕ) (cursor : Bytes) (c : McpClient Json W)
        → (list_tools J T fuel cursor c).0 ≡ Outcome.unfinished
    unfolding list_tools send follow
    list_tools-Repeats h zero cursor c = refl
    list_tools-Repeats h (suc fuel) cursor c =
        let (infos, k, next, p) = h c.world c.id cursor in
        ap (λ (r : Outcome × McpClient Json W). r.0)
          (after_page-Page (list_tools J T fuel) _ _ infos (k ∷ next) p)
        ∙ list_tools-Repeats h fuel (k ∷ next) _

    -- A server that takes the handshake and names a cursor on every page, as one does that repeats its
    -- cursor, keeps `start` in its loop: after any number of rounds it is not at its end.
    pub start-Repeats :
        (c : McpClient Json W) (fuel : ℕ)
        → Greets c.world c.id
        → Repeats
        → (start J T fuel c).0 ≡ Outcome.unfinished
    unfolding start initialized after_init send
    start-Repeats c fuel (ok, e) h = rw (ok, e) (list_tools-Repeats h fuel [] _)
