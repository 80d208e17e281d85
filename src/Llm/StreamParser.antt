-- ===== src/Llm/StreamParser.antt =====
-- src/llm/ChatResponse.cpp: `StreamParser`, the incremental parser of the server-sent events. The
-- callbacks are a log of what they were called with. `none` is an exception of the JSON library.
pub mod Chunks
pub mod Order
pub mod Content
use simple_coder.Prelude.{
  Bool, Bytes, List, Option, [], bytes_eq, codes, drop, false, get_or, if◌then◌else◌, is_empty, ltb,
  map, none, not, set, some, take, trim_by, true, ℕ, ◌++◌, ◌==◌, ◌>>=◌, ◌||◌, ◌∷◌,
}
use simple_coder.Llm.Message.{ℤ, pos, negsuc, ToolCall}
use simple_coder.Llm.Json.{JsonLib}

pub data Piece : Type 0 where
  content_piece : Bytes → Piece
  reasoning_piece : Bytes → Piece

-- The fields of the class but `buffer_`.
pub record Parsed : Type 0 where
  pub content : Bytes
  pub reasoning : Bytes
  pub finish_reason : Bytes
  pub prompt_tokens : ℤ
  pub completion_tokens : ℤ
  pub total_tokens : ℤ
  pub done : Bool
  pub tool_by_index : List (ℤ × ToolCall)
  pub log : List Piece

abbrev nothing_parsed : Parsed
nothing_parsed = record {
  content = [];
  reasoning = [];
  finish_reason = [];
  prompt_tokens = pos 0;
  completion_tokens = pos 0;
  total_tokens = pos 0;
  done = false;
  tool_by_index = [];
  log = [];
}

pub record StreamParser : Type 0 where
  pub buffer : Bytes
  pub parsed : Parsed

abbrev pub new_parser : StreamParser
new_parser = record { buffer = []; parsed = nothing_parsed }

-- The order of the map's keys.
abbrev pub int_lt : ℤ → ℤ → Bool
int_lt (pos a) (pos b) = ltb a b
int_lt (pos a) (negsuc b) = false
int_lt (negsuc a) (pos b) = true
int_lt (negsuc a) (negsuc b) = ltb b a

abbrev pub int_eq : ℤ → ℤ → Bool
int_eq (pos a) (pos b) = a == b
int_eq (pos a) (negsuc b) = false
int_eq (negsuc a) (pos b) = false
int_eq (negsuc a) (negsuc b) = a == b

abbrev empty_call : ToolCall
empty_call = record { id = []; name = []; arguments = [] }

-- `f(tool_by_index_[index])`: the entry is made where it is missing, in the order of the keys.
pub update_call : ℤ → (ToolCall → ToolCall) → List (ℤ × ToolCall) → List (ℤ × ToolCall)
update_call index f [] = (index, f empty_call) ∷ []
update_call index f ((k, call) ∷ m) =
    if int_eq k index
    then (k, f call) ∷ m
    else if int_lt index k
    then (index, f empty_call) ∷ (k, call) ∷ m
    else (k, call) ∷ update_call index f m

-- `" \t\r\n"`
unfoldable pub is_ws : ℕ → Bool
is_ws c = c == 32 || c == 9 || c == 13 || c == 10

unfoldable pub trim : Bytes → Bytes
unfolding is_ws
trim = trim_by is_ws

abbrev data_field : Bytes
data_field = codes "data:"

module _ (J : JsonLib) where
  open J use {Json, parse, find, is_object, elements, text, value_int}

  -- The text at a key, if the key is there and holds one.
  unfoldable pub text_at : Json → Bytes → Option Bytes
  text_at j key = find j key >>= text

  unfoldable pub object_at : Json → Bytes → Option Json
  object_at j key = find j key >>= λ v. if is_object v then some v else none

  unfoldable pub elements_at : Json → Bytes → Option (List Json)
  elements_at j key = find j key >>= elements

  unfoldable pub set_text : Option Bytes → (Bytes → ToolCall → ToolCall) → ToolCall → ToolCall
  set_text none set call = call
  set_text (some s) set call = set s call

  function_fields : Option Json → ToolCall → ToolCall
  unfolding set_text text_at
  function_fields none call = call
  function_fields (some fn) call =
      set_text (text_at fn (codes "arguments")) (λ s c. record c { arguments = c.arguments ++ s })
        (set_text (text_at fn (codes "name")) (λ s c. record c { name = s }) call)

  call_fields : Json → ToolCall → ToolCall
  unfolding set_text text_at function_fields object_at
  call_fields tc call =
      function_fields (object_at tc (codes "function"))
        (set_text (text_at tc (codes "id")) (λ s c. record c { id = s }) call)

  -- The loop over `delta.tool_calls`.
  unfoldable pub add_calls : List Json → Parsed → Option Parsed
  unfolding call_fields
  add_calls [] p = some p
  add_calls (tc ∷ tcs) p = do
    index ← value_int tc (codes "index") (pos 0)
    add_calls tcs (record p { tool_by_index = update_call index (call_fields tc) p.tool_by_index })

  unfoldable pub add_content : Option Bytes → Parsed → Parsed
  add_content none p = p
  add_content (some piece) p = record p {
    content = p.content ++ piece;
    log = p.log ++ content_piece piece ∷ [];
  }

  unfoldable pub add_reasoning : Option Bytes → Parsed → Parsed
  add_reasoning none p = p
  add_reasoning (some piece) p = record p {
    reasoning = p.reasoning ++ piece;
    log = p.log ++ reasoning_piece piece ∷ [];
  }

  unfoldable pub set_finish : Option Bytes → Parsed → Parsed
  set_finish none p = p
  set_finish (some reason) p = record p { finish_reason = reason }

  unfoldable pub add_tool_calls : Option (List Json) → Parsed → Option Parsed
  unfolding add_calls
  add_tool_calls none p = some p
  add_tool_calls (some tcs) p = add_calls tcs p

  unfoldable pub process_delta : Option Json → Parsed → Option Parsed
  unfolding add_tool_calls add_content add_reasoning
  process_delta none p = some p
  process_delta (some delta) p = add_tool_calls (elements_at delta (codes "tool_calls")) (
      add_reasoning (text_at delta (codes "reasoning_content"))
        (add_content (text_at delta (codes "content")) p))

  unfoldable pub process_choices : Option (List Json) → Parsed → Option Parsed
  unfolding process_delta set_finish
  process_choices none p = some p
  process_choices (some []) p = some p
  process_choices (some (choice ∷ _)) p =
      process_delta (object_at choice (codes "delta"))
        (set_finish (text_at choice (codes "finish_reason")) p)

  unfoldable pub read_usage : Option Json → Parsed → Option Parsed
  read_usage none p = some p
  read_usage (some u) p = do
    prompt ← value_int u (codes "prompt_tokens") p.prompt_tokens
    completion ← value_int u (codes "completion_tokens") p.completion_tokens
    total ← value_int u (codes "total_tokens") p.total_tokens
    some (record p { prompt_tokens = prompt; completion_tokens = completion; total_tokens = total })

  unfoldable pub process_chunk : Option Json → Parsed → Option Parsed
  unfolding read_usage process_choices
  process_chunk none p = some p
  process_chunk (some chunk) p = do
    q ← read_usage (object_at chunk (codes "usage")) p
    process_choices (elements_at chunk (codes "choices")) q

  unfoldable pub process_data : Bytes → Parsed → Option Parsed
  unfolding process_chunk
  process_data payload p =
      if bytes_eq payload (codes "[DONE]")
      then some (record p { done = true })
      else process_chunk (parse payload) p

  unfoldable pub process_line : Bytes → Parsed → Option Parsed
  unfolding process_data trim
  process_line raw p =
      let line = trim raw in
      if is_empty line
      then some p
      else if get_or line 0 0 == b':'
      then some p
      else if not (bytes_eq (take 5 line) data_field)
      then some p
      else process_data (trim (drop 5 line)) p

  -- The loop of `feed`: `line` is what was passed over since the last newline, and stays in the buffer
  -- where no newline follows.
  unfoldable pub drain : Bytes → Bytes → Parsed → Option StreamParser
  drain line [] p = some (record { buffer = line; parsed = p })
  drain line (c ∷ s) p = elim (c == b'\n') [
    | true ↦ process_line line p >>= drain [] s
    | false ↦ drain (line ++ c ∷ []) s p
  ]

  unfoldable pub feed : Bytes → StreamParser → Option StreamParser
  unfolding drain
  feed bytes p = drain [] (p.buffer ++ bytes) p.parsed

  -- A response that arrives in these chunks.
  unfoldable pub feed_all : List Bytes → StreamParser → Option StreamParser
  feed_all [] p = some p
  feed_all (bytes ∷ chunks) p = feed bytes p >>= feed_all chunks

-- `tool_calls()`
unfoldable pub tool_calls : StreamParser → List ToolCall
tool_calls p = map (λ (e : ℤ × ToolCall). e.1) p.parsed.tool_by_index
