-- ===== src/Tests/Llm.antt =====
-- Runs of the models of src/llm, with a small JSON library.
use simple_coder.Prelude.{
  Bool, Bytes, List, Option, [], bytes_eq, codes, false, if◌then◌else◌, is_digit, none, refl, some,
  true, ◌∷◌, ◌≡◌,
}
use simple_coder.Llm.Message.{pos}
use simple_coder.Llm.Json.{JsonLib}
use simple_coder.Llm.StreamParser.{
  is_ws, trim, text_at, object_at, elements_at, set_text, add_calls, add_content, add_reasoning,
  set_finish, add_tool_calls, process_delta, process_choices, read_usage, process_chunk,
  process_data, process_line, drain, Piece, StreamParser, new_parser, feed, feed_all,
}
use simple_coder.Llm.StreamParser.Chunks.{feed_all-flatten}
use simple_coder.Llm.StreamParser.Content.{Coherent, feed_all-Coherent}

-- A server that sends each piece of content as one digit.
data Doc : Type 0 where
  chunk choice delta : Bytes → Doc
  one : Bytes → Doc

abbrev find_doc : Doc → Bytes → Option Doc
find_doc (chunk s) key = if bytes_eq key (codes "choices") then some (choice s) else none
find_doc (choice s) key = if bytes_eq key (codes "delta") then some (delta s) else none
find_doc (delta s) key = if bytes_eq key (codes "content") then some (one s) else none
find_doc (one s) key = none

abbrev elements_doc : Doc → Option (List Doc)
elements_doc (choice s) = some (choice s ∷ [])
elements_doc _ = none

abbrev is_object_doc : Doc → Bool
is_object_doc (one s) = false
is_object_doc _ = true

abbrev text_doc : Doc → Option Bytes
text_doc (one s) = some s
text_doc _ = none

abbrev parse_doc : Bytes → Option Doc
parse_doc [] = none
parse_doc (c ∷ s) = if is_digit c then some (chunk (c ∷ [])) else none

abbrev docs : JsonLib
docs = record {
  Json = Doc;
  parse = parse_doc;
  find = find_doc;
  is_object = is_object_doc;
  elements = elements_doc;
  text = text_doc;
  value_int = λ d key n. some n;
}

abbrev chunks : List Bytes
chunks = codes "da" ∷ codes "ta: 1\n\nda" ∷ codes "ta: 2\n: x\ndata: [DONE]\nrest" ∷ []

feed_all-flatten_example :
    feed_all docs chunks new_parser
    ≡ feed docs (codes "data: 1\n\ndata: 2\n: x\ndata: [DONE]\nrest") new_parser
unfolding mathlib.Core.List.flatten
feed_all-flatten_example = feed_all-flatten docs chunks

abbrev parsed_chunks : StreamParser
parsed_chunks = record {
  buffer = codes "rest";
  parsed = record {
    content = codes "12";
    reasoning = [];
    finish_reason = [];
    prompt_tokens = pos 0;
    completion_tokens = pos 0;
    total_tokens = pos 0;
    done = true;
    tool_by_index = [];
    log = Piece.content_piece (codes "1") ∷ Piece.content_piece (codes "2") ∷ [];
  };
}

feed_all_run : feed_all docs chunks new_parser ≡ some parsed_chunks
unfolding feed_all feed trim is_ws text_at object_at elements_at set_text add_calls add_content
    add_reasoning set_finish add_tool_calls process_delta process_choices read_usage process_chunk
    process_data process_line drain bytes_eq
feed_all_run = refl

feed_all-Coherent_example : Coherent parsed_chunks.parsed
feed_all-Coherent_example = feed_all-Coherent docs chunks parsed_chunks feed_all_run
