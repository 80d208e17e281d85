-- ===== src/Llm/Json.antt =====
-- The calls of the JSON library (nlohmann::json) that the program relies on, as an interface.
use simple_coder.Prelude.{Bool, Bytes, List, Option}
use simple_coder.Llm.Message.{ℤ}

pub record JsonLib : Type 1 where
  pub Json : Type 0
  -- `json::parse(s, nullptr, false)`; `none` is a discarded value
  pub parse : Bytes → Option Json
  -- `find(key)`; `none` is `end()`, also for a value that is no object
  pub find : Json → Bytes → Option Json
  -- `is_object()`
  pub is_object : Json → Bool
  -- the elements, if `is_array()`
  pub elements : Json → Option (List Json)
  -- the text, if `is_string()`
  pub text : Json → Option Bytes
  -- `value(key, fallback)` of an integer; `none` is an exception
  pub value_int : Json → Bytes → ℤ → Option ℤ
