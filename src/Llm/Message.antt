-- ===== src/Llm/Message.antt =====
-- src/llm/Message.hpp, and the `ApiResult` of src/llm/ApiClient.hpp.
use simple_coder.Prelude.{
  Bool, Bytes, List, Option, [], arith, bytes_eq, bytes_eq_iff, codes, false, if◌then◌else◌, ltb,
  none, refl, some, ℕ, ◌↔◌, ◌≡◌,
}

pub data Role : Type 0 where
  system user assistant tool : Role

unfoldable pub role_to_string : Role → Bytes
role_to_string system = codes "system"
role_to_string user = codes "user"
role_to_string assistant = codes "assistant"
role_to_string tool = codes "tool"

unfoldable pub role_from_string : Bytes → Option Role
unfolding bytes_eq
role_from_string s =
    if bytes_eq s (codes "system")
    then some system
    else if bytes_eq s (codes "user")
    then some user
    else if bytes_eq s (codes "assistant")
    then some assistant
    else if bytes_eq s (codes "tool")
    then some tool
    else none

pub record ToolCall : Type 0 where
  pub id : Bytes
  pub name : Bytes
  pub arguments : Bytes

pub record ImagePart : Type 0 where
  pub name : Bytes
  pub media_type : Bytes
  pub data_url : Bytes
  pub bytes : ℕ

pub record Message : Type 0 where
  pub role : Role
  pub content : Bytes
  pub tool_calls : List ToolCall
  pub tool_call_id : Bytes
  pub images : List ImagePart

abbrev pub system_message : Bytes → Message
system_message text = record {
  role = system;
  content = text;
  tool_calls = [];
  tool_call_id = [];
  images = [];
}

abbrev pub user_message : Bytes → List ImagePart → Message
user_message text images = record {
  role = user;
  content = text;
  tool_calls = [];
  tool_call_id = [];
  images = images;
}

abbrev pub assistant_message : Bytes → List ToolCall → Message
assistant_message text calls = record {
  role = assistant;
  content = text;
  tool_calls = calls;
  tool_call_id = [];
  images = [];
}

abbrev pub tool_result : Bytes → Bytes → Message
tool_result call_id text = record {
  role = tool;
  content = text;
  tool_calls = [];
  tool_call_id = call_id;
  images = [];
}

-- Token counts are integers that the server sends.
pub data ℤ : Type 0 where
  pos : ℕ → ℤ
  negsuc : ℕ → ℤ

abbrev pub is_positive : ℤ → Bool
is_positive (pos n) = ltb 0 n
is_positive (negsuc n) = false

-- `Time` stands for the floating-point numbers of `gen_seconds`.
pub record ApiResult (Time : Type 0) : Type 0 where
  pub ok : Bool
  pub http_status : ℕ
  pub error : Bytes
  pub content : Bytes
  pub reasoning : Bytes
  pub tool_calls : List ToolCall
  pub finish_reason : Bytes
  pub prompt_tokens : ℤ
  pub completion_tokens : ℤ
  pub total_tokens : ℤ
  pub gen_seconds : Time
  pub canceled : Bool

role_read_back : (r : Role) → role_from_string (role_to_string r) ≡ some r
unfolding role_from_string role_to_string
role_read_back system = refl
role_read_back user = refl
role_read_back assistant = refl
role_read_back tool = refl

role_named : (s : Bytes) (r : Role) → role_from_string s ≡ some r → s ≡ role_to_string r
unfolding role_from_string role_to_string
role_named s r h = ground (
  arith,
  bytes_eq_iff s (codes "system"),
  bytes_eq_iff s (codes "user"),
  bytes_eq_iff s (codes "assistant"),
  bytes_eq_iff s (codes "tool"),
)

-- The two conversions of a role are inverse to each other: every role is read back, and a name that
-- is read as a role is the name of that role.
pub role_from_string-to_string :
    (s : Bytes) (r : Role) → (role_from_string s ≡ some r) ↔ (s ≡ role_to_string r)
role_from_string-to_string s r =
    (role_named s r, λ (e : s ≡ role_to_string r). rw e (role_read_back r))
