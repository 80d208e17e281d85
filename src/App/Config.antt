-- ===== src/App/Config.antt =====
-- `Config` of src/app/Config.cpp and Config.hpp: a document of `key = value` lines, the files and the
-- environment as layers. The numbers that `strtod` reads are a parameter.
pub mod Rules
pub mod Quoted
pub mod Numbers
pub mod Layers
use simple_coder.Prelude.{
  Bool, Bytes, List, Option, [], bytes_eq, codes, false, get_or, if◌then◌else◌, is_empty, none,
  some, suc, to_string, true, ℕ, ◌*◌, ◌++◌, ◌==◌, ◌∷◌,
}
use simple_coder.Llm.Message.{ℤ, pos}
use simple_coder.App.ConfigValue.{
  Checked, failed, checked, ◌>>=◌, trim, parse_value, parse_bool, parse_long, to_int, at_least,
}

-- The type `double`.
pub record Doubles : Type 1 where
  pub Double : Type 0
  -- `strtod`, `none` unless it reads the whole of the text
  pub strtod : Bytes → Option Double
  -- `d <= 0.0 || d > 1.0`
  pub outside : Double → Bool
  pub default_temperature : Double
  pub default_threshold : Double

pub record Config (Double : Type 0) : Type 0 where
  pub base_url : Bytes
  pub model : Bytes
  pub api_key : Bytes
  pub temperature : Double
  pub system_prompt : Bytes
  pub context_size : ℤ
  pub auto_compact : Bool
  pub auto_compact_threshold : Double
  pub max_image_bytes : ℕ
  pub max_tool_iterations : ℤ
  pub allow_web : Bool
  pub search_url : Bytes
  pub search_api_key : Bytes
  pub search_backend : Bytes
  pub mcp_config : Bytes
  pub allow_rules : List Bytes
  pub deny_rules : List Bytes

-- The text in front of the first `=` and behind it.
unfoldable pub cut_at_equals : Bytes → Option (Bytes × Bytes)
cut_at_equals [] = none
cut_at_equals (c ∷ s) = elim (c == b'=') [
  | true ↦ some ([], s)
  | false ↦ elim (cut_at_equals s) [ none ↦ none | some (k, v) ↦ some (c ∷ k, v) ]
]

-- A rule that is appended, unless it is empty.
unfoldable pub add_rule : Bytes → List Bytes → List Bytes
add_rule [] rules = rules
add_rule (c ∷ s) rules = rules ++ (c ∷ s) ∷ []

unfoldable pub or_else : Option Bytes → Bytes → Bytes
or_else none old = old
or_else (some v) old = v

module _ (D : Doubles) where
  open D use {Double, strtod, outside}

  unfoldable pub default_config : Config Double
  default_config = record {
    base_url = [];
    model = [];
    api_key = [];
    temperature = D.default_temperature;
    system_prompt = [];
    context_size = pos 0;
    auto_compact = true;
    auto_compact_threshold = D.default_threshold;
    max_image_bytes = 10 * 1024 * 1024;
    max_tool_iterations = pos 50;
    allow_web = false;
    search_url = [];
    search_api_key = [];
    search_backend = codes "searxng";
    mcp_config = [];
    allow_rules = [];
    deny_rules = [];
  }

  -- The threshold that was read.
  unfoldable pub threshold : Option Double → Checked Double
  threshold none = failed (codes "config: 'auto_compact_threshold' must be a number in (0, 1]")
  threshold (some d) =
      if outside d
      then failed (codes "config: 'auto_compact_threshold' must be a number in (0, 1]")
      else checked d

  unfoldable pub temperature_of : Option Double → Checked Double
  temperature_of none = failed (codes "config: 'temperature' must be a number")
  temperature_of (some d) = checked d

  unfoldable pub apply_number : Bytes → Bytes → Config Double → Checked (Config Double)
  unfolding threshold temperature_of bytes_eq parse_long at_least to_int
  apply_number key val cfg =
      if bytes_eq key (codes "temperature")
      then (temperature_of (strtod val) >>= λ d. checked (record cfg { temperature = d }))
      else if bytes_eq key (codes "context_size")
      then (at_least 0 (codes "config: 'context_size' must be a non-negative integer")
            (parse_long val)
          >>= λ n. checked (record cfg { context_size = to_int n }))
      else if bytes_eq key (codes "max_image_bytes")
      then (at_least 0 (codes "config: 'max_image_bytes' must be a non-negative integer")
            (parse_long val)
          >>= λ n. checked (record cfg { max_image_bytes = n }))
      else if bytes_eq key (codes "max_tool_iterations")
      then (at_least 1 (codes "config: 'max_tool_iterations' must be a positive integer")
            (parse_long val)
          >>= λ n. checked (record cfg { max_tool_iterations = to_int n }))
      else checked cfg

  unfoldable pub apply_rule : Bytes → Bytes → Config Double → Checked (Config Double)
  unfolding add_rule apply_number bytes_eq
  apply_rule key val cfg =
      if bytes_eq key (codes "allow")
      then checked (record cfg { allow_rules = add_rule val cfg.allow_rules })
      else if bytes_eq key (codes "deny")
      then checked (record cfg { deny_rules = add_rule val cfg.deny_rules })
      else apply_number key val cfg

  unfoldable pub apply_web : Bytes → Bytes → Config Double → Checked (Config Double)
  unfolding apply_rule bytes_eq parse_bool
  apply_web key val cfg =
      if bytes_eq key (codes "allow_web")
      then (parse_bool val (codes "allow_web") >>= λ b. checked (record cfg { allow_web = b }))
      else if bytes_eq key (codes "search_url")
      then checked (record cfg { search_url = val })
      else if bytes_eq key (codes "search_api_key")
      then checked (record cfg { search_api_key = val })
      else if bytes_eq key (codes "search_backend")
      then checked (record cfg { search_backend = val })
      else if bytes_eq key (codes "mcp_config")
      then checked (record cfg { mcp_config = val })
      else apply_rule key val cfg

  -- The chain of comparisons, in four parts.
  unfoldable pub apply_kv : Bytes → Bytes → Config Double → Checked (Config Double)
  unfolding apply_web threshold bytes_eq parse_bool
  apply_kv key val cfg =
      if bytes_eq key (codes "base_url")
      then checked (record cfg { base_url = val })
      else if bytes_eq key (codes "model")
      then checked (record cfg { model = val })
      else if bytes_eq key (codes "api_key")
      then checked (record cfg { api_key = val })
      else if bytes_eq key (codes "system_prompt")
      then checked (record cfg { system_prompt = val })
      else if bytes_eq key (codes "auto_compact")
      then (parse_bool val (codes "auto_compact") >>= λ b.
          checked (record cfg { auto_compact = b }))
      else if bytes_eq key (codes "auto_compact_threshold")
      then (threshold (strtod val) >>= λ d. checked (record cfg { auto_compact_threshold = d }))
      else apply_web key val cfg

  unfoldable pub merge_pair :
      Bytes → ℕ → Option (Bytes × Bytes) → Config Double → Checked (Config Double)
  unfolding apply_kv trim parse_value
  merge_pair origin lineno none cfg = failed (
      codes "config: "
      ++ origin
      ++ codes ":"
      ++ to_string lineno
      ++ codes ": expected 'key = value'")
  merge_pair origin lineno (some (key, val)) cfg = apply_kv (trim key) (parse_value val) cfg

  unfoldable pub merge_line : Bytes → ℕ → Bytes → Config Double → Checked (Config Double)
  unfolding merge_pair trim cut_at_equals
  merge_line origin lineno raw cfg =
      let line = trim raw in
      if is_empty line
      then checked cfg
      else if get_or line 0 0 == b'#'
      then checked cfg
      else merge_pair origin lineno (cut_at_equals line) cfg

  -- The loop over the document: `lineno` lines are done, and `line` is what was read of the next one.
  unfoldable pub merge_from : Bytes → ℕ → Bytes → Bytes → Config Double → Checked (Config Double)
  unfolding merge_line
  merge_from origin lineno line [] cfg = merge_line origin (suc lineno) line cfg
  merge_from origin lineno line (c ∷ doc) cfg = elim (c == b'\n') [
    | true ↦ merge_line origin (suc lineno) line cfg >>= merge_from origin (suc lineno) [] doc
    | false ↦ merge_from origin lineno (line ++ c ∷ []) doc cfg
  ]

  unfoldable pub merge_conf_string : Bytes → Bytes → Config Double → Checked (Config Double)
  unfolding merge_from
  merge_conf_string doc origin cfg = merge_from origin 0 [] doc cfg

  -- `read` gives the text of a file that exists and can be opened.
  unfoldable pub merge_conf_file :
      (Bytes → Option Bytes) → Bytes → Config Double → Checked (Config Double)
  unfolding merge_conf_string
  merge_conf_file read path cfg = elim (read path) [
    | none ↦ checked cfg
    | some doc ↦ merge_conf_string doc path cfg
  ]

  unfoldable pub merge_env : (Bytes → Option Bytes) → Config Double → Config Double
  unfolding or_else
  merge_env env cfg = record cfg {
    base_url = or_else (env (codes "OPENAI_BASE_URL")) cfg.base_url;
    api_key = or_else (env (codes "OPENAI_API_KEY")) cfg.api_key;
    model = or_else (env (codes "MODEL")) cfg.model;
  }

  unfoldable pub validate : Config Double → Checked (Config Double)
  validate cfg =
      if is_empty cfg.base_url
      then failed (
          codes
            "config: 'base_url' is required (set it in config.conf or via OPENAI_BASE_URL), e.g. http://localhost:8080/v1")
      else checked cfg

  unfoldable pub load_config :
      (Bytes → Option Bytes)
      → (Bytes → Option Bytes)
      → Bytes
      → Bytes
      → Bytes
      → Bytes
      → Checked (Config Double)
  unfolding merge_conf_file merge_env validate default_config
  load_config read env user_file binary_file local_file config_file =
      merge_conf_file read user_file default_config
      >>= (λ cfg.
          if is_empty binary_file then checked cfg else merge_conf_file read binary_file cfg)
      >>= merge_conf_file read local_file
      >>= merge_conf_file read config_file
      >>= λ cfg. validate (merge_env env cfg)
