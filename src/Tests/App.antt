-- ===== src/Tests/App.antt =====
-- Runs of the models of src/app.
use simple_coder.Prelude.{
  Bytes, List, Option, [], bytes_eq, codes, false, if◌then◌else◌, none, refl, some, true, ◌++◌, ◌∷◌,
  ◌≡◌,
}
use simple_coder.Llm.Message.{pos}
use simple_coder.Agent.Confirm.{
  decide, make_confirm_policy, PolicyDecision, split_rule, starts_with,
}
use simple_coder.Agent.Confirm.Policy.{any_matches, rule_matches}
use simple_coder.App.ConfigValue.{checked, parse_value, trim, escaped, unescape_from, is_quoted}
use simple_coder.App.ConfigValue.RoundTrip.{quote}
use simple_coder.App.Config.{
  Doubles, Config, default_config, apply_kv, apply_web, apply_rule, apply_number, merge_pair,
  merge_line, merge_from, merge_conf_string, merge_conf_file, merge_env, validate, load_config,
  add_rule, cut_at_equals, or_else,
}
use simple_coder.App.Config.Quoted.{merge_conf_string-quote}
use simple_coder.App.Config.Layers.{load_config-deny, FromEnv, load_config-FromEnv}
use simple_coder.App.SystemPrompt.{strip_code_fence}
use simple_coder.App.Skill.{Skill, find, load_skills}

-- No `double` is read.
abbrev doubles : Doubles
doubles = record {
  Double = Unit;
  strtod = λ s. none;
  outside = λ d. false;
  default_temperature = tt;
  default_threshold = tt;
}

abbrev defaults : Config Unit
defaults = record {
  base_url = codes "http://h/v1";
  model = [];
  api_key = [];
  temperature = tt;
  system_prompt = [];
  context_size = pos 0;
  auto_compact = true;
  auto_compact_threshold = tt;
  max_image_bytes = 0;
  max_tool_iterations = pos 50;
  allow_web = false;
  search_url = [];
  search_api_key = [];
  search_backend = [];
  mcp_config = [];
  allow_rules = [];
  deny_rules = [];
}

merge_conf_string-quote_example :
    merge_conf_string doubles
      (codes "system_prompt=" ++ quote (codes "be = \"brief\"\n"))
      (codes "c")
      defaults
    ≡ checked (record defaults { system_prompt = codes "be = \"brief\"\n" })
merge_conf_string-quote_example =
    merge_conf_string-quote doubles (codes "be = \"brief\"\n") (codes "c") defaults

-- The user's file denies `rm`, the file in the working directory allows it.
abbrev read : Bytes → Option Bytes
read path =
    if bytes_eq path (codes "user")
    then some (codes "base_url = u\ndeny = run_bash:rm\n")
    else if bytes_eq path (codes "local")
    then some (codes "# all\nallow = run_bash\n")
    else none

abbrev env : Bytes → Option Bytes
env key = if bytes_eq key (codes "MODEL") then some (codes "m1") else none

abbrev user_config : Config Unit
user_config = record defaults {
  base_url = codes "u";
  max_image_bytes = 10485760;
  search_backend = codes "searxng";
  deny_rules = codes "run_bash:rm" ∷ [];
}

abbrev loaded_config : Config Unit
loaded_config = record user_config { model = codes "m1"; allow_rules = codes "run_bash" ∷ [] }

user_run :
    merge_conf_file doubles read (codes "user") (default_config doubles) ≡ checked user_config
unfolding merge_conf_file merge_conf_string merge_from merge_line merge_pair cut_at_equals apply_kv
    apply_web apply_rule add_rule apply_number default_config parse_value is_quoted unescape_from
    escaped trim bytes_eq
user_run = refl

load_run :
    load_config doubles read env (codes "user") [] (codes "local") (codes "x")
    ≡ checked loaded_config
unfolding load_config merge_env or_else validate merge_conf_file merge_conf_string merge_from
    merge_line merge_pair cut_at_equals apply_kv apply_web apply_rule add_rule apply_number
    default_config parse_value is_quoted unescape_from escaped trim bytes_eq
load_run = refl

denies_rm : any_matches (codes "run_bash") (codes "rm -r x") user_config.deny_rules ≡ true
unfolding any_matches rule_matches bytes_eq split_rule starts_with
denies_rm = refl

load_config-deny_example :
    decide
      (make_confirm_policy loaded_config.allow_rules loaded_config.deny_rules)
      (codes "run_bash")
      (codes "rm -r x")
    ≡ PolicyDecision.deny
load_config-deny_example =
    load_config-deny doubles read env (codes "user") [] (codes "local") (codes "x")
      (codes "run_bash") (codes "rm -r x") user_config loaded_config user_run load_run denies_rm

load_config-FromEnv_example : FromEnv env loaded_config
load_config-FromEnv_example =
    load_config-FromEnv doubles read env (codes "user") [] (codes "local") (codes "x") loaded_config
      load_run

-- Two directories with a skill of one name.
abbrev first_dir : List (List (Bytes × Option Bytes))
first_dir = ((codes "Fix", some (codes "do it")) ∷ []) ∷ []

abbrev second_dir : List (List (Bytes × Option Bytes))
second_dir = ((codes "fix", some (codes "other")) ∷ (codes "gone", none) ∷ []) ∷ []

abbrev fix : Skill
fix = record { name = codes "Fix"; description = []; body = codes "do it" }

fix_run : find (codes "FIX") (load_skills first_dir) ≡ some fix
unfolding find load_skills
fix_run = refl

-- One picture of three bytes.
abbrev pictures : Bytes → Option Bytes
pictures path = if bytes_eq path (codes "a.png") then some (1 ∷ 2 ∷ 255 ∷ []) else none

fence_stripped : strip_code_fence (codes "```md\ntext\n```\n") ≡ codes "text\n"
unfolding strip_code_fence
fence_stripped = refl

-- With the closing fence at the start of the inner text the search wraps around.
fence_kept : strip_code_fence (codes "```\n```\n") ≡ codes "```\n"
unfolding strip_code_fence
fence_kept = refl
