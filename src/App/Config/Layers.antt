-- ===== src/App/Config/Layers.antt =====
-- Which layer wins.
use simple_coder.Prelude.{
  Bool-cases, Bytes, List, Option, arith, codes, false, inl, inr, is_empty, refl, some, subst, true,
  ◌++◌, ◌≡◌,
}
use simple_coder.Agent.Confirm.{decide, make_confirm_policy, deny}
use simple_coder.Agent.Confirm.Policy.{any_matches, any_matches-append, decide-make_confirm_policy}
use simple_coder.App.ConfigValue.{checked}
use simple_coder.App.Config.Rules.{Held, fails, holds, held, Held->>=_any, load_config-Extends}
use simple_coder.App.Config.{
  Doubles, Config, default_config, merge_conf_file, or_else, merge_env, validate, load_config,
}

policy-deny :
    (allows denies more : List Bytes) (tool details : Bytes)
    → any_matches tool details denies ≡ true
    → decide (make_confirm_policy allows (denies ++ more)) tool details ≡ deny
policy-deny allows denies more tool details h = ground (
  arith,
  decide-make_confirm_policy allows (denies ++ more) tool details,
  any_matches-append tool details denies more,
  h,
)

-- A call that a deny rule of the user's own file matches is denied under the loaded configuration,
-- whatever the other files say: no later layer can allow it again.
pub load_config-deny :
    (D : Doubles) (read env : Bytes → Option Bytes)
    (user_file binary_file local_file config_file tool details : Bytes) (user cfg : Config D.Double)
    → merge_conf_file D read user_file (default_config D) ≡ checked user
    → load_config D read env user_file binary_file local_file config_file ≡ checked cfg
    → any_matches tool details user.deny_rules ≡ true
    → decide (make_confirm_policy cfg.allow_rules cfg.deny_rules) tool details ≡ deny
load_config-deny D read env user_file binary_file local_file config_file tool details user cfg e f
      h =
    let ext = held (
      subst (Held _) f
        (load_config-Extends D read env user_file binary_file local_file config_file user e)) in
    rw ext.denies (policy-deny cfg.allow_rules user.deny_rules ext.more_deny tool details h)

-- What a loaded configuration holds of the environment.
pub record FromEnv {Double : Type 0} (env : Bytes → Option Bytes) (cfg : Config Double)
    : Type 0 where
  pub usable : is_empty cfg.base_url ≡ false
  pub url_wins : (v : Bytes) → env (codes "OPENAI_BASE_URL") ≡ some v → cfg.base_url ≡ v
  pub key_wins : (v : Bytes) → env (codes "OPENAI_API_KEY") ≡ some v → cfg.api_key ≡ v
  pub model_wins : (v : Bytes) → env (codes "MODEL") ≡ some v → cfg.model ≡ v

or_else-some : (o : Option Bytes) (old v : Bytes) → o ≡ some v → or_else o old ≡ v
unfolding or_else
or_else-some o old v e = rw e refl

module _ (D : Doubles) where
  validate-FromEnv :
      (env : Bytes → Option Bytes) (c : Config D.Double)
      → Held (FromEnv env) (validate D (merge_env D env c))
  unfolding validate merge_env
  validate-FromEnv env c =
      elim (Bool-cases (is_empty (or_else (env (codes "OPENAI_BASE_URL")) c.base_url))) [
        | inl e ↦ rw e fails
        | inr e ↦ rw e (
            holds (record {
              usable = e;
              url_wins = λ v f. or_else-some _ c.base_url v f;
              key_wins = λ v f. or_else-some _ c.api_key v f;
              model_wins = λ v f. or_else-some _ c.model v f;
            }))
      ]

  load_config-Held :
      (read env : Bytes → Option Bytes) (user_file binary_file local_file config_file : Bytes)
      → Held (FromEnv env) (load_config D read env user_file binary_file local_file config_file)
  unfolding load_config
  load_config-Held read env user_file binary_file local_file config_file =
      Held->>=_any _ (λ c. validate-FromEnv env c)

  -- A configuration that loads has a base URL, and each of the three variables that is set in the
  -- environment wins over all the files.
  pub load_config-FromEnv :
      (read env : Bytes → Option Bytes) (user_file binary_file local_file config_file : Bytes)
      (cfg : Config D.Double)
      → load_config D read env user_file binary_file local_file config_file ≡ checked cfg
      → FromEnv env cfg
  load_config-FromEnv read env user_file binary_file local_file config_file cfg e = held (
      subst (Held (FromEnv env)) e
        (load_config-Held read env user_file binary_file local_file config_file))
