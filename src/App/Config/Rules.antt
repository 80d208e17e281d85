-- ===== src/App/Config/Rules.antt =====
-- No layer takes back a rule of an earlier one.
use simple_coder.Prelude.{
  Bool, Bool-cases, Bytes, List, Option, Option-cases, [], ap, append-nil, append_assoc, bytes_eq,
  codes, false, if◌then◌else◌, inl, inr, is_empty, none, refl, some, suc, sym, true, ℕ, ◌++◌, ◌==◌,
  ◌∙◌, ◌∷◌, ◌≡◌,
}
use simple_coder.App.ConfigValue.{Checked, failed, checked, ◌>>=◌, parse_value, trim}
use simple_coder.App.Config.{
  Doubles, Config, add_rule, default_config, apply_number, apply_rule, apply_web, apply_kv,
  merge_pair, merge_line, merge_from, merge_conf_string, merge_conf_file, merge_env, validate,
  load_config,
}

-- An error, or a result with the property.
pub data Held {A : Type 0} (P : A → Type 0) : Checked A → Type 0 where
  fails : {e : Bytes} → Held P (failed e)
  holds : {a : A} → P a → Held P (checked a)

pub held : {A : Type 0} {P : A → Type 0} {a : A} → Held P (checked a) → P a
held (holds p) = p

pub Held-if :
    {A : Type 0} {P : A → Type 0} (b : Bool) {m n : Checked A}
    → Held P m
    → Held P n
    → Held P (if b then m else n)
Held-if true h k = h
Held-if false h k = k

Held->>= :
    {A B : Type 0} {P : A → Type 0} {Q : B → Type 0} {m : Checked A} {f : A → Checked B}
    → Held P m
    → ((a : A) → P a → Held Q (f a))
    → Held Q (m >>= f)
Held->>= fails k = fails
Held->>= (holds {a} p) k = k a p

-- The result of the first step does not matter.
pub Held->>=_any :
    {A B : Type 0} {Q : B → Type 0} (m : Checked A) {f : A → Checked B}
    → ((a : A) → Held Q (f a))
    → Held Q (m >>= f)
Held->>=_any (failed e) k = fails
Held->>=_any (checked a) k = k a

-- The rules of `cfg` stand in front of those of `c`.
pub record Extends {Double : Type 0} (cfg c : Config Double) : Type 0 where
  pub more_allow : List Bytes
  pub more_deny : List Bytes
  pub allows : c.allow_rules ≡ cfg.allow_rules ++ more_allow
  pub denies : c.deny_rules ≡ cfg.deny_rules ++ more_deny

same_rules :
    {Double : Type 0} (cfg c : Config Double)
    → c.allow_rules ≡ cfg.allow_rules
    → c.deny_rules ≡ cfg.deny_rules
    → Extends cfg c
same_rules cfg c e f = record {
  more_allow = [];
  more_deny = [];
  allows = e ∙ sym (append-nil cfg.allow_rules);
  denies = f ∙ sym (append-nil cfg.deny_rules);
}

Extends-trans : {Double : Type 0} (a b c : Config Double) → Extends a b → Extends b c → Extends a c
Extends-trans a b c h k = record {
  more_allow = h.more_allow ++ k.more_allow;
  more_deny = h.more_deny ++ k.more_deny;
  allows =
      k.allows
      ∙ ap (λ (r : List Bytes). r ++ k.more_allow) h.allows
      ∙ append_assoc a.allow_rules h.more_allow k.more_allow;
  denies =
      k.denies
      ∙ ap (λ (r : List Bytes). r ++ k.more_deny) h.denies
      ∙ append_assoc a.deny_rules h.more_deny k.more_deny;
}

add_rule-extends :
    (rule : Bytes) (rules : List Bytes)
    → (more : List Bytes) × (add_rule rule rules ≡ rules ++ more)
unfolding add_rule
add_rule-extends [] rules = ([], sym (append-nil rules))
add_rule-extends (c ∷ s) rules = ((c ∷ s) ∷ [], refl)

more_allow_rules :
    {Double : Type 0} (val : Bytes) (cfg : Config Double)
    → Extends cfg (record cfg { allow_rules = add_rule val cfg.allow_rules })
more_allow_rules val cfg =
    let (more, e) = add_rule-extends val cfg.allow_rules in
    record {
      more_allow = more;
      more_deny = [];
      allows = e;
      denies = sym (append-nil cfg.deny_rules);
    }

more_deny_rules :
    {Double : Type 0} (val : Bytes) (cfg : Config Double)
    → Extends cfg (record cfg { deny_rules = add_rule val cfg.deny_rules })
more_deny_rules val cfg =
    let (more, e) = add_rule-extends val cfg.deny_rules in
    record {
      more_allow = [];
      more_deny = more;
      allows = sym (append-nil cfg.allow_rules);
      denies = e;
    }

ruleset branches = (Held-if, Held->>=_any, holds, same_rules)

module _ (D : Doubles) where
  open D use {Double, strtod}

  apply_number-Extends :
      (key val : Bytes) (cfg : Config Double) → Held (Extends cfg) (apply_number D key val cfg)
  unfolding apply_number
  apply_number-Extends key val cfg = search branches depth 24 fits 5000

  apply_rule-Extends :
      (key val : Bytes) (cfg : Config Double) → Held (Extends cfg) (apply_rule D key val cfg)
  unfolding apply_rule
  apply_rule-Extends key val cfg =
      Held-if (bytes_eq key (codes "allow")) (holds (more_allow_rules val cfg)) (
        Held-if (bytes_eq key (codes "deny")) (holds (more_deny_rules val cfg))
          (apply_number-Extends key val cfg))

  apply_web-Extends :
      (key val : Bytes) (cfg : Config Double) → Held (Extends cfg) (apply_web D key val cfg)
  unfolding apply_web
  apply_web-Extends key val cfg = search (branches, apply_rule-Extends) depth 24 fits 5000

  apply_kv-Extends :
      (key val : Bytes) (cfg : Config Double) → Held (Extends cfg) (apply_kv D key val cfg)
  unfolding apply_kv
  apply_kv-Extends key val cfg = search (branches, apply_web-Extends) depth 24 fits 5000

  merge_pair-Extends :
      (origin : Bytes) (lineno : ℕ) (o : Option (Bytes × Bytes)) (cfg : Config Double)
      → Held (Extends cfg) (merge_pair D origin lineno o cfg)
  unfolding merge_pair
  merge_pair-Extends origin lineno none cfg = fails
  merge_pair-Extends origin lineno (some (key, val)) cfg =
      apply_kv-Extends (trim key) (parse_value val) cfg

  merge_line-Extends :
      (origin : Bytes) (lineno : ℕ) (raw : Bytes) (cfg : Config Double)
      → Held (Extends cfg) (merge_line D origin lineno raw cfg)
  unfolding merge_line
  merge_line-Extends origin lineno raw cfg =
      search (branches, merge_pair-Extends) depth 24 fits 5000

  -- What is done first may be done before what keeps the rules.
  Held-Extends_trans :
      {a b : Config Double} {m : Checked (Config Double)}
      → Extends a b
      → Held (Extends b) m
      → Held (Extends a) m
  Held-Extends_trans h fails = fails
  Held-Extends_trans {a} {b} h (holds {a = c} k) = holds (Extends-trans a b c h k)

  merge_from-Extends :
      (origin : Bytes) (lineno : ℕ) (line doc : Bytes) (cfg : Config Double)
      → Held (Extends cfg) (merge_from D origin lineno line doc cfg)
  unfolding merge_from
  merge_from-Extends origin lineno line [] cfg = merge_line-Extends origin (suc lineno) line cfg
  merge_from-Extends origin lineno line (c ∷ doc) cfg = elim (Bool-cases (c == b'\n')) [
    | inl e ↦
        rw (e, merge_from)
          (Held->>= (merge_line-Extends origin (suc lineno) line cfg)
            (λ b h. Held-Extends_trans h (merge_from-Extends origin (suc lineno) [] doc b)))
    | inr e ↦ rw (e, merge_from) (merge_from-Extends origin lineno (line ++ c ∷ []) doc cfg)
  ]

  merge_conf_file-Extends :
      (read : Bytes → Option Bytes) (path : Bytes) (cfg : Config Double)
      → Held (Extends cfg) (merge_conf_file D read path cfg)
  unfolding merge_conf_file merge_conf_string
  merge_conf_file-Extends read path cfg = elim (Option-cases (read path)) [
    | inl e ↦ rw (e, merge_conf_file) (holds (same_rules cfg cfg refl refl))
    | inr (doc, e) ↦ rw (e, merge_conf_file) (merge_from-Extends path 0 [] doc cfg)
  ]

  -- The file next to the binary, if its directory is known.
  binary_layer-Extends :
      (read : Bytes → Option Bytes) (path : Bytes) (cfg : Config Double)
      → Held (Extends cfg) (if is_empty path then checked cfg else merge_conf_file D read path cfg)
  binary_layer-Extends read path cfg =
      Held-if (is_empty path) (holds (same_rules cfg cfg refl refl))
        (merge_conf_file-Extends read path cfg)

  validate-Extends :
      (env : Bytes → Option Bytes) (a cfg : Config Double)
      → Extends a cfg
      → Held (Extends a) (validate D (merge_env D env cfg))
  unfolding validate merge_env
  validate-Extends env a cfg h =
      Held-if (is_empty _) fails (holds (Extends-trans a cfg _ h (same_rules cfg _ refl refl)))

  pub load_config-Extends :
      (read env : Bytes → Option Bytes) (user_file binary_file local_file config_file : Bytes)
      (user : Config Double)
      → merge_conf_file D read user_file (default_config D) ≡ checked user
      → Held (Extends user) (load_config D read env user_file binary_file local_file config_file)
  unfolding load_config
  load_config-Extends read env user_file binary_file local_file config_file user e = rw e (
      Held->>=
        (Held->>=
          (Held->>= (binary_layer-Extends read binary_file user)
            (λ b h. Held-Extends_trans h (merge_conf_file-Extends read local_file b)))
          (λ b h. Held-Extends_trans h (merge_conf_file-Extends read config_file b)))
        (λ b h. validate-Extends env user b h))
