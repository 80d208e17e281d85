-- ===== src/Agent/Confirm/Policy.antt =====
-- The policy that is built from the rules of the configuration, against the rules themselves.
use simple_coder.Prelude.{
  Bool, Bytes, List, [], arith, bytes_eq, bytes_eq_iff, false, if◌then◌else◌, is_empty, not, refl,
  set, true, ◌&&◌, ◌++◌, ◌||◌, ◌∷◌, ◌≡◌,
}
use simple_coder.Agent.Confirm.{
  prompt, allow, deny, split_rule, starts_with, member, insert, PrefixMap, push_prefix, prefixes_of,
  any_prefix, ConfirmPolicy, empty_policy, add_allow, add_deny, decide, add_all,
  make_confirm_policy,
}

-- What one rule says of a call, with no policy in between: a bare name is the whole tool, and
-- `<tool>:<prefix>` the calls of the tool whose details start with the prefix.
unfoldable pub rule_matches : Bytes → Bytes → Bytes → Bool
rule_matches tool details rule =
    let r = split_rule rule in
    not (is_empty rule)
    && bytes_eq r.tool tool
    && (if r.has_prefix then starts_with details r.prefix else true)

unfoldable pub any_matches : Bytes → Bytes → List Bytes → Bool
any_matches tool details [] = false
any_matches tool details (r ∷ rules) = rule_matches tool details r || any_matches tool details rules

member-cons : (a b : Bytes) (set : List Bytes) → member a (b ∷ set) ≡ (bytes_eq b a || member a set)
unfolding member
member-cons a b set = refl

pub member-insert :
    (a b : Bytes) (set : List Bytes) → member a (insert b set) ≡ (bytes_eq b a || member a set)
unfolding insert
member-insert a b set = ground (arith, bytes_eq_iff b a, member-cons a b set)

any_prefix-append :
    (d p : Bytes) (ps : List Bytes)
    → any_prefix d (ps ++ p ∷ []) ≡ (any_prefix d ps || starts_with d p)
unfolding any_prefix
any_prefix-append d p [] = ground arith
any_prefix-append d p (q ∷ ps) = ground (arith, any_prefix-append d p ps)

any_prefix-push :
    (tool d t p : Bytes) (m : PrefixMap)
    → any_prefix d (prefixes_of tool (push_prefix t p m))
      ≡ (any_prefix d (prefixes_of tool m) || (bytes_eq t tool && starts_with d p))
unfolding push_prefix prefixes_of any_prefix
any_prefix-push tool d t p [] = ground arith
any_prefix-push tool d t p ((k, ps) ∷ m) = ground (
  arith,
  bytes_eq_iff k t,
  bytes_eq_iff k tool,
  bytes_eq_iff t tool,
  any_prefix-append d p ps,
  any_prefix-push tool d t p m,
)

-- The allow side and the deny side of a policy, as `decide` reads them.
allow_hit : Bytes → Bytes → ConfirmPolicy → Bool
allow_hit tool d p = member tool p.allow_tools || any_prefix d (prefixes_of tool p.allow_prefixes)

deny_hit : Bytes → Bytes → ConfirmPolicy → Bool
deny_hit tool d p = member tool p.deny_tools || any_prefix d (prefixes_of tool p.deny_prefixes)

module _ (tool d : Bytes) where
  add_allow-hits :
      (p : ConfirmPolicy) (rule : Bytes)
      → (allow_hit tool d (add_allow p rule) ≡ (allow_hit tool d p || rule_matches tool d rule))
        × (deny_hit tool d (add_allow p rule) ≡ deny_hit tool d p)
  unfolding allow_hit deny_hit add_allow rule_matches
  add_allow-hits p rule =
      let r = split_rule rule in
      ground (
        arith,
        member-insert tool r.tool p.allow_tools,
        any_prefix-push tool d r.tool r.prefix p.allow_prefixes,
      )

  add_deny-hits :
      (p : ConfirmPolicy) (rule : Bytes)
      → (deny_hit tool d (add_deny p rule) ≡ (deny_hit tool d p || rule_matches tool d rule))
        × (allow_hit tool d (add_deny p rule) ≡ allow_hit tool d p)
  unfolding allow_hit deny_hit add_deny rule_matches
  add_deny-hits p rule =
      let r = split_rule rule in
      ground (
        arith,
        member-insert tool r.tool p.deny_tools,
        any_prefix-push tool d r.tool r.prefix p.deny_prefixes,
      )

  add_all_allow :
      (rules : List Bytes) (p : ConfirmPolicy)
      → (allow_hit tool d (add_all add_allow p rules)
          ≡ (allow_hit tool d p || any_matches tool d rules))
        × (deny_hit tool d (add_all add_allow p rules) ≡ deny_hit tool d p)
  unfolding add_all any_matches
  add_all_allow [] p = ground arith
  add_all_allow (r ∷ rules) p =
      ground (arith, add_all_allow rules (add_allow p r), add_allow-hits p r)

  add_all_deny :
      (rules : List Bytes) (p : ConfirmPolicy)
      → (deny_hit tool d (add_all add_deny p rules)
          ≡ (deny_hit tool d p || any_matches tool d rules))
        × (allow_hit tool d (add_all add_deny p rules) ≡ allow_hit tool d p)
  unfolding add_all any_matches
  add_all_deny [] p = ground arith
  add_all_deny (r ∷ rules) p = ground (arith, add_all_deny rules (add_deny p r), add_deny-hits p r)

  empty-hits : (allow_hit tool d empty_policy ≡ false) × (deny_hit tool d empty_policy ≡ false)
  unfolding allow_hit deny_hit member prefixes_of any_prefix
  empty-hits = (refl, refl)

  decide-hits :
      (p : ConfirmPolicy)
      → decide p tool d
        ≡ (if deny_hit tool d p then deny else if allow_hit tool d p then allow else prompt)
  unfolding decide allow_hit deny_hit
  decide-hits p = ground arith

-- The policy of a configuration decides a call by its rules alone: any matching deny rule denies it,
-- whatever the allow rules say; else any matching allow rule allows it; else the user is asked.
pub decide-make_confirm_policy :
    (allow_rules deny_rules : List Bytes) (tool details : Bytes)
    → decide (make_confirm_policy allow_rules deny_rules) tool details ≡ (
        if any_matches tool details deny_rules
        then deny
        else if any_matches tool details allow_rules
        then allow
        else prompt)
unfolding make_confirm_policy
decide-make_confirm_policy allow_rules deny_rules tool details =
    let allowing = add_all add_allow empty_policy allow_rules in
    ground (
      arith,
      decide-hits tool details (add_all add_deny allowing deny_rules),
      add_all_deny tool details deny_rules allowing,
      add_all_allow tool details allow_rules empty_policy,
      empty-hits tool details,
    )

pub any_matches-append :
    (tool details : Bytes) (xs ys : List Bytes)
    → any_matches tool details (xs ++ ys)
      ≡ (any_matches tool details xs || any_matches tool details ys)
unfolding any_matches
any_matches-append tool details [] ys = refl
any_matches-append tool details (r ∷ xs) ys = ground (arith, any_matches-append tool details xs ys)
