-- ===== src/Agent/Confirm.antt =====
-- src/agent/Confirm.cpp and Confirm.hpp. A `std::set` is a list without repetition, a `std::map` an
-- association list; only membership and lookup are used. The user who answers a prompt is part of a
-- world `W` that the confirmer changes.
pub mod Policy
pub mod Gate
pub mod World
use mathlib.Core.Option
use simple_coder.Prelude.{
  Bool, Bytes, List, Option, [], bytes_eq, false, if◌then◌else◌, is_empty, none, not, set, some,
  true, ◌&&◌, ◌++◌, ◌==◌, ◌||◌, ◌∷◌,
}

pub data ConfirmChoice : Type 0 where
  yes_once no_once always : ConfirmChoice

pub data PolicyDecision : Type 0 where
  prompt allow deny : PolicyDecision

pub record Rule : Type 0 where
  pub tool : Bytes
  pub prefix : Bytes
  pub has_prefix : Bool

-- What stands before and behind the first `:`, if there is one.
unfoldable pub cut_at_colon : Bytes → Option (Bytes × Bytes)
cut_at_colon [] = none
cut_at_colon (c ∷ s) =
    if c == b':'
    then some ([], s)
    else Option.map (λ (p : Bytes × Bytes). (c ∷ p.0, p.1)) (cut_at_colon s)

rule_of : Bytes → Option (Bytes × Bytes) → Rule
rule_of rule none = record { tool = rule; prefix = []; has_prefix = false }
rule_of rule (some (tool, prefix)) = record { tool = tool; prefix = prefix; has_prefix = true }

unfoldable pub split_rule : Bytes → Rule
unfolding cut_at_colon rule_of
split_rule rule = rule_of rule (cut_at_colon rule)

-- `s.rfind(prefix, 0) == 0`
unfoldable pub starts_with : Bytes → Bytes → Bool
starts_with s [] = true
starts_with [] (p ∷ ps) = false
starts_with (c ∷ s) (p ∷ ps) = c == p && starts_with s ps

unfoldable pub member : Bytes → List Bytes → Bool
unfolding bytes_eq
member a [] = false
member a (b ∷ set) = bytes_eq b a || member a set

unfoldable pub insert : Bytes → List Bytes → List Bytes
unfolding member
insert a set = if member a set then set else a ∷ set

abbrev PrefixMap : Type 0
PrefixMap = List (Bytes × List Bytes)

-- `map[tool].push_back(prefix)`
unfoldable pub push_prefix : Bytes → Bytes → PrefixMap → PrefixMap
push_prefix tool prefix [] = (tool, prefix ∷ []) ∷ []
push_prefix tool prefix ((t, ps) ∷ m) =
    if bytes_eq t tool then (t, ps ++ prefix ∷ []) ∷ m else (t, ps) ∷ push_prefix tool prefix m

-- The prefixes that `find` gives, none if the tool is not in the map.
unfoldable pub prefixes_of : Bytes → PrefixMap → List Bytes
prefixes_of tool [] = []
prefixes_of tool ((t, ps) ∷ m) = if bytes_eq t tool then ps else prefixes_of tool m

-- The loop over the prefixes.
unfoldable pub any_prefix : Bytes → List Bytes → Bool
any_prefix details [] = false
any_prefix details (p ∷ ps) = starts_with details p || any_prefix details ps

pub record ConfirmPolicy : Type 0 where
  pub allow_tools : List Bytes
  pub deny_tools : List Bytes
  pub allow_prefixes : PrefixMap
  pub deny_prefixes : PrefixMap

abbrev pub empty_policy : ConfirmPolicy
empty_policy = record { allow_tools = []; deny_tools = []; allow_prefixes = []; deny_prefixes = [] }

unfoldable pub add_allow : ConfirmPolicy → Bytes → ConfirmPolicy
add_allow policy rule =
    let r = split_rule rule in
    if is_empty rule
    then policy
    else if r.has_prefix
    then record policy { allow_prefixes = push_prefix r.tool r.prefix policy.allow_prefixes }
    else record policy { allow_tools = insert r.tool policy.allow_tools }

unfoldable pub add_deny : ConfirmPolicy → Bytes → ConfirmPolicy
add_deny policy rule =
    let r = split_rule rule in
    if is_empty rule
    then policy
    else if r.has_prefix
    then record policy { deny_prefixes = push_prefix r.tool r.prefix policy.deny_prefixes }
    else record policy { deny_tools = insert r.tool policy.deny_tools }

unfoldable pub decide : ConfirmPolicy → Bytes → Bytes → PolicyDecision
decide policy tool details =
    if member tool policy.deny_tools
    then deny
    else if any_prefix details (prefixes_of tool policy.deny_prefixes)
    then deny
    else if member tool policy.allow_tools
    then allow
    else if any_prefix details (prefixes_of tool policy.allow_prefixes)
    then allow
    else prompt

add_all : (ConfirmPolicy → Bytes → ConfirmPolicy) → ConfirmPolicy → List Bytes → ConfirmPolicy
add_all add policy [] = policy
add_all add policy (r ∷ rules) = add_all add (add policy r) rules

unfoldable pub make_confirm_policy : List Bytes → List Bytes → ConfirmPolicy
unfolding add_all
make_confirm_policy allow_rules deny_rules =
    add_all add_deny (add_all add_allow empty_policy allow_rules) deny_rules

pub record ConfirmGate : Type 0 where
  pub policy : ConfirmPolicy
  pub always_allowed : List Bytes

-- What the gate reads of a tool.
pub record Gated : Type 0 where
  pub name : Bytes
  pub requires_confirmation : Bool

-- The confirmer, `none` where none is wired up.
abbrev pub Confirmer : Type 0 → Type 0
Confirmer W = Option (W → Bytes → Bytes → ConfirmChoice × W)

module _ {W : Type 0} where
  unfoldable pub choose : ConfirmGate → Bytes → ConfirmChoice × W → Bool × ConfirmGate × W
  choose gate name (yes_once, w) = (true, gate, w)
  choose gate name (always, w) =
      (true, record gate { always_allowed = insert name gate.always_allowed }, w)
  choose gate name (no_once, w) = (false, gate, w)

  unfoldable pub ask : Confirmer W → ConfirmGate → Bytes → Bytes → W → Bool × ConfirmGate × W
  unfolding choose
  ask none gate name details w = (false, gate, w)
  ask (some confirmer) gate name details w = choose gate name (confirmer w name details)

  -- The `switch` on the policy's verdict and what follows it.
  unfoldable pub by_policy :
      PolicyDecision → Confirmer W → ConfirmGate → Bytes → Bytes → W → Bool × ConfirmGate × W
  unfolding ask
  by_policy deny confirmer gate name details w = (false, gate, w)
  by_policy allow confirmer gate name details w = (true, gate, w)
  by_policy prompt confirmer gate name details w =
      if member name gate.always_allowed then (true, gate, w) else ask confirmer gate name details w

  unfoldable pub gate_allow : Confirmer W → ConfirmGate → Gated → Bytes → W → Bool × ConfirmGate × W
  unfolding by_policy
  gate_allow confirmer gate tool details w =
      if not tool.requires_confirmation
      then (true, gate, w)
      else by_policy (decide gate.policy tool.name details) confirmer gate tool.name details w
