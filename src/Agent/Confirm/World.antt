-- ===== src/Agent/Confirm/World.antt =====
-- What asking the gate does to the world and to the policy.
use simple_coder.Prelude.{Bool-cases, Bytes, inl, inr, none, refl, some, ◌≡◌}
use simple_coder.Agent.Confirm.{
  ConfirmChoice, yes_once, no_once, always, PolicyDecision, prompt, allow, deny, member,
  ConfirmGate, Gated, Confirmer, decide, choose, ask, by_policy, gate_allow,
}

-- What a confirmer does to the world when it is asked.
abbrev pub asked : {W : Type 0} → Confirmer W → W → Bytes → Bytes → W
asked none w name details = w
asked (some ask_user) w name details = (ask_user w name details).1

module _ {W : Type 0} (P : W → Type 0) where
  choose-world :
      (gate : ConfirmGate) (name : Bytes) (a : ConfirmChoice × W) → P a.1 → P (choose gate name a).2
  unfolding choose
  choose-world gate name (yes_once, w) p = p
  choose-world gate name (no_once, w) p = p
  choose-world gate name (always, w) p = p

  ask-world :
      (confirmer : Confirmer W) (gate : ConfirmGate) (name details : Bytes) (w : W)
      → P w
      → ((w : W) (name details : Bytes) → P w → P (asked confirmer w name details))
      → P (ask confirmer gate name details w).2
  unfolding ask
  ask-world none gate name details w p h = p
  ask-world (some f) gate name details w p h =
      choose-world gate name (f w name details) (h w name details p)

  by_policy-world :
      (v : PolicyDecision) (confirmer : Confirmer W) (gate : ConfirmGate) (name details : Bytes)
      (w : W)
      → P w
      → ((w : W) (name details : Bytes) → P w → P (asked confirmer w name details))
      → P (by_policy v confirmer gate name details w).2
  unfolding by_policy
  by_policy-world deny confirmer gate name details w p h = p
  by_policy-world allow confirmer gate name details w p h = p
  by_policy-world prompt confirmer gate name details w p h =
      elim (Bool-cases (member name gate.always_allowed)) [
        | inl m ↦ rw (m, by_policy) p
        | inr m ↦ rw (m, by_policy) (ask-world confirmer gate name details w p h)
      ]

  pub gate_allow-world :
      (confirmer : Confirmer W) (gate : ConfirmGate) (tool : Gated) (details : Bytes) (w : W)
      → P w
      → ((w : W) (name details : Bytes) → P w → P (asked confirmer w name details))
      → P (gate_allow confirmer gate tool details w).2
  unfolding gate_allow
  gate_allow-world confirmer gate tool details w p h =
      elim (Bool-cases tool.requires_confirmation) [
        | inl g ↦
            rw (g, gate_allow)
              (by_policy-world (decide gate.policy tool.name details) confirmer gate tool.name
                details w p h)
        | inr g ↦ rw (g, gate_allow) p
      ]

module _ {W : Type 0} (confirmer : Confirmer W) (gate : ConfirmGate) where
  choose-policy :
      (name : Bytes) (a : ConfirmChoice × W) → (choose gate name a).1.policy ≡ gate.policy
  unfolding choose
  choose-policy name (yes_once, w) = refl
  choose-policy name (no_once, w) = refl
  choose-policy name (always, w) = refl

  ask-policy :
      (c : Confirmer W) (name details : Bytes) (w : W)
      → (ask c gate name details w).1.policy ≡ gate.policy
  unfolding ask
  ask-policy none name details w = refl
  ask-policy (some f) name details w = choose-policy name (f w name details)

  by_policy-policy :
      (v : PolicyDecision) (name details : Bytes) (w : W)
      → (by_policy v confirmer gate name details w).1.policy ≡ gate.policy
  unfolding by_policy
  by_policy-policy deny name details w = refl
  by_policy-policy allow name details w = refl
  by_policy-policy prompt name details w = elim (Bool-cases (member name gate.always_allowed)) [
    | inl m ↦ rw m refl
    | inr m ↦ rw m (ask-policy confirmer name details w)
  ]

  pub gate_allow-policy :
      (tool : Gated) (details : Bytes) (w : W)
      → (gate_allow confirmer gate tool details w).1.policy ≡ gate.policy
  unfolding gate_allow
  gate_allow-policy tool details w = elim (Bool-cases tool.requires_confirmation) [
    | inl g ↦ rw g (by_policy-policy (decide gate.policy tool.name details) tool.name details w)
    | inr g ↦ rw g refl
  ]
