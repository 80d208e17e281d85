-- ===== src/Agent/Confirm/Gate.antt =====
-- What the gate lets through.
use simple_coder.Prelude.{Bool-cases, Bytes, false, inl, inr, none, refl, some, true, ◌≡◌, ◌≢◌, ◌⊎◌}
use simple_coder.Agent.Confirm.{
  ConfirmChoice, yes_once, no_once, always, PolicyDecision, prompt, allow, deny, member, decide,
  ConfirmGate, Gated, Confirmer, choose, ask, by_policy, gate_allow,
}

-- What the user said to the prompt, if a confirmer is wired up.
abbrev pub Consents : {W : Type 0} → Confirmer W → Bytes → Bytes → W → Type 0
Consents none name details w = ⊥
Consents (some ask_user) name details w = (ask_user w name details).0 ≢ no_once

choose-Consents :
    {W : Type 0} (gate : ConfirmGate) (name : Bytes) (a : ConfirmChoice × W)
    → (choose gate name a).0 ≡ true
    → a.0 ≢ no_once
unfolding choose
choose-Consents gate name (yes_once, w) h = λ e. cc
choose-Consents gate name (always, w) h = λ e. cc
choose-Consents gate name (no_once, w) h = cc

ask-Consents :
    {W : Type 0} (confirmer : Confirmer W) (gate : ConfirmGate) (name details : Bytes) (w : W)
    → (ask confirmer gate name details w).0 ≡ true
    → Consents confirmer name details w
unfolding ask
ask-Consents none gate name details w h = cc
ask-Consents (some f) gate name details w h = choose-Consents gate name (f w name details) h

by_policy_sound :
    {W : Type 0} (v : PolicyDecision) (confirmer : Confirmer W) (gate : ConfirmGate)
    (name details : Bytes) (w : W)
    → (by_policy v confirmer gate name details w).0 ≡ true
    → (v ≢ deny)
      × ((v ≡ allow) ⊎ (member name gate.always_allowed ≡ true) ⊎ Consents confirmer name details w)
unfolding by_policy
by_policy_sound deny confirmer gate name details w h = cc
by_policy_sound allow confirmer gate name details w h = (λ e. cc, inl refl)
by_policy_sound prompt confirmer gate name details w h = (
  λ e. cc,
  elim (Bool-cases (member name gate.always_allowed)) [
    | inl m ↦ inr (inl m)
    | inr m ↦ inr (inr (ask-Consents confirmer gate name details w (rw (m, by_policy) at h)))
  ],
)

module _ {W : Type 0} (confirmer : Confirmer W) (gate : ConfirmGate) (tool : Gated)
    (details : Bytes) (w : W) where
  -- A gated tool that the policy denies does not run, whatever was allowed before; nothing is asked
  -- and nothing is remembered.
  pub gate_allow-deny :
      tool.requires_confirmation ≡ true
      → decide gate.policy tool.name details ≡ deny
      → gate_allow confirmer gate tool details w ≡ (false, gate, w)
  unfolding gate_allow
  gate_allow-deny gated e = rw (gated, e, by_policy)

  -- A tool that runs needs no confirmation, or the policy does not deny it and the policy allows it,
  -- or it was always allowed before, or the user has just agreed.
  pub gate_allow_sound :
      (gate_allow confirmer gate tool details w).0 ≡ true
      → (tool.requires_confirmation ≡ false)
        ⊎ (decide gate.policy tool.name details ≢ deny)
          × ((decide gate.policy tool.name details ≡ allow)
              ⊎ (member tool.name gate.always_allowed ≡ true)
              ⊎ Consents confirmer tool.name details w)
  unfolding gate_allow
  gate_allow_sound h = elim (Bool-cases tool.requires_confirmation) [
    | inl gated ↦
        inr (by_policy_sound _ confirmer gate tool.name details w (rw (gated, gate_allow) at h))
    | inr free ↦ inl free
  ]
