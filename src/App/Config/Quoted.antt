-- ===== src/App/Config/Quoted.antt =====
-- A document that sets one key to a quoted value.
use simple_coder.Prelude.{
  All, All-append, Bool-cases, Bytes, Option, [], ap, append-nil, append_assoc, arith, bytes_eq,
  codes, false, inl, inr, is_space, refl, some, suc, trim_by-append, ℕ, ◌++◌, ◌==◌, ◌∙◌, ◌∷◌, ◌≡◌,
  ◌≢◌,
}
use simple_coder.App.ConfigValue.{checked, trim}
use simple_coder.App.ConfigValue.RoundTrip.{escape_char, escape, quote, parse_value-quote}
use simple_coder.App.Config.{
  Doubles, Config, cut_at_equals, apply_kv, merge_pair, merge_line, merge_from, merge_conf_string,
}

Lacks : Bytes → Type 0
Lacks = All (λ c. c ≢ 10)

escape_char-Lacks : (c : ℕ) → Lacks (escape_char c)
unfolding escape_char Lacks
escape_char-Lacks c = elim (Bool-cases (c == 10)) [
  | inl e ↦ rw e ((λ f. omega arith), ((λ f. omega arith), tt))
  | inr e ↦ elim (Bool-cases (c == 9)) [
    | inl f ↦ rw (e, f) ((λ f. omega arith), ((λ f. omega arith), tt))
    | inr f ↦ elim (Bool-cases (c == 34)) [
      | inl g ↦ rw (e, f, g) ((λ f. omega arith), ((λ f. omega arith), tt))
      | inr g ↦ elim (Bool-cases (c == 92)) [
        | inl k ↦ rw (e, f, g, k) ((λ f. omega arith), ((λ f. omega arith), tt))
        | inr k ↦ rw (e, f, g, k) ((λ z. ground (arith, e, z)), tt)
      ]
    ]
  ]
]

escape-Lacks : (s : Bytes) → Lacks (escape s)
unfolding escape Lacks
escape-Lacks [] = tt
escape-Lacks (c ∷ s) =
    All-append _ (escape_char c) (escape s) (escape_char-Lacks c) (escape-Lacks s)

module _ (D : Doubles) where
  merge_from-Lacks :
      (origin : Bytes) (lineno : ℕ) (line doc : Bytes) (cfg : Config D.Double)
      → Lacks doc
      → merge_from D origin lineno line doc cfg ≡ merge_line D origin (suc lineno) (line ++ doc) cfg
  unfolding merge_from Lacks
  merge_from-Lacks origin lineno line [] cfg h = rw append-nil refl
  merge_from-Lacks origin lineno line (c ∷ doc) cfg (h, hs) =
      let e : (c == b'\n') ≡ false = ground arith in
      rw (e, merge_from)
        (merge_from-Lacks origin lineno (line ++ c ∷ []) doc cfg hs ∙ rw append_assoc refl)

  setting_trimmed :
      (s : Bytes) → trim (codes "system_prompt=" ++ quote s) ≡ codes "system_prompt=" ++ quote s
  unfolding trim quote
  setting_trimmed s =
      trim_by-append is_space b's' (codes "ystem_prompt=" ++ 34 ∷ escape s) 34 refl refl

  setting_Lacks : (s : Bytes) → Lacks (codes "system_prompt=" ++ quote s)
  unfolding Lacks quote
  setting_Lacks s =
      All-append _ (codes "system_prompt=\"") (escape s ++ 34 ∷ []) ground (arith)
        (All-append _ (escape s) (34 ∷ []) (escape-Lacks s) ground (arith))

  cut_setting :
      (s : Bytes)
      → cut_at_equals (codes "system_prompt=" ++ quote s) ≡ some (codes "system_prompt", quote s)
  unfolding cut_at_equals
  cut_setting s = refl

  apply_setting :
      (s : Bytes) (cfg : Config D.Double)
      → apply_kv D (codes "system_prompt") s cfg ≡ checked (record cfg { system_prompt = s })
  unfolding apply_kv bytes_eq
  apply_setting s cfg = refl

  pair_setting :
      (origin s : Bytes) (cfg : Config D.Double)
      → merge_pair D origin 1 (some (codes "system_prompt", quote s)) cfg
        ≡ checked (record cfg { system_prompt = s })
  unfolding merge_pair trim
  pair_setting origin s cfg = rw (parse_value-quote s) (apply_setting s cfg)

  merge_setting :
      (origin s : Bytes) (cfg : Config D.Double)
      → merge_line D origin 1 (codes "system_prompt=" ++ quote s) cfg
        ≡ checked (record cfg { system_prompt = s })
  unfolding merge_line
  merge_setting origin s cfg = rw (setting_trimmed s) (
      ap (λ (o : Option (Bytes × Bytes)). merge_pair D origin 1 o cfg) (cut_setting s)
      ∙ pair_setting origin s cfg)

  -- Any string can be stored as the system prompt: a document that sets it to the quoted string
  -- merges, and changes nothing but the system prompt.
  pub merge_conf_string-quote :
      (s origin : Bytes) (cfg : Config D.Double)
      → merge_conf_string D (codes "system_prompt=" ++ quote s) origin cfg
        ≡ checked (record cfg { system_prompt = s })
  unfolding merge_conf_string
  merge_conf_string-quote s origin cfg =
      merge_from-Lacks origin 0 [] (codes "system_prompt=" ++ quote s) cfg (setting_Lacks s)
      ∙ merge_setting origin s cfg
