-- ===== src/Llm/StreamParser/Content.antt =====
-- What the parser has accumulated, against what it has reported.
use simple_coder.Prelude.{
  Bool, Bool-cases, Bytes, List, Option, [], append-nil, append_assoc, bytes_eq, codes, drop, false,
  get_or, if◌then◌else◌, inl, inr, is_empty, none, not, refl, some, subst, take, true, ◌++◌, ◌==◌,
  ◌>>=◌, ◌∷◌, ◌≡◌,
}
use simple_coder.Llm.Message.{pos}
use simple_coder.Llm.Json.{JsonLib}
use simple_coder.Llm.StreamParser.Order.{Ascending, Ascending-nil, update_call-Ascending}
use simple_coder.Llm.StreamParser.{
  call_fields, trim, data_field, object_at, elements_at, Piece, content_piece, reasoning_piece,
  Parsed, StreamParser, new_parser, add_calls, call_fields, add_content, add_reasoning, set_finish,
  add_tool_calls, process_delta, process_choices, read_usage, process_chunk, process_data,
  process_line, drain, feed, feed_all,
}

-- The pieces that the content callback was called with, joined.
pub content_of : List Piece → Bytes
content_of [] = []
content_of (content_piece s ∷ log) = s ++ content_of log
content_of (reasoning_piece s ∷ log) = content_of log

pub reasoning_of : List Piece → Bytes
reasoning_of [] = []
reasoning_of (content_piece s ∷ log) = reasoning_of log
reasoning_of (reasoning_piece s ∷ log) = s ++ reasoning_of log

content_of-append : (xs ys : List Piece) → content_of (xs ++ ys) ≡ content_of xs ++ content_of ys
unfolding content_of
content_of-append [] ys = refl
content_of-append (content_piece s ∷ xs) ys = rw (content_of-append xs ys, append_assoc) refl
content_of-append (reasoning_piece s ∷ xs) ys = content_of-append xs ys

reasoning_of-append :
    (xs ys : List Piece) → reasoning_of (xs ++ ys) ≡ reasoning_of xs ++ reasoning_of ys
unfolding reasoning_of
reasoning_of-append [] ys = refl
reasoning_of-append (content_piece s ∷ xs) ys = reasoning_of-append xs ys
reasoning_of-append (reasoning_piece s ∷ xs) ys = rw (reasoning_of-append xs ys, append_assoc) refl

-- What a parse keeps true of its fields.
pub record Coherent (p : Parsed) : Type 0 where
  pub same_content : p.content ≡ content_of p.log
  pub same_reasoning : p.reasoning ≡ reasoning_of p.log
  pub ordered : Ascending p.tool_by_index

-- An exception, or a result with the property.
Holds : {A : Type 0} → (A → Type 0) → Option A → Type 0
Holds P none = Unit
Holds P (some a) = P a

bind-Holds :
    {A B : Type 0} (P : A → Type 0) (Q : B → Type 0) (m : Option A) (f : A → Option B)
    → Holds P m
    → ((a : A) → P a → Holds Q (f a))
    → Holds Q (m >>= f)
unfolding Holds
bind-Holds P Q none f h k = tt
bind-Holds P Q (some a) f h k = k a h

Holds-if :
    {A : Type 0} (P : A → Type 0) (b : Bool) (m n : Option A)
    → Holds P m
    → Holds P n
    → Holds P (if b then m else n)
Holds-if P true m n h k = h
Holds-if P false m n h k = k

Any : {A : Type 0} → A → Type 0
Any a = Unit

Holds-Any : {A : Type 0} (m : Option A) → Holds Any m
unfolding Holds Any
Holds-Any none = tt
Holds-Any (some a) = tt

module _ (J : JsonLib) where
  open J use {Json}

  add_content-Coherent : (o : Option Bytes) (p : Parsed) → Coherent p → Coherent (add_content J o p)
  unfolding add_content content_of reasoning_of
  add_content-Coherent none p g = g
  add_content-Coherent (some s) p g = record {
    same_content = rw (content_of-append, append-nil, g.same_content) refl;
    same_reasoning = rw (reasoning_of-append, append-nil) g.same_reasoning;
    ordered = g.ordered;
  }

  add_reasoning-Coherent :
      (o : Option Bytes) (p : Parsed) → Coherent p → Coherent (add_reasoning J o p)
  unfolding add_reasoning content_of reasoning_of
  add_reasoning-Coherent none p g = g
  add_reasoning-Coherent (some s) p g = record {
    same_content = rw (content_of-append, append-nil) g.same_content;
    same_reasoning = rw (reasoning_of-append, append-nil, g.same_reasoning) refl;
    ordered = g.ordered;
  }

  set_finish-Coherent : (o : Option Bytes) (p : Parsed) → Coherent p → Coherent (set_finish J o p)
  unfolding set_finish
  set_finish-Coherent none p g = g
  set_finish-Coherent (some s) p g = record {
    same_content = g.same_content;
    same_reasoning = g.same_reasoning;
    ordered = g.ordered;
  }

  add_calls-Coherent :
      (tcs : List Json) (p : Parsed) → Coherent p → Holds Coherent (add_calls J tcs p)
  unfolding add_calls Holds Any
  add_calls-Coherent [] p g = g
  add_calls-Coherent (tc ∷ tcs) p g =
      bind-Holds Any Coherent (J.value_int tc (codes "index") (pos 0)) _ (Holds-Any _) (λ i u.
        add_calls-Coherent tcs _ (record {
          same_content = g.same_content;
          same_reasoning = g.same_reasoning;
          ordered = update_call-Ascending i (call_fields J tc) p.tool_by_index g.ordered;
        }))

  add_tool_calls-Coherent :
      (o : Option (List Json)) (p : Parsed) → Coherent p → Holds Coherent (add_tool_calls J o p)
  unfolding add_tool_calls Holds
  add_tool_calls-Coherent none p g = g
  add_tool_calls-Coherent (some tcs) p g = add_calls-Coherent tcs p g

  process_delta-Coherent :
      (o : Option Json) (p : Parsed) → Coherent p → Holds Coherent (process_delta J o p)
  unfolding process_delta Holds
  process_delta-Coherent none p g = g
  process_delta-Coherent (some delta) p g =
      add_tool_calls-Coherent _ _ (add_reasoning-Coherent _ _ (add_content-Coherent _ p g))

  process_choices-Coherent :
      (o : Option (List Json)) (p : Parsed) → Coherent p → Holds Coherent (process_choices J o p)
  unfolding process_choices Holds
  process_choices-Coherent none p g = g
  process_choices-Coherent (some []) p g = g
  process_choices-Coherent (some (choice ∷ _)) p g =
      process_delta-Coherent _ _ (set_finish-Coherent _ p g)

  read_usage-Coherent :
      (o : Option Json) (p : Parsed) → Coherent p → Holds Coherent (read_usage J o p)
  unfolding read_usage Holds Any
  read_usage-Coherent none p g = g
  read_usage-Coherent (some u) p g =
      bind-Holds Any Coherent (J.value_int u (codes "prompt_tokens") p.prompt_tokens) _
        (Holds-Any _)
        (λ a _.
          bind-Holds Any Coherent (J.value_int u (codes "completion_tokens") p.completion_tokens) _
            (Holds-Any _)
            (λ b _.
              bind-Holds Any Coherent (J.value_int u (codes "total_tokens") p.total_tokens) _
                (Holds-Any _)
                (λ c _. record {
                  same_content = g.same_content;
                  same_reasoning = g.same_reasoning;
                  ordered = g.ordered;
                })))

  process_chunk-Coherent :
      (o : Option Json) (p : Parsed) → Coherent p → Holds Coherent (process_chunk J o p)
  unfolding process_chunk Holds
  process_chunk-Coherent none p g = g
  process_chunk-Coherent (some chunk) p g =
      let usage = object_at J chunk (codes "usage") in
      let choices = elements_at J chunk (codes "choices") in
      bind-Holds Coherent Coherent (read_usage J usage p) (process_choices J choices)
        (read_usage-Coherent usage p g) (λ q k. process_choices-Coherent choices q k)

  process_data-Coherent :
      (payload : Bytes) (p : Parsed) → Coherent p → Holds Coherent (process_data J payload p)
  unfolding process_data Holds
  process_data-Coherent payload p g =
      Holds-if Coherent (bytes_eq payload (codes "[DONE]")) _ _
        (record {
          same_content = g.same_content;
          same_reasoning = g.same_reasoning;
          ordered = g.ordered;
        })
        (process_chunk-Coherent (J.parse payload) p g)

  process_line-Coherent :
      (raw : Bytes) (p : Parsed) → Coherent p → Holds Coherent (process_line J raw p)
  unfolding process_line Holds
  process_line-Coherent raw p g =
      let line = trim raw in
      elim (Bool-cases (is_empty line)) [
        | inl e ↦ rw e g
        | inr e ↦ elim (Bool-cases (get_or line 0 0 == b':')) [
          | inl f ↦ rw (e, f) g
          | inr f ↦ elim (Bool-cases (not (bytes_eq (take 5 line) data_field))) [
            | inl k ↦ rw (e, f, k) g
            | inr k ↦ rw (e, f, k) (process_data-Coherent (trim (drop 5 line)) p g)
          ]
        ]
      ]

  abbrev Good : StreamParser → Type 0
  Good p = Coherent p.parsed

  drain-Good : (s line : Bytes) (p : Parsed) → Coherent p → Holds Good (drain J line s p)
  unfolding drain Holds
  drain-Good [] line p g = g
  drain-Good (c ∷ s) line p g = elim (Bool-cases (c == b'\n')) [
    | inl e ↦
        rw (e, drain)
          (bind-Holds Coherent Good (process_line J line p) (drain J [] s)
            (process_line-Coherent line p g) (λ q k. drain-Good s [] q k))
    | inr e ↦ rw (e, drain) (drain-Good s (line ++ c ∷ []) p g)
  ]

  feed_all-Good :
      (chunks : List Bytes) (p : StreamParser) → Good p → Holds Good (feed_all J chunks p)
  unfolding feed_all feed Holds
  feed_all-Good [] p g = g
  feed_all-Good (bytes ∷ chunks) p g =
      bind-Holds Good Good (feed J bytes p) (feed_all J chunks)
        (drain-Good (p.buffer ++ bytes) [] p.parsed g) (λ q k. feed_all-Good chunks q k)

-- Whatever chunks a fresh parser is fed, the accumulated content and reasoning are what the
-- callbacks were called with, joined in their order, and the tool calls stand in strictly ascending
-- order of the index that the server gave them.
pub feed_all-Coherent :
    (J : JsonLib) (chunks : List Bytes) (p : StreamParser)
    → feed_all J chunks new_parser ≡ some p
    → Coherent p.parsed
unfolding Holds content_of reasoning_of
feed_all-Coherent J chunks p e = subst (Holds (Good J)) e (
    feed_all-Good J chunks new_parser
      (record { same_content = refl; same_reasoning = refl; ordered = Ascending-nil }))
