-- ===== src/Llm/StreamParser/Chunks.antt =====
-- The boundaries of the chunks do not matter.
use mathlib.Core.List.{flatten}
use simple_coder.Prelude.{
  All, All-append, Bool-cases, Bytes, List, Option, [], ap, append-nil, append_assoc, arith, false,
  inl, inr, none, refl, some, sym, ◌++◌, ◌==◌, ◌>>=◌, ◌∙◌, ◌∷◌, ◌≡◌, ◌≢◌,
}
use simple_coder.Llm.Json.{JsonLib}
use simple_coder.Llm.StreamParser.{
  Parsed, StreamParser, new_parser, process_line, drain, feed, feed_all,
}

>>=-assoc :
    {A B C : Type 0} (m : Option A) (f : A → Option B) (g : B → Option C)
    → (m >>= f >>= g) ≡ (m >>= λ a. f a >>= g)
>>=-assoc none f g = refl
>>=-assoc (some a) f g = refl

abbrev pub Lacks : Bytes → Type 0
Lacks = All (λ c. c ≢ b'\n')

module _ (J : JsonLib) where
  drain-append :
      (xs line ys : Bytes) (p : Parsed)
      → drain J line (xs ++ ys) p ≡ (drain J line xs p >>= λ q. drain J q.buffer ys q.parsed)
  unfolding drain
  drain-append [] line ys p = refl
  drain-append (c ∷ xs) line ys p = elim (Bool-cases (c == b'\n')) [
    | inl e ↦
        rw (e, drain)
          (ap (λ (k : Parsed → Option StreamParser). process_line J line p >>= k)
              (λ i q. drain-append xs [] ys q i)
            ∙ sym (>>=-assoc (process_line J line p) (drain J [] xs) _))
    | inr e ↦ rw (e, drain) (drain-append xs (line ++ c ∷ []) ys p)
  ]

  -- A line with no newline in it is passed over.
  drain-Lacks :
      (xs line ys : Bytes) (p : Parsed)
      → Lacks xs
      → drain J line (xs ++ ys) p ≡ drain J (line ++ xs) ys p
  unfolding drain
  drain-Lacks [] line ys p h = rw append-nil refl
  drain-Lacks (c ∷ xs) line ys p (h, hs) =
      let e : (c == b'\n') ≡ false = ground arith in
      rw (e, drain) (drain-Lacks xs (line ++ c ∷ []) ys p hs ∙ rw append_assoc)

  -- The buffer never holds a newline.
  abbrev Fresh : Option StreamParser → Type 0
  Fresh none = Unit
  Fresh (some p) = Lacks p.buffer

  bind-Fresh :
      (m : Option Parsed) (f : Parsed → Option StreamParser)
      → ((q : Parsed) → Fresh (f q))
      → Fresh (m >>= f)
  bind-Fresh none f h = tt
  bind-Fresh (some q) f h = h q

  drain-Fresh : (s line : Bytes) (p : Parsed) → Lacks line → Fresh (drain J line s p)
  unfolding drain
  drain-Fresh [] line p h = h
  drain-Fresh (c ∷ s) line p h = elim (Bool-cases (c == b'\n')) [
    | inl e ↦
        rw (e, drain)
          (bind-Fresh (process_line J line p) (drain J [] s) (λ q. drain-Fresh s [] q tt))
    | inr e ↦
        rw (e, drain)
          (drain-Fresh s (line ++ c ∷ []) p
            (All-append (λ c. c ≢ b'\n') line (c ∷ []) h ((λ f. ground (arith, e, f)), tt)))
  ]

  feed-Fresh : (bytes : Bytes) (p : StreamParser) → Fresh (feed J bytes p)
  unfolding feed
  feed-Fresh bytes p = drain-Fresh (p.buffer ++ bytes) [] p.parsed tt

  -- Two continuations that agree on a buffer without a newline.
  bind-Fresh_cong :
      (m : Option StreamParser) (f g : StreamParser → Option StreamParser)
      → Fresh m
      → ((q : StreamParser) → Lacks q.buffer → f q ≡ g q)
      → (m >>= f) ≡ (m >>= g)
  bind-Fresh_cong none f g h e = refl
  bind-Fresh_cong (some q) f g h e = e q h

  -- Feeding two chunks is feeding them joined.
  feed-append :
      (xs ys : Bytes) (p : StreamParser) → (feed J xs p >>= feed J ys) ≡ feed J (xs ++ ys) p
  unfolding feed
  feed-append xs ys p =
      bind-Fresh_cong (feed J xs p) (feed J ys) (λ q. drain J q.buffer ys q.parsed)
        (feed-Fresh xs p) (λ q h. drain-Lacks q.buffer [] ys q.parsed h)
      ∙ sym (drain-append (p.buffer ++ xs) [] ys p.parsed)
      ∙ rw append_assoc refl

  feed-nil : (p : StreamParser) → Lacks p.buffer → feed J [] p ≡ some p
  unfolding feed
  feed-nil p h = drain-Lacks p.buffer [] [] p.parsed h

  feed_all-flatten_from :
      (chunks : List Bytes) (p : StreamParser)
      → Lacks p.buffer
      → feed_all J chunks p ≡ feed J (flatten chunks) p
  unfolding feed_all flatten
  feed_all-flatten_from [] p h = sym (feed-nil p h)
  feed_all-flatten_from (bytes ∷ chunks) p h =
      bind-Fresh_cong (feed J bytes p) (feed_all J chunks) (feed J (flatten chunks))
        (feed-Fresh bytes p) (λ q k. feed_all-flatten_from chunks q k)
      ∙ feed-append bytes (flatten chunks) p

-- However a response is cut into chunks, a fresh parser ends in the state that it reaches when the
-- whole response arrives in one: the same text, calls, usage, callbacks and rest of a line, or an
-- exception in both cases.
pub feed_all-flatten :
    (J : JsonLib) (chunks : List Bytes)
    → feed_all J chunks new_parser ≡ feed J (flatten chunks) new_parser
feed_all-flatten J chunks = feed_all-flatten_from J chunks new_parser tt
