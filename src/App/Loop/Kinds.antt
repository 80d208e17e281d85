-- ===== src/App/Loop/Kinds.antt =====
-- The kind of an entry of the chat does not change while entries are added and written to.
use simple_coder.Prelude.{
  Bool, Bool-cases, Bytes, List, Option, [], ap, arith, get_elem?, inl, inr, length, none, not,
  refl, some, suc, zero, ℕ, ◌++◌, ◌∙◌, ◌∷◌, ◌≡◌,
}
use mathlib.Core.Option
use simple_coder.Ui.ChatView.{
  Kind, Entry, ChatView, push_entry, append_text, append_to, update, collapse, set_collapsed,
  is_collapsible, toggle_here, toggle_last, toggle_last_collapsible,
}
use simple_coder.Ui.ChatView.Entries.{append_to-entries}

unfoldable pub kind_at : List Entry → ℕ → Option Kind
kind_at es i = Option.map (λ (e : Entry). e.kind) (get_elem? es i)

-- What has a kind keeps it.
abbrev pub Keeps : List Entry → List Entry → Type 0
Keeps es fs = (i : ℕ) (k : Kind) → kind_at es i ≡ some k → kind_at fs i ≡ some k

kind_at-append : (es fs : List Entry) → Keeps es (es ++ fs)
unfolding kind_at
kind_at-append [] fs i k h = cc
kind_at-append (e ∷ es) fs zero k h = h
kind_at-append (e ∷ es) fs (suc i) k h = kind_at-append es fs i k h

kind_at-last : (es : List Entry) (e : Entry) → kind_at (es ++ e ∷ []) (length es) ≡ some e.kind
unfolding kind_at
kind_at-last [] e = refl
kind_at-last (d ∷ es) e = kind_at-last es e

kind_at-update :
    (i j : ℕ) (f : Entry → Entry) (es : List Entry)
    → ((e : Entry) → (f e).kind ≡ e.kind)
    → kind_at (update i f es) j ≡ kind_at es j
unfolding kind_at update
kind_at-update i j f [] h = refl
kind_at-update zero zero f (e ∷ es) h = ap some (h e)
kind_at-update zero (suc j) f (e ∷ es) h = refl
kind_at-update (suc i) zero f (e ∷ es) h = refl
kind_at-update (suc i) (suc j) f (e ∷ es) h = kind_at-update i j f es h

pub push_entry-Keeps : (e : Entry) (v : ChatView) → Keeps v.entries (push_entry e v).0.entries
unfolding push_entry
push_entry-Keeps e v = kind_at-append v.entries (e ∷ [])

pub push_entry-kind :
    (e : Entry) (v : ChatView) → kind_at (push_entry e v).0.entries (push_entry e v).1 ≡ some e.kind
unfolding push_entry
push_entry-kind e v = kind_at-last v.entries e

pub append_to-Keeps : (i : ℕ) (s : Bytes) (v : ChatView) → Keeps v.entries (append_to i s v).entries
unfolding append_text
append_to-Keeps i s v j k h =
    rw (append_to-entries i s v) (kind_at-update i j (append_text s) v.entries (λ e. refl) ∙ h)

collapse-kind : (b : Bool) (e : Entry) → (collapse b e).kind ≡ e.kind
unfolding collapse
collapse-kind b e = ground arith

pub set_collapsed-Keeps :
    (i : ℕ) (b : Bool) (v : ChatView) → Keeps v.entries (set_collapsed i b v).entries
unfolding set_collapsed
set_collapsed-Keeps i b v j k h = kind_at-update i j (collapse b) v.entries (collapse-kind b) ∙ h

abbrev KeepsIf : List Entry → Option (List Entry) → Type 0
KeepsIf es none = Unit
KeepsIf es (some fs) = Keeps es fs

toggle_here-Keeps :
    (e : Entry) (es : List Entry) (o : Option (List Entry))
    → KeepsIf es o
    → KeepsIf (e ∷ es) (toggle_here e es o)
unfolding toggle_here kind_at
toggle_here-Keeps e es (some fs) h = kept
  where
    kept : Keeps (e ∷ es) (e ∷ fs)
    kept zero k g = g
    kept (suc i) k g = h i k g
toggle_here-Keeps e es none h = elim (Bool-cases (is_collapsible e)) [
  | inr c ↦ rw c tt
  | inl c ↦ rw c turned
]
  where
    turned : Keeps (e ∷ es) (record e { collapsed = not e.collapsed } ∷ es)
    turned zero k g = g
    turned (suc i) k g = g

toggle_last-Keeps : (es : List Entry) → KeepsIf es (toggle_last es)
unfolding toggle_last
toggle_last-Keeps [] = tt
toggle_last-Keeps (e ∷ es) = toggle_here-Keeps e es (toggle_last es) (toggle_last-Keeps es)

pub toggle_last_collapsible-Keeps :
    (v : ChatView) → Keeps v.entries (toggle_last_collapsible v).entries
unfolding toggle_last_collapsible
toggle_last_collapsible-Keeps v = go (toggle_last v.entries) (toggle_last-Keeps v.entries)
  where
    go :
        (o : Option (List Entry))
        → KeepsIf v.entries o
        → Keeps v.entries
            (elim o as (λ _. ChatView) [
              | none ↦ v
              | some entries ↦ record v { entries = entries }
            ]).entries
    go none h = λ i k g. g
    go (some fs) h = h
