-- ===== src/Ui/ChatView/Entries.antt =====
-- The entries of the panel: what an operation on one of them leaves as it is.
use simple_coder.Prelude.{
  All, Bool, Bool-cases, Bytes, List, [], ap, arith, false, get_elem?, inl, inr, leb, leb→le,
  length, none, not, refl, some, suc, sym, true, zero, ℕ, ◌++◌, ◌∙◌, ◌∷◌, ◌≡◌, ◌≢◌, ◌≤◌,
}
use mathlib.Core.Option
use mathlib.Core.Bool.{not-not}
use simple_coder.Ui.ChatView.{
  Entry, ChatView, append_text, update, append_to, is_collapsible, toggle_here, toggle_last,
  toggle_last_collapsible,
}

length-update {ℓ} :
    {A : Type ℓ} (i : ℕ) (f : A → A) (xs : List A) → length (update i f xs) ≡ length xs
unfolding update
length-update i f [] = refl
length-update zero f (x ∷ xs) = refl
length-update (suc i) f (x ∷ xs) = ap suc (length-update i f xs)

get_elem?-update_at {ℓ} :
    {A : Type ℓ} (i : ℕ) (f : A → A) (xs : List A)
    → get_elem? (update i f xs) i ≡ Option.map f (get_elem? xs i)
unfolding update
get_elem?-update_at i f [] = refl
get_elem?-update_at zero f (x ∷ xs) = refl
get_elem?-update_at (suc i) f (x ∷ xs) = get_elem?-update_at i f xs

get_elem?-update_other {ℓ} :
    {A : Type ℓ} (i j : ℕ) (f : A → A) (xs : List A)
    → i ≢ j
    → get_elem? (update i f xs) j ≡ get_elem? xs j
unfolding update
get_elem?-update_other i j f [] h = refl
get_elem?-update_other zero zero f (x ∷ xs) h = absurd (h refl)
get_elem?-update_other zero (suc j) f (x ∷ xs) h = refl
get_elem?-update_other (suc i) zero f (x ∷ xs) h = refl
get_elem?-update_other (suc i) (suc j) f (x ∷ xs) h =
    get_elem?-update_other i j f xs (λ e. h (ap suc e))

update-outside {ℓ} :
    {A : Type ℓ} (i : ℕ) (f : A → A) (xs : List A) → length xs ≤ i → update i f xs ≡ xs
unfolding update
update-outside i f [] h = refl
update-outside zero f (x ∷ xs) h = absurd (omega arith)
update-outside (suc i) f (x ∷ xs) h = ap (◌∷◌ x) (update-outside i f xs (omega arith))

pub append_to-entries :
    (i : ℕ) (s : Bytes) (v : ChatView)
    → (append_to i s v).entries ≡ update i (append_text s) v.entries
unfolding append_to
append_to-entries i s v = elim (Bool-cases (leb (length v.entries) i)) [
  | inl e ↦ rw e (sym (update-outside i (append_text s) v.entries (leb→le _ _ e)))
  | inr e ↦ rw e refl
]

pub append_to-entry :
    (i : ℕ) (s : Bytes) (v : ChatView)
    → (length (append_to i s v).entries ≡ length v.entries)
      × (get_elem? (append_to i s v).entries i
          ≡ Option.map (λ (e : Entry). record e { text = e.text ++ s }) (get_elem? v.entries i))
      × ((j : ℕ) → i ≢ j → get_elem? (append_to i s v).entries j ≡ get_elem? v.entries j)
unfolding append_text
append_to-entry i s v = rw (append_to-entries i s v) (
  length-update i (append_text s) v.entries,
  get_elem?-update_at i (append_text s) v.entries,
  λ j h. get_elem?-update_other i j (append_text s) v.entries h,
)

abbrev pub IsCollapsible : Entry → Type 0
IsCollapsible e = is_collapsible e ≡ true

abbrev pub IsFixed : Entry → Type 0
IsFixed e = is_collapsible e ≡ false

toggle_last-IsFixed : (es : List Entry) → All IsFixed es → toggle_last es ≡ none
unfolding toggle_last toggle_here
toggle_last-IsFixed [] h = refl
toggle_last-IsFixed (e ∷ es) (h, hs) = rw (toggle_last-IsFixed es hs, h) refl

toggle_last-split :
    (before : List Entry) (e : Entry) (after : List Entry)
    → IsCollapsible e
    → All IsFixed after
    → toggle_last (before ++ e ∷ after)
      ≡ some (before ++ record e { collapsed = not e.collapsed } ∷ after)
unfolding toggle_last toggle_here
toggle_last-split [] e after h hs = rw (toggle_last-IsFixed after hs, h) refl
toggle_last-split (b ∷ before) e after h hs = rw (toggle_last-split before e after h hs) refl

abbrev at_last : List Entry → Entry → List Entry → ℕ → ChatView
at_last before e after scroll = record {
  entries = before ++ e ∷ after;
  scroll_from_bottom = scroll;
}

abbrev toggled : Entry → Entry
toggled e = record e { collapsed = not e.collapsed }

toggled_twice : (e : Entry) → toggled (toggled e) ≡ e
toggled_twice e = ap (λ (b : Bool). record e { collapsed = b }) (not-not e.collapsed)

toggle_once :
    (before : List Entry) (e : Entry) (after : List Entry) (scroll : ℕ)
    → IsCollapsible e
    → All IsFixed after
    → toggle_last_collapsible (at_last before e after scroll)
      ≡ at_last before (toggled e) after scroll
unfolding toggle_last_collapsible
toggle_once before e after scroll h hs =
    rw (toggle_last-split before e after h hs, toggle_last_collapsible) refl

-- The toggle turns over the last entry that can be collapsed and no other; a second one turns it back;
-- and where no entry can be collapsed nothing changes.
pub toggle_last_collapsible-last :
    (before : List Entry) (e : Entry) (after : List Entry) (scroll : ℕ)
    → IsCollapsible e
    → All IsFixed after
    → let v : ChatView = record { entries = before ++ e ∷ after; scroll_from_bottom = scroll } in
      (toggle_last_collapsible v
        ≡ record v { entries = before ++ record e { collapsed = not e.collapsed } ∷ after })
      × (toggle_last_collapsible (toggle_last_collapsible v) ≡ v)
      × (toggle_last_collapsible (record v { entries = after }) ≡ record v { entries = after })
unfolding toggle_last_collapsible
toggle_last_collapsible-last before e after scroll h hs = (
  toggle_once before e after scroll h hs,
  ap toggle_last_collapsible (toggle_once before e after scroll h hs)
      ∙ toggle_once before (toggled e) after scroll h hs
      ∙ ap (λ e. at_last before e after scroll) (toggled_twice e),
  rw (toggle_last-IsFixed after hs, toggle_last_collapsible) refl,
)
