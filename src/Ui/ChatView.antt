-- ===== src/Ui/ChatView.antt =====
-- src/ui/ChatView.cpp and ChatView.hpp: the panel of the conversation. A number of lines below zero
-- scrolls like zero, so it is a natural number here.
pub mod Layout
pub mod Entries
pub mod Scroll
use simple_coder.Prelude.{
  Bool, Bytes, List, Option, [], codes, false, if◌then◌else◌, leb, length, max, none, not, some,
  suc, true, zero, ℕ, ◌++◌, ◌+◌, ◌-◌, ◌/◌, ◌∷◌,
}

pub data Style : Type 0 where
  plain dim error accent : Style

pub data Kind : Type 0 where
  ordinary thinking preformatted tool : Kind

pub record Entry : Type 0 where
  pub speaker : Bytes
  pub text : Bytes
  pub style : Style
  pub kind : Kind
  pub collapsed : Bool

pub record DisplayLine : Type 0 where
  pub text : Bytes
  pub style : Style

pub record ChatView : Type 0 where
  pub entries : List Entry
  pub scroll_from_bottom : ℕ

abbrev pub empty_view : ChatView
empty_view = record { entries = []; scroll_from_bottom = 0 }

-- `entries_.push_back(...); scroll_to_bottom();`, and the index of the entry.
unfoldable pub push_entry : Entry → ChatView → ChatView × ℕ
push_entry e v =
    (record { entries = v.entries ++ e ∷ []; scroll_from_bottom = 0 }, length v.entries)

unfoldable pub add : Bytes → Bytes → Style → ChatView → ChatView × ℕ
unfolding push_entry
add speaker text style = push_entry (record {
  speaker = speaker;
  text = text;
  style = style;
  kind = Kind.ordinary;
  collapsed = false;
})

unfoldable pub append_text : Bytes → Entry → Entry
append_text s e = record e { text = e.text ++ s }

-- What stands at an index is changed; an index outside changes nothing.
unfoldable pub update {ℓ} : {A : Type ℓ} → ℕ → (A → A) → List A → List A
update i f [] = []
update zero f (x ∷ xs) = f x ∷ xs
update (suc i) f (x ∷ xs) = x ∷ update i f xs

unfoldable pub append_to : ℕ → Bytes → ChatView → ChatView
unfolding update append_text
append_to index s v =
    if leb (length v.entries) index
    then v
    else record { entries = update index (append_text s) v.entries; scroll_from_bottom = 0 }

unfoldable pub append_delta : Bytes → ChatView → ChatView
unfolding update append_text
append_delta s v = elim v.entries [
  | [] ↦ record {
    entries =
        record {
          speaker = [];
          text = s;
          style = Style.plain;
          kind = Kind.ordinary;
          collapsed = false;
        }
        ∷ [];
    scroll_from_bottom = 0;
  }
  | e ∷ es ↦ record {
    entries = update (length es) (append_text s) (e ∷ es);
    scroll_from_bottom = 0;
  }
]

unfoldable pub clear : ChatView → ChatView
clear v = empty_view

unfoldable pub add_preformatted : Bytes → Style → ChatView → ChatView × ℕ
unfolding push_entry
add_preformatted text style = push_entry (record {
  speaker = [];
  text = text;
  style = style;
  kind = Kind.preformatted;
  collapsed = false;
})

unfoldable pub add_thinking : ChatView → ChatView × ℕ
unfolding push_entry
add_thinking = push_entry (record {
  speaker = codes "thinking";
  text = [];
  style = Style.dim;
  kind = Kind.thinking;
  collapsed = false;
})

unfoldable pub add_tool_output : Bytes → Bytes → Bool → ChatView → ChatView × ℕ
unfolding push_entry
add_tool_output header body collapsed = push_entry (record {
  speaker = header;
  text = body;
  style = Style.dim;
  kind = Kind.tool;
  collapsed = collapsed;
})

abbrev pub is_collapsible : Entry → Bool
is_collapsible e = elim e.kind [ Kind.thinking ↦ true | Kind.tool ↦ true | _ ↦ false ]

unfoldable pub collapse : Bool → Entry → Entry
collapse collapsed e = if is_collapsible e then record e { collapsed = collapsed } else e

-- An index outside, or an entry that cannot be collapsed, changes nothing.
unfoldable pub set_collapsed : ℕ → Bool → ChatView → ChatView
unfolding update collapse
set_collapsed index collapsed v = record v { entries = update index (collapse collapsed) v.entries }

-- An entry is toggled if none behind it was, and it can be collapsed.
unfoldable pub toggle_here : Entry → List Entry → Option (List Entry) → Option (List Entry)
toggle_here e es (some done) = some (e ∷ done)
toggle_here e es none =
    if is_collapsible e then some (record e { collapsed = not e.collapsed } ∷ es) else none

-- The last entry that can be collapsed is toggled; `none` if there is none.
unfoldable pub toggle_last : List Entry → Option (List Entry)
unfolding toggle_here
toggle_last [] = none
toggle_last (e ∷ es) = toggle_here e es (toggle_last es)

unfoldable pub toggle_last_collapsible : ChatView → ChatView
unfolding toggle_last
toggle_last_collapsible v = elim (toggle_last v.entries) [
  | none ↦ v
  | some entries ↦ record v { entries = entries }
]

unfoldable pub scroll_up : ℕ → ChatView → ChatView
scroll_up lines v = record v { scroll_from_bottom = v.scroll_from_bottom + lines }

unfoldable pub scroll_down : ℕ → ChatView → ChatView
scroll_down lines v = record v { scroll_from_bottom = v.scroll_from_bottom - lines }

unfoldable pub scroll_page_up : ℕ → ChatView → ChatView
unfolding scroll_up
scroll_page_up viewport_rows = scroll_up (max 1 (viewport_rows - 1))

unfoldable pub scroll_page_down : ℕ → ChatView → ChatView
unfolding scroll_down
scroll_page_down viewport_rows = scroll_down (max 1 (viewport_rows - 1))

abbrev pub int_max : ℕ
int_max = 2147483647

unfoldable pub scroll_to_top : ChatView → ChatView
scroll_to_top v = record v { scroll_from_bottom = int_max / 2 }

unfoldable pub scroll_to_bottom : ChatView → ChatView
scroll_to_bottom v = record v { scroll_from_bottom = 0 }
