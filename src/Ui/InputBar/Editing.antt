-- ===== src/Ui/InputBar/Editing.antt =====
-- The keys act on whole characters.
use simple_coder.Prelude.{
  All, Bytes, [], ap, append-nil, append_assoc, arith, drop, drop-append, false, leb, length,
  length-append, ltb, lt→ltb, none, refl, some, suc, take-append, true, ℕ, ◌&&◌, ◌++◌, ◌+◌, ◌-◌,
  ◌<◌, ◌==◌, ◌||◌, ◌∙◌, ◌∷◌, ◌≡◌, ◌≤◌,
}
use simple_coder.Util.Utf8.Encode.{IsChar}
use simple_coder.Util.Utf8.Boundary.{boundary-IsChar}
use simple_coder.Ui.InputBar.{
  InputBar, enter, backspace, delete, left, right, char, empty_bar, erase, insert_at, insert_text,
  erase_back, erase_forward, type_char, handle_key,
}

-- The cursor between two parts of the text.
abbrev pub between : Bytes → Bytes → InputBar
between before after = record { buffer = before ++ after; cursor = length before }

drop-length_more :
    (before c after : Bytes) → drop (length before + length c) (before ++ (c ++ after)) ≡ after
drop-length_more [] c after =
    rw (let e : 0 + length c ≡ length c = omega arith in e) (drop-append c after)
drop-length_more (b ∷ before) c after =
    let e : suc (length before) + length c ≡ suc (length before + length c) = omega arith in
    rw e (drop-length_more before c after)

erase-middle :
    (before c after : Bytes)
    → erase (before ++ (c ++ after)) (length before) (length c) ≡ before ++ after
unfolding erase
erase-middle before c after =
    rw (take-append before (c ++ after), drop-length_more before c after) refl

insert_text-between :
    (before c after : Bytes) → insert_text c (between before after) ≡ between (before ++ c) after
unfolding insert_text insert_at
insert_text-between before c after =
    rw (take-append before after, drop-append before after, length-append before c, append_assoc)
      refl

length-positive : (c : Bytes) → IsChar c → 0 < length c
length-positive c ch = omega (arith, ap length ch.splits)

-- The cursor in front of a character, and behind it.
abbrev pub in_front : Bytes → Bytes → Bytes → InputBar
in_front before after c = record { buffer = before ++ (c ++ after); cursor = length before }

abbrev pub behind : Bytes → Bytes → Bytes → InputBar
behind before after c = record {
  buffer = before ++ (c ++ after);
  cursor = length before + length c;
}

module _ (before after : Bytes) (c : Bytes) (ch : IsChar c) where
  erase_forward-IsChar : erase_forward (in_front before after c) ≡ between before after
  unfolding erase_forward
  erase_forward-IsChar =
      let next = (boundary-IsChar before after c ch).0 in
      let size : length before + length c - length before ≡ length c = omega arith in
      let inside : ltb (length before) (length (before ++ (c ++ after))) ≡ true = lt→ltb _ _ (
        omega (
          arith,
          length-append before (c ++ after),
          length-append c after,
          length-positive c ch,
        )) in
      rw (inside, next, size, erase-middle before c after) refl

  erase_back-IsChar : erase_back (behind before after c) ≡ between before after
  unfolding erase_back
  erase_back-IsChar =
      let prev = (boundary-IsChar before after c ch).1 in
      let size : length before + length c - length before ≡ length c = omega arith in
      let some_text : ltb 0 (length before + length c) ≡ true =
        lt→ltb _ _ (omega (arith, length-positive c ch)) in
      rw (some_text, prev, size, erase-middle before c after) refl

-- With the cursor at a character between two parts of the text, the arrow keys step over the
-- character, Delete in front of it and Backspace behind it remove it and nothing else, and inserting
-- it puts it in between, with the cursor behind it.
pub handle_key-IsChar :
    (before after : Bytes) (c : Bytes)
    → IsChar c
    → (handle_key right (in_front before after c) ≡ (none, behind before after c))
      × (handle_key left (behind before after c) ≡ (none, in_front before after c))
      × (handle_key delete (in_front before after c) ≡ (none, between before after))
      × (handle_key backspace (behind before after c) ≡ (none, between before after))
      × (insert_text c (between before after) ≡ behind before after c)
unfolding handle_key
handle_key-IsChar before after c ch =
    let (next, prev, _) = boundary-IsChar before after c ch in
    (
      rw next refl,
      rw prev refl,
      ap (λ (b : InputBar). (none, b)) (erase_forward-IsChar before after c ch),
      ap (λ (b : InputBar). (none, b)) (erase_back-IsChar before after c ch),
      insert_text-between before c after ∙ rw (length-append before c, append_assoc) refl,
    )

-- The keys of printable characters, one after the other.
abbrev pub type_all : Bytes → InputBar → InputBar
type_all [] bar = bar
type_all (ch ∷ s) bar = type_all s (handle_key (char ch) bar).1

abbrev pub IsPrintable : ℕ → Type 0
IsPrintable ch = (32 ≤ ch) × (ch < 127)

type_char-between :
    (before after : Bytes) (ch : ℕ)
    → IsPrintable ch
    → type_char ch (between before after) ≡ (none, between (before ++ ch ∷ []) after)
unfolding type_char
type_char-between before after ch (h, k) =
    let enter_key : (ch == 10 || ch == 13) ≡ false = ground arith in
    let erase_key : (ch == 127 || ch == 8) ≡ false = ground arith in
    let printable : (leb 32 ch && ltb ch 127) ≡ true = ground arith in
    rw (enter_key, erase_key, printable)
      (ap (λ (b : InputBar). (none, b)) (insert_text-between before (ch ∷ []) after))

type_all-between :
    (s before after : Bytes)
    → All IsPrintable s
    → type_all s (between before after) ≡ between (before ++ s) after
unfolding handle_key
type_all-between [] before after h = rw append-nil refl
type_all-between (ch ∷ s) before after (h, hs) = rw (type_char-between before after ch h) (
    type_all-between s (before ++ ch ∷ []) after hs
    ∙ ap (λ (b : Bytes). between b after) (append_assoc before (ch ∷ []) s))

-- Enter returns what was typed: the printable characters in order, put between what stood before and
-- behind the cursor, and the buffer is empty afterwards.
pub handle_key-type_all :
    (s before after : Bytes)
    → All IsPrintable s
    → handle_key enter (type_all s (between before after))
      ≡ (some (before ++ s ++ after), empty_bar)
unfolding handle_key
handle_key-type_all s before after h = rw (type_all-between s before after h) refl
