-- ===== src/Prelude/Text.antt =====
-- A `std::string` or a `std::string_view` is its list of bytes.
use Prim.Native.Char.{code}
use Prim.Native.String.{String}
use Prim.Native.Nat.{ℕ, zero, suc, ◌+◌, ◌/◌, ◌%◌, ◌<◌}
use mathlib.Core.Bool.{Bool, true, false, ◌&&◌, ◌||◌}
use mathlib.Core.Logic.{◌↔◌, ◌⊎◌, inl, inr, ◌≢◌}
use mathlib.Core.Path.{◌≡◌, refl, ap, sym, ◌∙◌}
use native.Mathlib.Omega.{arith}
use mathlib.Core.List.{List, [], ◌∷◌, ◌++◌, append_assoc}
use simple_coder.Prelude.Lists.{All}
use simple_coder.Prelude.Tests.{leb, ◌==◌, if◌then◌else◌, Bool-cases}

abbrev pub Bytes : Type 0
Bytes = List ℕ

-- The code points of a literal; these are its bytes when the text is ASCII.
abbrev pub codes : String → Bytes
codes String.[] = []
codes (String.◌∷◌ c s) = code c ∷ codes s

-- `std::isspace` in the C locale.
abbrev pub is_space : ℕ → Bool
is_space c = c == 32 || (leb 9 c && leb c 13)

-- `std::isdigit`.
abbrev pub is_digit : ℕ → Bool
is_digit c = leb b'0' c && leb c b'9'

-- `std::tolower` in the C locale.
abbrev pub to_lower : ℕ → ℕ
to_lower c = if leb b'A' c && leb c b'Z' then c + 32 else c

-- `operator==` of two strings.
unfoldable pub bytes_eq : Bytes → Bytes → Bool
bytes_eq [] [] = true
bytes_eq [] (y ∷ ys) = false
bytes_eq (x ∷ xs) [] = false
bytes_eq (x ∷ xs) (y ∷ ys) = x == y && bytes_eq xs ys

-- Every value fits a byte.
abbrev pub AreBytes : Bytes → Type 0
AreBytes = All (λ c. c < 256)

pub bytes_eq_iff : (xs ys : Bytes) → (bytes_eq xs ys ≡ true) ↔ (xs ≡ ys)
unfolding bytes_eq
bytes_eq_iff [] [] = ground arith
bytes_eq_iff [] (y ∷ ys) = ground arith
bytes_eq_iff (x ∷ xs) [] = ground arith
bytes_eq_iff (x ∷ xs) (y ∷ ys) = ground (arith, bytes_eq_iff xs ys)

pub bytes_eq_self : (xs : Bytes) → bytes_eq xs xs ≡ true
bytes_eq_self xs = (bytes_eq_iff xs xs).1 refl

pub bytes_eq_cases :
    (xs ys : Bytes) → (bytes_eq xs ys ≡ true) × (xs ≡ ys) ⊎ (bytes_eq xs ys ≡ false) × (xs ≢ ys)
bytes_eq_cases xs ys = elim (Bool-cases (bytes_eq xs ys)) [
  | inl e ↦ inl (e, (bytes_eq_iff xs ys).0 e)
  | inr e ↦ inr (e, λ h. cc ((bytes_eq_iff xs ys).1 h))
]

-- `std::to_string` of a number that is not negative: its decimal digits, the last one first.
unfoldable pub decimal : ℕ → ℕ → Bytes → Bytes
decimal zero n done = done
decimal (suc fuel) n done =
    let now = (48 + n % 10) ∷ done in
    let more = decimal fuel (n / 10) now in if n / 10 == 0 then now else more

unfoldable pub to_string : ℕ → Bytes
unfolding decimal
to_string n = decimal (suc n) n []

-- The loops that trim a text in front and at the end.
abbrev pub drop_while : (ℕ → Bool) → Bytes → Bytes
drop_while p [] = []
drop_while p (c ∷ s) = if p c then drop_while p s else c ∷ s

abbrev pub cons_unless : Bool → ℕ → Bytes → Bytes
cons_unless blank c [] = if blank then [] else c ∷ []
cons_unless blank c (d ∷ s) = c ∷ d ∷ s

abbrev pub drop_trailing : (ℕ → Bool) → Bytes → Bytes
drop_trailing p [] = []
drop_trailing p (c ∷ s) = cons_unless (p c) c (drop_trailing p s)

abbrev pub trim_by : (ℕ → Bool) → Bytes → Bytes
trim_by p s = drop_trailing p (drop_while p s)

abbrev pub is_empty : Bytes → Bool
is_empty [] = true
is_empty (c ∷ s) = false

-- `back()` of a text that is not empty.
abbrev pub back_or : Bytes → ℕ → ℕ
back_or [] d = d
back_or (c ∷ s) d = back_or s c

pub back_or-append : (s : Bytes) (c d : ℕ) → back_or (s ++ c ∷ []) d ≡ c
back_or-append [] c d = refl
back_or-append (b ∷ s) c d = back_or-append s c b

-- A text that does not end in what is trimmed.
pub drop_trailing-append :
    (p : ℕ → Bool) (s : Bytes) (c : ℕ) → p c ≡ false → drop_trailing p (s ++ c ∷ []) ≡ s ++ c ∷ []
drop_trailing-append p [] c h = rw h refl
drop_trailing-append p (b ∷ []) c h = rw h refl
drop_trailing-append p (b ∷ d ∷ s) c h =
    ap (cons_unless (p b) b) (drop_trailing-append p (d ∷ s) c h)

pub trim_by-append :
    (p : ℕ → Bool) (b : ℕ) (s : Bytes) (c : ℕ)
    → p b ≡ false
    → p c ≡ false
    → trim_by p (b ∷ s ++ c ∷ []) ≡ b ∷ s ++ c ∷ []
trim_by-append p b s c h k = rw h (drop_trailing-append p (b ∷ s) c k)

-- What is trimmed in front and behind does not matter.
module _ (p : ℕ → Bool) where
  abbrev pub IsBlank : Bytes → Type 0
  IsBlank = All (λ c. p c ≡ true)

  drop_while-IsBlank : (a s : Bytes) → IsBlank a → drop_while p (a ++ s) ≡ drop_while p s
  drop_while-IsBlank [] s h = refl
  drop_while-IsBlank (c ∷ a) s (h, hs) = rw h (drop_while-IsBlank a s hs)

  drop_trailing-IsBlank : (b : Bytes) → IsBlank b → drop_trailing p b ≡ []
  drop_trailing-IsBlank [] h = refl
  drop_trailing-IsBlank (c ∷ b) (h, hs) = rw (drop_trailing-IsBlank b hs, h) refl

  drop_trailing-append_IsBlank :
      (s b : Bytes) → IsBlank b → drop_trailing p (s ++ b) ≡ drop_trailing p s
  drop_trailing-append_IsBlank [] b h = drop_trailing-IsBlank b h
  drop_trailing-append_IsBlank (c ∷ s) b h =
      ap (cons_unless (p c) c) (drop_trailing-append_IsBlank s b h)

  trim_by-behind : (s b : Bytes) → IsBlank b → trim_by p (s ++ b) ≡ trim_by p s
  trim_by-behind [] b h = ap (drop_trailing p) (go b h)
    where
      go : (b : Bytes) → IsBlank b → drop_while p b ≡ []
      go [] h = refl
      go (c ∷ b) (h, hs) = rw h (go b hs)
  trim_by-behind (c ∷ s) b h = elim (Bool-cases (p c)) [
    | inl e ↦ rw e (trim_by-behind s b h)
    | inr e ↦ rw e (drop_trailing-append_IsBlank (c ∷ s) b h)
  ]

  pub trim_by-IsBlank :
      (a s b : Bytes) → IsBlank a → IsBlank b → trim_by p (a ++ (s ++ b)) ≡ trim_by p s
  trim_by-IsBlank a s b h k =
      ap (drop_trailing p) (drop_while-IsBlank a (s ++ b) h) ∙ trim_by-behind s b k

-- The lines of a text: what stands between its newlines, the last one without a newline.
abbrev pub cons_first : ℕ → List Bytes → List Bytes
cons_first c [] = (c ∷ []) ∷ []
cons_first c (l ∷ ls) = (c ∷ l) ∷ ls

unfoldable pub cut_lines : Bytes → List Bytes
cut_lines [] = [] ∷ []
cut_lines (c ∷ s) = let rest = cut_lines s in if c == b'\n' then [] ∷ rest else cons_first c rest

-- The bytes that are neither blanks nor newlines.
unfoldable pub ink : Bytes → Bytes
ink [] = []
ink (c ∷ s) = if c == 32 || c == 10 then ink s else c ∷ ink s

unfoldable pub ink_lines : List Bytes → Bytes
unfolding ink
ink_lines [] = []
ink_lines (l ∷ ls) = ink l ++ ink_lines ls

pub ink-append : (s t : Bytes) → ink (s ++ t) ≡ ink s ++ ink t
unfolding ink
ink-append [] t = refl
ink-append (c ∷ s) t = elim (Bool-cases (c == 32 || c == 10)) [
  | inl e ↦ rw e (ink-append s t)
  | inr e ↦ rw e (ap (◌∷◌ c) (ink-append s t))
]

pub ink_lines-append : (ls ms : List Bytes) → ink_lines (ls ++ ms) ≡ ink_lines ls ++ ink_lines ms
unfolding ink_lines
ink_lines-append [] ms = refl
ink_lines-append (l ∷ ls) ms =
    rw (ink_lines-append ls ms) (sym (append_assoc (ink l) (ink_lines ls) (ink_lines ms)))

pub cut_lines-ink : (s : Bytes) → ink_lines (cut_lines s) ≡ ink s
unfolding cut_lines ink_lines ink
cut_lines-ink [] = refl
cut_lines-ink (c ∷ s) = elim (Bool-cases (c == 10)) [
  | inl e ↦ ap ink_lines (newline e) ∙ cut_lines-ink s ∙ sym (blank e)
  | inr e ↦
      ap ink_lines (inner e)
      ∙ at_front c (cut_lines s)
      ∙ ap (◌++◌ (ink (c ∷ []))) (cut_lines-ink s)
      ∙ sym (ink-append (c ∷ []) s)
]
  where
    newline : (c == 10) ≡ true → cut_lines (c ∷ s) ≡ [] ∷ cut_lines s
    newline e = rw e refl

    inner : (c == 10) ≡ false → cut_lines (c ∷ s) ≡ cons_first c (cut_lines s)
    inner e = rw e refl

    blank : (c == 10) ≡ true → ink (c ∷ s) ≡ ink s
    blank e = ground arith

    at_front :
        (c : ℕ) (ls : List Bytes) → ink_lines (cons_first c ls) ≡ ink (c ∷ []) ++ ink_lines ls
    at_front c [] = refl
    at_front c (l ∷ ls) =
        ap (λ t. t ++ ink_lines ls) (ink-append (c ∷ []) l)
        ∙ append_assoc (ink (c ∷ [])) (ink l) (ink_lines ls)
