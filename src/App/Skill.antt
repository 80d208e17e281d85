-- ===== src/App/Skill.antt =====
-- src/app/Skill.cpp: the front matter of a skill, and the registry. A directory is the list of its
-- `.md` files in the order of their paths, each with its stem and its text, if it can be read.
pub mod Registry
use simple_coder.Prelude.{
  Bool, Bytes, List, Option, [], back_or, bytes_eq, codes, drop, false, get_or, if◌then◌else◌,
  is_empty, is_space, leb, length, map, none, not, some, take, to_lower, trim_by, true, ◌&&◌, ◌++◌,
  ◌-◌, ◌==◌, ◌||◌, ◌∷◌,
}

pub record Skill : Type 0 where
  pub name : Bytes
  pub description : Bytes
  pub body : Bytes

trim : Bytes → Bytes
trim = trim_by is_space

unfoldable pub lower : Bytes → Bytes
lower s = map to_lower s

unquote : Bytes → Bytes
unquote s =
    if leb 2 (length s)
      && (get_or s 0 0 == 34 || get_or s 0 0 == 39)
      && (back_or s 0 == get_or s 0 0)
    then take (length s - 2) (drop 1 s)
    else s

abbrev no_skill : Skill
no_skill = record { name = []; description = []; body = [] }

is_fence : Bytes → Bool
unfolding trim bytes_eq
is_fence line = bytes_eq (trim line) (codes "---")

-- What stands in front of the first colon and behind it.
cut_at_colon : Bytes → Option (Bytes × Bytes)
cut_at_colon [] = none
cut_at_colon (c ∷ s) = elim (c == b':') [
  | true ↦ some ([], s)
  | false ↦ elim (cut_at_colon s) [ none ↦ none | some (k, v) ↦ some (c ∷ k, v) ]
]

set_field : Option (Bytes × Bytes) → Skill → Skill
unfolding trim lower unquote bytes_eq
set_field none s = s
set_field (some (k, v)) s =
    let key = lower (trim k) in
    let val = unquote (trim v) in
    if bytes_eq key (codes "name")
    then record s { name = val }
    else if bytes_eq key (codes "description")
    then record s { description = val }
    else s

-- The first line that is not blank, and what follows it; `line` is what was read of the next line.
first_line : Bytes → Bytes → Option (Bytes × Bytes)
unfolding trim
first_line line [] = if is_empty (trim line) then none else some (line, [])
first_line line (c ∷ text) = elim (c == b'\n') [
  | true ↦ elim (is_empty (trim line)) [ true ↦ first_line [] text | false ↦ some (line, text) ]
  | false ↦ first_line (line ++ c ∷ []) text
]

-- The fields up to the closing fence, and what follows it.
front_matter : Bytes → Bytes → Skill → Option (Skill × Bytes)
unfolding is_fence set_field cut_at_colon trim
front_matter line [] s = if is_fence line then some (s, []) else none
front_matter line (c ∷ text) s = elim (c == b'\n') [
  | true ↦ elim (is_fence line) [
    | true ↦ some (s, text)
    | false ↦ front_matter [] text (set_field (cut_at_colon (trim line)) s)
  ]
  | false ↦ front_matter (line ++ c ∷ []) text s
]

only_body : Bytes → Skill
unfolding trim
only_body text = record no_skill { body = trim text }

with_body : Bytes → Option (Skill × Bytes) → Skill
unfolding only_body trim
with_body text none = only_body text
with_body text (some (s, rest)) = record s { body = trim rest }

after_first : Bytes → Option (Bytes × Bytes) → Skill
unfolding only_body with_body front_matter is_fence
after_first text none = only_body text
after_first text (some (line, rest)) =
    if not (is_fence line) then only_body text else with_body text (front_matter [] rest no_skill)

unfoldable pub parse_skill : Bytes → Skill
unfolding first_line after_first
parse_skill text = after_first text (first_line [] text)

-- The registry is its list of skills.
unfoldable pub find : Bytes → List Skill → Option Skill
unfolding lower bytes_eq
find name [] = none
find name (s ∷ skills) = if bytes_eq (lower s.name) (lower name) then some s else find name skills

add_if_new : Option Skill → Skill → List Skill → List Skill
add_if_new none s skills = skills ++ s ∷ []
add_if_new (some t) s skills = skills

unfoldable pub add : Skill → List Skill → List Skill
unfolding add_if_new find
add s skills = add_if_new (find s.name skills) s skills

-- The stem is the name of a skill that has none.
named : Bytes → Skill → Skill
named stem s = if is_empty s.name then record s { name = stem } else s

load_file : Bytes × Option Bytes → List Skill → List Skill
unfolding add named parse_skill
load_file (stem, none) skills = skills
load_file (stem, some text) skills =
    let s = named stem (parse_skill text) in if is_empty s.body then skills else add s skills

load_files : List (Bytes × Option Bytes) → List Skill → List Skill
unfolding load_file
load_files [] skills = skills
load_files (f ∷ files) skills = load_files files (load_file f skills)

load_dirs : List (List (Bytes × Option Bytes)) → List Skill → List Skill
unfolding load_files
load_dirs [] skills = skills
load_dirs (files ∷ dirs) skills = load_dirs dirs (load_files files skills)

unfoldable pub load_skills : List (List (Bytes × Option Bytes)) → List Skill
unfolding load_dirs
load_skills dirs = load_dirs dirs []
