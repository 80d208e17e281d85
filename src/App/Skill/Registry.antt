-- ===== src/App/Skill/Registry.antt =====
-- What the registry holds after loading.
use simple_coder.Prelude.{
  Bool-cases, Bytes, List, Option, [], ap, bytes_eq, false, inl, inr, is_empty, none, refl, some,
  ◌++◌, ◌∙◌, ◌∷◌, ◌≡◌,
}
use simple_coder.App.Skill.{
  Skill, lower, find, add_if_new, add, named, parse_skill, load_file, load_files, load_dirs,
  load_skills,
}

-- A registry whose names are all different up to case, and whose skills all have a body.
pub data WellFormed : List Skill → Type 0 where
  empty : WellFormed []
  snoc :
      {skills : List Skill} (s : Skill)
      → WellFormed skills
      → find s.name skills ≡ none
      → is_empty s.body ≡ false
      → WellFormed (skills ++ s ∷ [])

-- The skill that was found first, else the other.
pub first_of : Option Skill → Option Skill → Option Skill
first_of none other = other
first_of (some s) other = some s

find-append :
    (name : Bytes) (xs ys : List Skill)
    → find name (xs ++ ys) ≡ first_of (find name xs) (find name ys)
unfolding find first_of
find-append name [] ys = refl
find-append name (s ∷ xs) ys = elim (Bool-cases (bytes_eq (lower s.name) (lower name))) [
  | inl e ↦ rw e refl
  | inr e ↦ rw e (find-append name xs ys)
]

find-add_if_new :
    (o : Option Skill) (name : Bytes) (t s : Skill) (skills : List Skill)
    → find name skills ≡ some t
    → find name (add_if_new o s skills) ≡ some t
unfolding add_if_new first_of
find-add_if_new none name t s skills h =
    find-append name skills (s ∷ []) ∙ ap (λ (o : Option Skill). first_of o (find name (s ∷ []))) h
find-add_if_new (some u) name t s skills h = h

find-load_file :
    (f : Bytes × Option Bytes) (name : Bytes) (t : Skill) (skills : List Skill)
    → find name skills ≡ some t
    → find name (load_file f skills) ≡ some t
unfolding load_file add
find-load_file (stem, none) name t skills h = h
find-load_file (stem, some text) name t skills h =
    let s = named stem (parse_skill text) in
    elim (Bool-cases (is_empty s.body)) [
      | inl e ↦ rw e h
      | inr e ↦ rw e (find-add_if_new (find s.name skills) name t s skills h)
    ]

find-load_files :
    (files : List (Bytes × Option Bytes)) (name : Bytes) (t : Skill) (skills : List Skill)
    → find name skills ≡ some t
    → find name (load_files files skills) ≡ some t
unfolding load_files
find-load_files [] name t skills h = h
find-load_files (f ∷ files) name t skills h =
    find-load_files files name t (load_file f skills) (find-load_file f name t skills h)

find-load_dirs :
    (dirs : List (List (Bytes × Option Bytes))) (name : Bytes) (t : Skill) (skills : List Skill)
    → find name skills ≡ some t
    → find name (load_dirs dirs skills) ≡ some t
unfolding load_dirs
find-load_dirs [] name t skills h = h
find-load_dirs (files ∷ dirs) name t skills h =
    find-load_dirs dirs name t (load_files files skills) (find-load_files files name t skills h)

load_dirs-append :
    (dirs more : List (List (Bytes × Option Bytes))) (skills : List Skill)
    → load_dirs (dirs ++ more) skills ≡ load_dirs more (load_dirs dirs skills)
unfolding load_dirs
load_dirs-append [] more skills = refl
load_dirs-append (files ∷ dirs) more skills = load_dirs-append dirs more (load_files files skills)

-- The first source wins: a skill that is found in some directories is the one that is found when
-- more directories follow them.
pub find-load_skills :
    (dirs more : List (List (Bytes × Option Bytes))) (name : Bytes) (t : Skill)
    → find name (load_skills dirs) ≡ some t
    → find name (load_skills (dirs ++ more)) ≡ some t
unfolding load_skills
find-load_skills dirs more name t h =
    rw (load_dirs-append dirs more []) (find-load_dirs more name t (load_dirs dirs []) h)
