-- ===== src/Net/Html.antt =====
-- src/net/Html.cpp: a page of HTML as text. The two loops whose index jumps are one scanner with fuel;
-- `none` says that it ran out, and Html/Ends shows that it never does.
pub mod Entity
pub mod Ends
pub mod Tidy
pub mod Numbers
use simple_coder.Prelude.{
  Bool, Bytes, List, Option, [], bytes_eq, codes, false, if◌then◌else◌, is_digit, is_empty, leb,
  length, ltb, map, min, none, not, replicate, some, suc, take, to_lower, true, zero, ℕ, ◌&&◌, ◌++◌,
  ◌+◌, ◌==◌, ◌>>=◌, ◌||◌, ◌∷◌,
}
use simple_coder.Net.Html.Entity.{append_entity}

-- A round takes the first byte, puts something out and leaves a rest.
unfoldable pub scan_all : (ℕ → Bytes → Bytes × Bytes) → ℕ → Bytes → Option Bytes
scan_all next fuel [] = some []
scan_all next zero (c ∷ s) = none
scan_all next (suc fuel) (c ∷ s) = scan_all next fuel (next c s).1 >>= λ t. some ((next c s).0 ++ t)

unfoldable pub lower : Bytes → Bytes
lower s = map to_lower s

unfoldable pub ci_starts_with : Bytes → Bytes → Bool
ci_starts_with s [] = true
ci_starts_with [] (p ∷ prefix) = false
ci_starts_with (c ∷ s) (p ∷ prefix) = to_lower c == to_lower p && ci_starts_with s prefix

-- The text from the first match on; nothing where the needle does not occur.
unfoldable pub find_ci : Bytes → Bytes → Option Bytes
unfolding ci_starts_with
find_ci needle [] = none
find_ci needle (c ∷ s) =
    let later = find_ci needle s in if ci_starts_with (c ∷ s) needle then some (c ∷ s) else later

abbrev block_tags : List Bytes
block_tags =
    codes "p"
    ∷ codes "div"
    ∷ codes "br"
    ∷ codes "li"
    ∷ codes "ul"
    ∷ codes "ol"
    ∷ codes "tr"
    ∷ codes "table"
    ∷ codes "h1"
    ∷ codes "h2"
    ∷ codes "h3"
    ∷ codes "h4"
    ∷ codes "h5"
    ∷ codes "h6"
    ∷ codes "section"
    ∷ codes "article"
    ∷ codes "header"
    ∷ codes "footer"
    ∷ codes "nav"
    ∷ codes "blockquote"
    ∷ codes "pre"
    ∷ codes "hr"
    ∷ codes "body"
    ∷ codes "html"
    ∷ codes "head"
    ∷ []

unfoldable pub member : Bytes → List Bytes → Bool
unfolding bytes_eq
member tag [] = false
member tag (t ∷ tags) = bytes_eq t tag || member tag tags

unfoldable pub is_block_tag : Bytes → Bool
unfolding member
is_block_tag tag = member tag block_tags

-- The name in front of the first semicolon, and what follows it.
unfoldable pub cut_at_semicolon : Bytes → Option (Bytes × Bytes)
cut_at_semicolon [] = none
cut_at_semicolon (c ∷ s) =
    let later = cut_at_semicolon s >>= λ cut. some (c ∷ cut.0, cut.1) in
    if c == b';' then some ([], s) else later

unfoldable pub entity_in : Bytes → Option (Bytes × Bytes) → Bytes × Bytes
unfolding append_entity
entity_in s none = (b'&' ∷ [], s)
entity_in s (some (name, rest)) =
    if leb (length name + 1) 10 then (append_entity name, rest) else (b'&' ∷ [], s)

unfoldable pub next_entity : ℕ → Bytes → Bytes × Bytes
unfolding entity_in cut_at_semicolon
next_entity c s = if c == b'&' then entity_in s (cut_at_semicolon s) else (c ∷ [], s)

unfoldable pub decode_entities : Bytes → Option Bytes
unfolding scan_all next_entity
decode_entities s = scan_all next_entity (length s) s

-- `pending_space`, `pending_newlines` and `seen_content`.
pub record Blank : Type 0 where
  pub space : Bool
  pub newlines : ℕ
  pub seen : Bool

abbrev pub no_blank : Bool → Blank
no_blank seen = record { space = false; newlines = 0; seen = seen }

-- What is put out in front of the next byte that is no blank.
unfoldable pub gap : Blank → Bytes
gap b =
    if not b.seen
    then []
    else if ltb 0 b.newlines
    then replicate (min b.newlines 2) b'\n'
    else if b.space
    then 32 ∷ []
    else []

unfoldable pub collapse_from : Blank → Bytes → Bytes
unfolding gap
collapse_from b [] = []
collapse_from b (c ∷ s) =
    let spaced = collapse_from (record b { space = true }) s in
    let broken = collapse_from (record b { space = false; newlines = b.newlines + 1 }) s in
    let more = collapse_from (no_blank true) s in
    if c == 32 || c == 9 || c == 13 then spaced else if c == 10 then broken else gap b ++ c ∷ more

unfoldable pub collapse_ws : Bytes → Bytes
unfolding collapse_from
collapse_ws s = collapse_from (no_blank false) s

unfoldable pub occurs : Bytes → Bytes → Bool
unfolding find_ci
occurs needle s = elim (find_ci needle s) [ none ↦ false | some _ ↦ true ]

unfoldable pub looks_like_html : Bytes → Bool
unfolding occurs
looks_like_html body =
    let head = take 1024 body in
    occurs (codes "<!doctype") head
    || occurs (codes "<html") head
    || occurs (codes "<body") head
    || occurs (codes "<div") head
    || occurs (codes "<p>") head

-- Behind the next `>`.
unfoldable pub after_close : Bytes → Bytes
after_close [] = []
after_close (c ∷ s) = if c == b'>' then s else after_close s

unfoldable pub skip_element : Bytes → Bytes → Bytes
unfolding find_ci after_close
skip_element close s = elim (find_ci close s) [ none ↦ [] | some rest ↦ after_close rest ]

abbrev is_alnum : ℕ → Bool
is_alnum c = is_digit c || (leb b'A' c && leb c b'Z') || (leb b'a' c && leb c b'z')

unfoldable pub take_name : Bytes → Bytes
take_name [] = []
take_name (c ∷ s) = let more = take_name s in if is_alnum c then c ∷ more else []

-- The name of a tag, behind a slash if there is one.
unfoldable pub tag_name : Bytes → Bytes
unfolding take_name lower
tag_name [] = []
tag_name (c ∷ s) = if c == b'/' then lower (take_name s) else lower (take_name (c ∷ s))

-- One round of the loop over the page: `s` is what follows the byte `c`.
unfoldable pub next_text : ℕ → Bytes → Bytes × Bytes
unfolding ci_starts_with skip_element after_close tag_name is_block_tag
next_text c s =
    if not (c == b'<')
    then ((if c == 10 || c == 13 || c == 9 then 32 else c) ∷ [], s)
    else if ci_starts_with (c ∷ s) (codes "<script")
    then (b'\n' ∷ [], skip_element (codes "</script") s)
    else if ci_starts_with (c ∷ s) (codes "<style")
    then (b'\n' ∷ [], skip_element (codes "</style") s)
    else ((if is_block_tag (tag_name s) then b'\n' else 32) ∷ [], after_close s)

unfoldable pub strip_tags : Bytes → Option Bytes
unfolding scan_all next_text
strip_tags body = scan_all next_text (length body) body

-- Whether the page is taken for HTML.
unfoldable pub is_html : Bytes → Bytes → Bool
unfolding occurs lower looks_like_html
is_html body content_type =
    let ct = lower content_type in
    if occurs (codes "html") ct
    then true
    else if occurs (codes "json") ct || occurs (codes "text/plain") ct || occurs (codes "xml") ct
    then false
    else if is_empty ct
    then looks_like_html body
    else false

unfoldable pub html_to_text : Bytes → Bytes → Option Bytes
unfolding is_html strip_tags decode_entities collapse_ws
html_to_text body content_type = if not (is_html body content_type) then some body else (do
  stripped ← strip_tags body
  decoded ← decode_entities stripped
  some (collapse_ws decoded))
