-- ===== src/Agent/EditTools.antt =====
-- The two tools that edit a file: src/agent/tools/StrReplaceTool.cpp and WriteFileTool.cpp, without
-- their schemas. The JSON library is a parameter; `none` is an exception that it throws. So is what
-- happens when a file is written.
pub mod Replace
use simple_coder.Prelude.{
  Bool, Bytes, Option, [], bytes_eq, codes, drop, false, if◌then◌else◌, is_empty, length, none, not,
  some, to_string, true, ◌++◌, ◌∷◌,
}
use simple_coder.Util.Diff.{unified_diff}
use simple_coder.Agent.Confirm.{starts_with}
use simple_coder.Agent.ToolLoop.{ToolResult}

-- The files that can be read, with their contents.
abbrev pub Files : Type 0
Files = Bytes → Option Bytes

pub record ArgsLib : Type 1 where
  pub Json : Type 0
  -- `value(key, "")`
  pub value : Json → Bytes → Option Bytes
  pub contains : Json → Bytes → Bool

-- A file is written: it cannot be opened, or writing fails and leaves something, or it succeeds.
pub data Writing : Type 0 where
  closed_off : Writing
  breaks_off : Bytes → Writing
  written : Writing

unfoldable pub update : Bytes → Bytes → Files → Files
unfolding bytes_eq
update path content files q = if bytes_eq q path then some content else files q

-- The first occurrence: what stands in front of it and behind it.
unfoldable pub find_text : Bytes → Bytes → Option (Bytes × Bytes)
unfolding starts_with
find_text old [] = if starts_with [] old then some ([], []) else none
find_text old (c ∷ s) =
    let rest = find_text old s in
    if starts_with (c ∷ s) old
    then some ([], drop (length old) (c ∷ s))
    else elim rest [ none ↦ none | some (before, after) ↦ some (c ∷ before, after) ]

abbrev pub failure : Bytes → ToolResult
failure message = record { ok = false; output = message }

abbrev quoted : Bytes → Bytes → Bytes → Bytes
quoted text path end = text ++ path ++ end

unfoldable pub write_out : Writing → Bytes → Bytes → Bytes → Files → ToolResult × Files
unfolding update
write_out closed_off path content done files =
    (failure (quoted (codes "error: could not open '") path (codes "' for writing")), files)
write_out (breaks_off left) path content done files = (
  failure (quoted (codes "error: failed while writing '") path (codes "'")),
  update path left files,
)
write_out written path content done files =
    (record { ok = true; output = done }, update path content files)

-- The dash is U+2014 in UTF-8.
abbrev will_fail : Bytes
will_fail = codes " " ++ (0xE2 ∷ 0x80 ∷ 0x94 ∷ codes " edit will fail)")

module _ (A : ArgsLib) (disk : Bytes → Bytes → Writing) where
  open A use {Json, value, contains}

  -- The part behind the search for a second occurrence.
  unfoldable pub replace_unique :
      Bytes → Bytes → Bytes → Bytes → Option (Bytes × Bytes) → Files → ToolResult × Files
  unfolding write_out
  replace_unique path new before after none files =
      let content = before ++ (new ++ after) in
      write_out (disk path content) path content (codes "replaced 1 occurrence in " ++ path) files
  replace_unique path new before after (some second) files = (
    failure (
        quoted (codes "error: old_str is not unique in '") path
          (codes "'; include more surrounding context")),
    files,
  )

  unfoldable pub replace_found :
      Bytes → Bytes → Bytes → Option (Bytes × Bytes) → Files → ToolResult × Files
  unfolding replace_unique find_text
  replace_found path old new none files =
      (failure (quoted (codes "error: old_str not found in '") path (codes "'")), files)
  replace_found path old new (some (before, after)) files =
      replace_unique path new before after (find_text old after) files

  unfoldable pub replace_in : Bytes → Bytes → Bytes → Option Bytes → Files → ToolResult × Files
  unfolding replace_found find_text
  replace_in path old new none files =
      (failure (quoted (codes "error: could not open '") path (codes "'")), files)
  replace_in path old new (some content) files =
      replace_found path old new (find_text old content) files

  unfoldable pub replace_args :
      Bytes → Option Bytes → Option Bytes → Files → Option ToolResult × Files
  unfolding replace_in
  replace_args path none new files = (none, files)
  replace_args path (some old) none files = (none, files)
  replace_args path (some old) (some new) files =
      if is_empty old
      then (some (failure (codes "error: 'old_str' must not be empty")), files)
      else (let (r, after) = replace_in path old new (files path) files in (some r, after))

  unfoldable pub replace_path : Option Bytes → Json → Files → Option ToolResult × Files
  unfolding replace_args
  replace_path none args files = (none, files)
  replace_path (some path) args files =
      if is_empty path
      then (some (failure (codes "error: 'path' argument is required")), files)
      else if not (contains args (codes "old_str"))
      then (some (failure (codes "error: 'old_str' argument is required")), files)
      else replace_args path (value args (codes "old_str")) (value args (codes "new_str")) files

  -- `StrReplaceTool::execute`
  unfoldable pub str_replace : Json → Files → Option ToolResult × Files
  unfolding replace_path
  str_replace args files = replace_path (value args (codes "path")) args files

  unfoldable pub write_args : Option Bytes → Option Bytes → Files → Option ToolResult × Files
  unfolding write_out
  write_args none content files = (none, files)
  write_args (some path) content files =
      if is_empty path
      then (some (failure (codes "error: 'path' argument is required")), files)
      else elim content [
        | none ↦ (none, files)
        | some text ↦
            (let (r, after) =
                write_out (disk path text) path text
                  (codes "wrote " ++ to_string (length text) ++ codes " bytes to " ++ path) files in
              (some r, after))
      ]

  -- `WriteFileTool::execute`
  unfoldable pub write_file : Json → Files → Option ToolResult × Files
  unfolding write_args
  write_file args files =
      write_args (value args (codes "path")) (value args (codes "content")) files

  -- The difference, or that there is none.
  unfoldable pub preview : Bytes → Bytes → Bytes → Bytes
  preview header current updated =
      let diff = unified_diff current updated 3 4000 in
      if is_empty diff then header ++ codes "\n(no changes)" else header ++ codes "\n" ++ diff

  abbrev pub path_header : Bytes → Bytes
  path_header path = codes "path: " ++ path

  unfoldable pub preview_unique :
      Bytes → Bytes → Bytes → Bytes → Bytes → Option (Bytes × Bytes) → Bytes
  unfolding preview
  preview_unique path new current before after none =
      preview (path_header path) current (before ++ (new ++ after))
  preview_unique path new current before after (some second) =
      path_header path ++ codes "\n(old_str is not unique" ++ will_fail

  unfoldable pub preview_found : Bytes → Bytes → Bytes → Bytes → Option (Bytes × Bytes) → Bytes
  unfolding preview_unique find_text
  preview_found path old new current none =
      path_header path ++ codes "\n(old_str not found" ++ will_fail
  preview_found path old new current (some (before, after)) =
      preview_unique path new current before after (find_text old after)

  unfoldable pub preview_in : Bytes → Bytes → Bytes → Option Bytes → Bytes
  unfolding preview_found find_text
  preview_in path old new none = path_header path ++ codes "\n(cannot read file" ++ will_fail
  preview_in path old new (some current) =
      if is_empty old
      then path_header path ++ codes "\n(old_str is empty" ++ will_fail
      else preview_found path old new current (find_text old current)

  unfoldable pub preview_args : Option Bytes → Option Bytes → Option Bytes → Files → Option Bytes
  unfolding preview_in
  preview_args none old new files = none
  preview_args (some path) none new files = none
  preview_args (some path) (some old) none files = none
  preview_args (some path) (some old) (some new) files = some (preview_in path old new (files path))

  -- `StrReplaceTool::confirm_details`
  unfoldable pub str_replace_details : Json → Files → Option Bytes
  unfolding preview_args
  str_replace_details args files =
      preview_args (value args (codes "path")) (value args (codes "old_str"))
        (value args (codes "new_str")) files

  unfoldable pub write_header : Bytes → Bytes → Option Bytes → Bytes
  write_header path text none =
      path_header path ++ codes " (new file, " ++ to_string (length text) ++ codes " bytes)"
  write_header path text (some current) =
      path_header path ++ codes " (overwrite, " ++ to_string (length text) ++ codes " bytes)"

  unfoldable pub write_preview : Bytes → Bytes → Option Bytes → Bytes
  unfolding preview write_header
  write_preview path text none = preview (write_header path text none) [] text
  write_preview path text (some current) =
      preview (write_header path text (some current)) current text

  -- `WriteFileTool::confirm_details`
  unfoldable pub write_file_details : Json → Files → Option Bytes
  unfolding write_preview
  write_file_details args files = elim (value args (codes "path")) [
    | none ↦ none
    | some path ↦ elim (value args (codes "content")) [
      | none ↦ none
      | some text ↦ some (write_preview path text (files path))
    ]
  ]
