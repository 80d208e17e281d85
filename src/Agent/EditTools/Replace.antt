-- ===== src/Agent/EditTools/Replace.antt =====
-- What `str_replace` does to the files, and what the user was shown before.
use simple_coder.Prelude.{Bytes, Option, codes, false, is_empty, none, some, true, ◌++◌, ◌≡◌}
use simple_coder.Agent.ToolLoop.{ToolResult}
use simple_coder.Agent.EditTools.{
  Files, ArgsLib, Writing, breaks_off, update, find_text, failure, preview, path_header,
  str_replace_details,
}

-- The text around an occurrence.
abbrev Splits : Bytes → Bytes → Option (Bytes × Bytes) → Type 0
Splits old s none = Unit
Splits old s (some (before, after)) = s ≡ before ++ (old ++ after)

module _ (A : ArgsLib) (disk : Bytes → Bytes → Writing) where
  open A use {Json, value}

  -- The text between two parts of the file was replaced, as the user was shown.
  pub record Replaced (args : Json) (files files' : Files) : Type 0 where
    pub path : Bytes
    pub old : Bytes
    pub new : Bytes
    pub before : Bytes
    pub after : Bytes
    pub path_given : value args (codes "path") ≡ some path
    pub old_given : value args (codes "old_str") ≡ some old
    pub new_given : value args (codes "new_str") ≡ some new
    pub was : files path ≡ some (before ++ (old ++ after))
    pub no_second : find_text old after ≡ none
    pub becomes : files' ≡ update path (before ++ (new ++ after)) files
    pub shown :
        str_replace_details A disk args files
        ≡ some (
            preview A disk
              (path_header A disk path)
              (before ++ (old ++ after))
              (before ++ (new ++ after)))

  -- How a call ends.
  pub data Ends (args : Json) (files : Files) : Option ToolResult × Files → Type 0 where
    throws : Ends args files (none, files)
    refuses : (message : Bytes) → Ends args files (some (failure message), files)
    breaks :
        (message path content left : Bytes)
        → disk path content ≡ breaks_off left
        → Ends args files (some (failure message), update path left files)
    replaces :
        {files' : Files} (r : ToolResult)
        → r.ok ≡ true
        → Replaced args files files'
        → Ends args files (some r, files')

  module _ (args : Json) (files : Files) (path old new : Bytes)
      (gp : value args (codes "path") ≡ some path) (go : value args (codes "old_str") ≡ some old)
      (gn : value args (codes "new_str") ≡ some new) (full : is_empty old ≡ false) where
    abbrev lift : ToolResult × Files → Option ToolResult × Files
    lift (r, after) = (some r, after)
