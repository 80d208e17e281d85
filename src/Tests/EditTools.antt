-- ===== src/Tests/EditTools.antt =====
-- Runs of the models of the editing tools.
use simple_coder.Prelude.{bytes_eq, codes, if◌then◌else◌, none, some, true}
use simple_coder.Agent.EditTools.{Files, ArgsLib}

-- Arguments that are all there.
abbrev edit_args : ArgsLib
edit_args = record {
  Json = Unit;
  value = λ args key.
      if bytes_eq key (codes "path")
      then some (codes "f")
      else if bytes_eq key (codes "old_str")
      then some (codes "b")
      else some (codes "x");
  contains = λ args key. true;
}

abbrev one_file : Files
one_file path = if bytes_eq path (codes "f") then some (codes "abc") else none
