-- ===== src/Tests/Ui.antt =====
-- Runs of the models of src/ui.
use simple_coder.Prelude.{All, Bytes, [], arith, codes, none, refl, some, ◌∷◌, ◌≡◌}
use simple_coder.Util.Utf8.{is_cont, seq_len}
use simple_coder.Util.Utf8.Encode.{IsChar}
use mathlib.Core.List.{flatten}
use simple_coder.Ui.WrapLayout.{wrap_layout}
use simple_coder.Ui.WrapLayout.Rows.{visible, wrap_layout-rows}
use simple_coder.Ui.InputBar.{InputBar, Key, empty_bar, handle_key, insert_text}
use simple_coder.Ui.InputBar.Cursor.{Valid, handle_key-Valid}
use simple_coder.Ui.InputBar.Editing.{
  between, in_front, behind, handle_key-IsChar, type_all, IsPrintable, handle_key-type_all,
}

abbrev two_lines : InputBar
two_lines = record { buffer = codes "one\ntwo"; cursor = 6 }

two_lines-Valid : Valid two_lines
unfolding Valid
two_lines-Valid = omega arith

handle_key-Valid_example : Valid (handle_key Key.up two_lines).1
handle_key-Valid_example = handle_key-Valid Key.up two_lines two_lines-Valid

-- U+00E9
abbrev e_acute : Bytes
e_acute = 0xC3 ∷ 0xA9 ∷ []

e_acute-IsChar : IsChar e_acute
unfolding is_cont seq_len
e_acute-IsChar = record {
  lead = 0xC3;
  conts = 0xA9 ∷ [];
  splits = refl;
  lead_not_cont = refl;
  all_cont = (refl, tt);
  told = refl;
}

handle_key-IsChar_example :
    let before = codes "caf" in
    let after = codes "!" in
    (handle_key Key.right (in_front before after e_acute) ≡ (none, behind before after e_acute))
    × (handle_key Key.left (behind before after e_acute) ≡ (none, in_front before after e_acute))
    × (handle_key Key.delete (in_front before after e_acute) ≡ (none, between before after))
    × (handle_key Key.backspace (behind before after e_acute) ≡ (none, between before after))
    × (insert_text e_acute (between before after) ≡ behind before after e_acute)
handle_key-IsChar_example = handle_key-IsChar (codes "caf") (codes "!") e_acute e_acute-IsChar

ok-IsPrintable : All IsPrintable (codes "ok")
ok-IsPrintable = ((omega arith, omega arith), ((omega arith, omega arith), tt))

handle_key-type_all_example :
    handle_key Key.enter (type_all (codes "ok") (between (codes "a") (codes "b")))
    ≡ (some (codes "aokb"), empty_bar)
handle_key-type_all_example =
    handle_key-type_all (codes "ok") (codes "a") (codes "b") ok-IsPrintable

wrap_layout-rows_example : flatten (wrap_layout 3 2 two_lines).rows ≡ visible (codes "one\ntwo")
wrap_layout-rows_example = wrap_layout-rows 3 2 two_lines
