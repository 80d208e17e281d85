-- ===== src/App/Command/Spelling.antt =====
-- How a command may be written, and what is no command.
use simple_coder.Prelude.{
  ==_iff, Bool-cases, Bytes, IsBlank, [], ap, arith, get_or, inl, inr, is_space, refl,
  trim_by-IsBlank, ◌++◌, ◌==◌, ◌∷◌, ◌≡◌, ◌≢◌,
}
use simple_coder.App.Command.{
  Command, trim, lower, cut_at_blank, command_of, parse_trimmed, parse_command, not_command,
}

-- White space around a line does not change what it is parsed as.
pub parse_command-IsBlank :
    (a line b : Bytes)
    → IsBlank is_space a
    → IsBlank is_space b
    → parse_command (a ++ (line ++ b)) ≡ parse_command line
unfolding parse_command trim
parse_command-IsBlank a line b h k = ap parse_trimmed (trim_by-IsBlank is_space a line b h k)

command_of-command : (word rest : Bytes) → (command_of word rest).kind ≢ not_command
unfolding command_of
command_of-command word rest = ground arith

abbrev pub text_of : Bytes → Command
text_of s = record { kind = not_command; arg = s }

parse_trimmed-text :
    (s : Bytes)
    → (get_or s 0 0 ≢ b'/' → parse_trimmed s ≡ text_of s)
      × (get_or s 0 0 ≡ b'/' → (parse_trimmed s).kind ≢ not_command)
unfolding parse_trimmed
parse_trimmed-text [] = (λ h. refl, λ h. omega arith)
parse_trimmed-text (c ∷ s) = elim (Bool-cases (c == b'/')) [
  | inl e ↦ (
    λ h. absurd (h ((==_iff c b'/').0 e)),
    λ h. rw e (command_of-command (lower (cut_at_blank s).0) (trim (cut_at_blank s).1)),
  )
  | inr e ↦ (λ h. rw e refl, λ h. ground (arith, e, h))
]

-- A line is an ordinary message exactly when its first character behind the white space is not a
-- slash, and then the message is the whole line without the white space around it.
pub parse_command-text :
    (line : Bytes)
    → (get_or (trim line) 0 0 ≢ b'/' → parse_command line ≡ text_of (trim line))
      × (get_or (trim line) 0 0 ≡ b'/' → (parse_command line).kind ≢ not_command)
unfolding parse_command
parse_command-text line = parse_trimmed-text (trim line)
