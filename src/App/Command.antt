-- ===== src/App/Command.antt =====
-- src/app/Command.cpp: the slash commands.
pub mod Spelling
use simple_coder.Prelude.{
  Bytes, List, [], bytes_eq, codes, if◌then◌else◌, is_space, map, not, to_lower, trim_by, ◌==◌,
  ◌||◌, ◌∷◌,
}

pub data CommandKind : Type 0 where
  not_command help clear retry model init compact skill quit unknown : CommandKind

pub record Command : Type 0 where
  pub kind : CommandKind
  pub arg : Bytes

unfoldable pub trim : Bytes → Bytes
trim = trim_by is_space

unfoldable pub lower : Bytes → Bytes
lower s = map to_lower s

-- The text in front of the first blank or tab, and the rest with it.
unfoldable pub cut_at_blank : Bytes → Bytes × Bytes
cut_at_blank [] = ([], [])
cut_at_blank (c ∷ s) =
    let (word, rest) = cut_at_blank s in if c == 32 || c == 9 then ([], c ∷ s) else (c ∷ word, rest)

unfoldable pub command_of : Bytes → Bytes → Command
unfolding bytes_eq
command_of word rest =
    if bytes_eq word (codes "help") || bytes_eq word (codes "?")
    then record { kind = help; arg = [] }
    else if bytes_eq word (codes "clear")
    then record { kind = clear; arg = [] }
    else if bytes_eq word (codes "retry")
    then record { kind = retry; arg = [] }
    else if bytes_eq word (codes "model")
    then record { kind = model; arg = rest }
    else if bytes_eq word (codes "init")
    then record { kind = init; arg = [] }
    else if bytes_eq word (codes "compact")
    then record { kind = compact; arg = [] }
    else if bytes_eq word (codes "skill") || bytes_eq word (codes "skills")
    then record { kind = skill; arg = rest }
    else if bytes_eq word (codes "quit") || bytes_eq word (codes "exit")
    then record { kind = quit; arg = [] }
    else record { kind = unknown; arg = word }

unfoldable pub parse_trimmed : Bytes → Command
unfolding command_of cut_at_blank lower trim
parse_trimmed [] = record { kind = not_command; arg = [] }
parse_trimmed (c ∷ s) =
    if not (c == b'/')
    then record { kind = not_command; arg = c ∷ s }
    else command_of (lower (cut_at_blank s).0) (trim (cut_at_blank s).1)

unfoldable pub parse_command : Bytes → Command
unfolding parse_trimmed trim
parse_command line = parse_trimmed (trim line)

unfoldable pub help_lines : List Bytes
help_lines =
    codes "Commands"
    ∷ codes "  /help            show this help"
    ∷ codes "  /clear           clear the conversation"
    ∷ codes "  /retry           resend the last message"
    ∷ codes "  /model [name]    list models, or switch to one"
    ∷ codes "  /init            generate AGENTS.md from this project"
    ∷ codes "  /compact         summarize the conversation to free up context"
    ∷ codes "  /skill [name]    list skills, or run one (also /<name>)"
    ∷ codes "  /quit            exit (also /exit)"
    ∷ []
    ∷ codes "Keys"
    ∷ codes "  Enter            send message"
    ∷ codes "  Alt+Enter        insert a newline"
    ∷ codes "  Up / Down        scroll (move cursor while typing)"
    ∷ codes "  Left / Right     move cursor"
    ∷ codes "  Home / End       top / bottom (line start/end while typing)"
    ∷ codes "  PgUp / PgDn      scroll one page"
    ∷ codes "  Tab              show / hide last reasoning or tool output"
    ∷ codes "  Esc              cancel the in-flight response"
    ∷ codes "  Mouse wheel      scroll"
    ∷ codes "  F1               this help"
    ∷ []
    ∷ codes "  Press any key to close."
    ∷ []
