-- ===== src/App/Prompts.antt =====
-- `initPrompt` and `compactPrompt` of src/app/SystemPrompt.cpp: what /init and /compact send.
use simple_coder.Prelude.{Bytes, codes, ◌++◌}

unfoldable pub init_prompt : Bytes → Bytes
init_prompt file_listing =
    codes "Generate the contents of an AGENTS.md file for this project. It will be "
    ++ codes "used as system-prompt guidance for an AI coding assistant working in "
    ++ codes "this repository. Cover, concisely: what the project is, how to "
    ++ codes "build/test/run it, and important conventions or constraints. Output ONLY "
    ++ codes "the markdown contents, with no preamble and no surrounding code fences.\n\n"
    ++ codes "Project files:\n"
    ++ file_listing

unfoldable pub compact_prompt : Bytes
compact_prompt =
    codes "Summarize our conversation so far so the summary can replace the full "
    ++ codes "history as your working context for continuing. Capture, concisely but "
    ++ codes "completely: the user's goals and constraints, key facts and decisions, "
    ++ codes "important file paths and any code changes made, and any open or pending "
    ++ codes "tasks. Write it as notes to yourself for resuming the work. Output ONLY "
    ++ codes "the summary, with no preamble and no surrounding code fences."
