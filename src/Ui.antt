-- ===== src/Ui.antt =====
-- src/ui: the prompt of the terminal, and the panel that shows the conversation.
pub mod InputBar
pub mod WrapLayout
pub mod TextWrap
pub mod Markdown
pub mod ChatView
