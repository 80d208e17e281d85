-- ===== src/App.antt =====
-- src/app: what the application is configured with.
pub mod ConfigValue
pub mod Config
pub mod Command
pub mod Skill
pub mod SystemPrompt
pub mod Attachments
pub mod Prompts
pub mod Loop
