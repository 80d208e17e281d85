-- ===== src/Tests.antt =====
-- Runs of the models on concrete inputs, and uses of the theorems at concrete inputs.
mod Util
mod Llm
mod Agent
mod EditTools
mod App
mod Mcp
mod Net
mod Loop
mod View
mod Ui
