-- ===== src/Llm.antt =====
-- src/llm: the messages, the results of a request and the parser of the streamed response.
pub mod Message
pub mod Json
pub mod StreamParser
