-- ===== src/Llm.antt =====
-- packages/runtime/src/llm/router.ts: how a run's calls of a language model are made.
pub mod Cost
pub mod ToolLoop
pub mod Keys
pub mod Endpoint
pub mod Call
