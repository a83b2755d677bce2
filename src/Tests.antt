-- ===== src/Tests.antt =====
-- Runs of the model at concrete inputs.
mod Framing
mod Wire
mod Turns
mod State
mod Requests
mod Tasks
mod Dify
mod DifyTurn
mod LangGraph
mod N8n
mod Forms
mod Selectors
mod Bodies
mod Entries
mod Flows
mod Probes
