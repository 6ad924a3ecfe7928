-- ===== src/Examples.antt =====
-- The theorems at concrete inputs.
mod Scripts
mod Setting
mod Routers
mod Connectors
mod Servers
mod Texts
mod Clients
mod Codecs
mod Sources
mod Serverless
mod Completions
mod ToolCalls
mod Memory
