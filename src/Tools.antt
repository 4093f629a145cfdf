-- ===== src/Tools.antt =====
-- src/tools.cpp: the tools behind the MCP server.
pub mod Output
pub mod Prompt
pub mod RuntimeCache
pub mod Generation
pub mod Summary
pub mod Eval
pub mod Lock
pub mod Resources
pub mod PaneText
pub mod Runtime
pub mod Answer
pub mod Dispatcher
pub mod Arguments
pub mod Stages
pub mod Evaluate
pub mod Handlers
pub mod TestResults
pub mod Dispatch
