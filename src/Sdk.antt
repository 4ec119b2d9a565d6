-- ===== src/Sdk.antt =====
-- The programs over the verifying client: `fid`, the command line and the MCP server.
pub mod OpenAi
pub mod Tools
pub mod Completion
pub mod Commands
