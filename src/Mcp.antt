-- ===== src/Mcp.antt =====
-- src/mcp: the client of an MCP server.
pub mod Client
pub mod Servers
