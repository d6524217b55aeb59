-- ===== src/Gateway.antt =====
-- The gateway, apps/gateway/src/server.ts: its stores, the wallet session of a request, and the requests on
-- allowances. What the RPC answers and how a text is read as a date are parameters. Below: the receipts
-- (Receipt), the sessions and the creation of products (Creating), and what the handlers guarantee.
pub mod Session
pub mod Receipt
pub mod Allowances
pub mod Rows
pub mod Isolation
pub mod Recording
pub mod Resolving
pub mod Creating
pub mod Signing
pub mod Tests
