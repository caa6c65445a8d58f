-- ===== src/AuthProxy.antt =====
-- internal/authproxy, with pkg/cxd/identity: the short-lived tokens of the workers, and what a
-- request with a token may reach.
pub mod Identity
pub mod State
pub mod Tokens
pub mod Requests
pub mod Samples
pub mod Models
