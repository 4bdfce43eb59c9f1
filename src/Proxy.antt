-- ===== src/Proxy.antt =====
-- packages/proxy/src: the Cloudflare Worker that serves recipient documents.
pub mod Auth
pub mod World
pub mod Hosts
pub mod Routes
pub mod Gates
pub mod Handler
pub mod Fetching
mod Tests
