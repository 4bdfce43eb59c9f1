-- ===== src/Domains.antt =====
-- A customer's own hostname: packages/app/src/lib/custom-domains.ts, which connects, checks and
-- disconnects it, and the part of packages/monitor/src/index.ts that promotes, disconnects and sweeps.
pub mod Store
pub mod Hostnames
pub mod Claims
pub mod Connect
pub mod Check
pub mod Disconnect
pub mod Monitor
pub mod Lifecycle
pub mod Schedule
pub mod Evidence
pub mod Alone
mod Tests
