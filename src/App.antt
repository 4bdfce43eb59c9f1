-- ===== src/App.antt =====
-- packages/app/src: the application in which senders manage their shares.
pub mod Billing
pub mod Redirects
mod Tests
