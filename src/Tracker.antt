-- ===== src/Tracker.antt =====
-- packages/tracker/src: the script in a document that measures how it is read.
pub mod Session
pub mod Sections
mod Tests
