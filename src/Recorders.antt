-- ===== src/Recorders.antt =====
-- cli/run.py: the loop with the recorders of audits, anchors and dashboard rows that `main` gives it.
pub mod Texts
pub mod Books
pub mod Entry
pub mod Exit
pub mod Callback
pub mod Decide
pub mod Step
pub mod Same
pub mod SameRun
pub mod Links
pub mod Seed
pub mod Told
pub mod Linked
pub mod LinkedTurn
pub mod Logged
pub mod LinkedRun
pub mod Trigger
pub mod Published
