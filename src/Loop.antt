-- ===== src/Loop.antt =====
-- cli/run.py: the steps of the trading loop.
pub mod Bars
pub mod Decisions
pub mod Admitted
pub mod Limits
pub mod Entry
pub mod Watch
pub mod Kept
pub mod Agent
pub mod Sound
pub mod Resolved
pub mod Carried
pub mod Stepped
pub mod Delivery
pub mod Scoring
pub mod Step
