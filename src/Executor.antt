-- ===== src/Executor.antt =====
-- core/execute.py: the paper executor, a method each. A method is an `Action`: it reads and writes
-- the portfolio and ends in a value or an exception.
mod Calls
mod Fills
mod Methods
pub mod Outcome
pub mod Ledger
pub mod Funding
pub mod Slippage
pub mod RoundTrip
pub mod StopLoss
pub mod Invariant
unfoldable pub use Calls.*
unfoldable pub use Fills.*
unfoldable pub use Methods.*
