-- ===== src/Contracts.antt =====
-- core/contracts.py: the data classes that the engine's components pass to one another.
mod Market
mod Plan
mod Account
mod Agent
pub mod Json
pub use Market.*
pub use Plan.*
unfoldable pub use Account.*
unfoldable pub use Agent.*
