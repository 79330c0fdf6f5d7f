-- ===== src/Tests.antt =====
-- Concrete runs of the model, in decimal fixed point.
mod Data
mod Trading
mod Calls
mod Limits
mod Markets
mod Sizes
mod Entries
mod Watches
mod Steps
mod Answers
mod Audits
mod Forecasts
mod Dashboards
mod Fetches
mod Recorded
mod Feeds
mod Boards
mod Wallets
mod Pushes
