-- ===== src/Tests.antt =====
-- Concrete runs of the modelled code, at which the general theorems apply.
mod Benchmarks
mod Earning
mod Entries
mod Fetchers
mod Histories
mod Keys
mod Levels
mod Limits
mod Lives
mod Metrics
mod Puzzles
mod Requests
mod Schedules
mod Servers
mod Sessions
mod Tokens
