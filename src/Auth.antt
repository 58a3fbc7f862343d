-- ===== src/Auth.antt =====
-- The proof-of-work authentication service (auth/): configuration, puzzles, tokens and handlers.
pub mod Config
pub mod Puzzle
pub mod Jwt
pub mod Handlers
pub mod Metrics
pub mod Server
pub mod Client
pub mod Benchmark
