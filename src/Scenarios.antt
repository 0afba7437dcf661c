-- ===== src/Scenarios.antt =====
-- The theorems at concrete inputs, with the runs of the code that they are about.
mod Data
mod RateLimit
mod Text
mod Zone
mod Signing
mod Keys
mod Nsec3
mod State
mod Rollover
mod Timing
mod Sign
