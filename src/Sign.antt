-- ===== src/Sign.antt =====
-- The parts of signer/internal/signer/sign.go that decide: serial numbers, and what a signing
-- records.
pub mod Serial
pub mod Window
pub mod Record
pub mod Needs
pub mod Keys
pub mod Rrsets
