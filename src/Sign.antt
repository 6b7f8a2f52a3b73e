-- ===== src/Sign.antt =====
-- Request signing with AWS Signature Version 4A (internal/sign).
pub mod Build
pub mod Canonical
pub mod Compare
pub mod Kdf
pub mod Encoding
pub mod Host
pub mod Keys
pub mod Request
pub mod Rules
pub mod Spaces
mod Tests
