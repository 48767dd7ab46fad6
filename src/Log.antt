-- ===== src/Log.antt =====
-- src/server/log.c
pub mod Digits
pub mod Numerals
pub mod Complement
pub mod Format
pub mod Hexadecimal
pub mod Decimal
pub mod Items
pub mod Conversions
pub mod Render
pub mod Bounds
pub mod Logger
pub mod Write
pub mod Buffer
pub mod Prefix
pub mod Line
pub mod Setup
pub mod Macros
pub mod Levels
pub mod Reopen
pub mod Start
