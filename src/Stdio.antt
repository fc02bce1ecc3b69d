-- ===== src/Stdio.antt =====
-- What the program uses of the C library's stdio: the conversions of printf and scanf.
pub mod Decimal
pub mod Format
pub mod Scan
