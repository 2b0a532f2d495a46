-- ===== src/Text.antt =====
-- Texts as lists of code points, and the regular expressions that the services check them with.
pub mod Codes
pub mod Regex
pub mod Derivative
