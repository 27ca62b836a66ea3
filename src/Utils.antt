-- ===== src/Utils.antt =====
-- crates/js-x-ray/src/utils/.
pub mod Hex
pub mod Location
pub mod Patterns
pub mod Segments
pub mod OneLine
pub mod SafeRegex
pub mod Base64
pub mod Minified
pub mod Svg
