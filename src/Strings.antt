-- ===== src/Strings.antt =====
-- Go strings as lists of bytes, and the functions of the package `strings` that the source calls.
mod Defs
mod Laws
pub use Defs.{Text, codes}
unfoldable pub use Defs.{text_eq, is_empty, strip_prefix, has_prefix, strip_suffix, cut, cut_last}
pub use Laws.*
