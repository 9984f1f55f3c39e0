-- ===== src/Base/Sort.antt =====
-- Sorting by a text key: the function, and its laws.
mod Defs
mod Laws
mod Filter
unfoldable pub use Defs.{insert, sort}
pub use Laws.*
pub use Filter.*
