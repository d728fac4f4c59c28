-- ===== src/JsMap.antt =====
-- JavaScript's `Map`, a built-in of the language that the caches, the registries and the in-memory
-- database of packages/api and packages/runtime are made of: a list of entries in insertion order.
mod Defs
pub mod Laws
pub mod Order
pub mod Values
unfoldable pub use Defs.*
