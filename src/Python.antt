-- ===== src/Python.antt =====
-- What the Python code shares: exceptions as results, signed integers, values of unchecked type
-- (JSON documents), and dictionaries in insertion order.
mod Value
mod Dict
mod Errors
pub mod Counter
pub mod Sequence
pub use Value.*
pub use Dict.*
pub use Errors.*
