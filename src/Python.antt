-- ===== src/Python.antt =====
-- What the program uses of Python's own values and text.
pub mod Value
pub mod Text
pub mod Order
pub mod Sorting
pub mod Dict
