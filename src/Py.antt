-- ===== src/Py.antt =====
-- The part of Python that the modelled code computes with: JSON values, the exceptions that their
-- operations raise, and code that mutates an object and may raise.
pub mod Value
pub mod Result
pub mod Read
pub mod Text
pub mod Codes
pub mod Build
pub mod Action
pub mod Shape
pub mod Facts
pub mod Dict
