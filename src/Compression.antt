-- ===== src/Compression.antt =====
-- src/datasluice/data/compression.py: a reader with lookahead, and the choice of a decompressor by
-- the bytes that it looks at. A byte is a number; `S` is the type of a source's states.
pub mod Peekable
pub mod Bounded
pub mod Slices
pub mod Lookahead
pub mod Calls
pub mod Limits
pub mod Select
pub mod Choices
pub mod Tests
