-- ===== src/RingBuffer.antt =====
-- pkg/ringbuffer/ringbuffer.go: one module for each group of methods, and one for each group of laws.
-- An operation on `*r` returns the ring buffer that it leaves; `none` is a panic (a slice or an
-- index out of range, or a capacity that `CeilToPowerOfTwo` refuses). Bytes are only moved, never
-- computed with, so a byte is any number.
pub mod Ceil
pub mod Defs
pub mod Reading
pub mod Writing
pub mod Export
pub mod Inv
pub mod Peek
pub mod Advance
pub mod Consume
pub mod Read
pub mod Place
pub mod Grow
pub mod Append
pub mod Fresh
pub mod Queue
pub mod Abstraction
pub mod Examples
