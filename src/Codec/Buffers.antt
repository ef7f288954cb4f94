-- ===== src/Codec/Buffers.antt =====
-- `folly::IOBufQueue` and `folly::io::Cursor`, which codec/RedisDecoder.cpp only calls, as a record of
-- operations. A queue is a chain of buffers and a cursor a position in it; the laws speak of the
-- bytes that they stand for, and only for calls that stay within the chain. Nothing is assumed of
-- how the bytes are spread over the buffers.
mod Chain
mod Record
pub mod Lists
unfoldable pub use Chain.{split_at}
pub use Chain.{Terminated, found, out_of_range, other_exception, split_at-append}
pub use Record.{Buffers}
