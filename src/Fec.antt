-- ===== src/Fec.antt =====
-- src/modules/roc_fec: payload ids, the parser and the composer of FEC packets, the writer that
-- groups packets into blocks, and the reader that restores lost ones.
pub mod Headers
pub mod Parser
pub mod Composer
pub mod WriterState
pub mod WriterRepair
pub mod Writer
pub mod ReaderState
pub mod ReaderBlock
pub mod Reader
mod Tests
mod ReaderTests
