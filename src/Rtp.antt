-- ===== src/Rtp.antt =====
-- src/modules/roc_rtp: RTP headers, the parser and the composer of RTP packets, and the validator of
-- a packet stream.
pub mod Headers
pub mod Formats
pub mod Parser
pub mod Composer
pub mod Validator
mod Tests
