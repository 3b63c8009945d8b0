-- ===== src/Audio.antt =====
-- src/modules/roc_audio: the parts of the audio pipeline that keep track of frames and packets.
pub mod Watchdog
pub mod Depacketizer
pub mod PcmDecoder
pub mod Packetizer
pub mod PcmEncoder
pub mod FreqEstimator
pub mod LatencyMonitor
mod Tests
mod DepacketizerTests
mod PacketizerTests
mod LatencyTests
