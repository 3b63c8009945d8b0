-- ===== src/Lib.antt =====
-- Roc streams audio over a network: a sender packs samples into RTP packets, adds packets for
-- forward erasure correction and interleaves them; a receiver parses the packets, sorts, delays and
-- validates them, restores lost ones and plays the samples.
--
-- The parts that are modelled, and how they are connected in the program:
--
--   Prelude (with Tests, Lists, Int and Bytes): the names that all other files share, Boolean tests
--     and lists over the native numbers, signed differences, big-endian fields.
--   Packet.Units, Packet.Types: src/modules/roc_packet/units.h, rtp.*, fec.* and packet.*. A packet
--     is a record with the fields of the source; Packet.Order gives the order of sequence numbers.
--   Packet.SortedQueue: sorted_queue.cpp, the queue in which a receiver keeps the packets of a
--     session. Packet.Reader: ireader.h as a record of operations and a law, with queue.cpp as its
--     instance. Packet.DelayedReader: delayed_reader.cpp, over any such reader.
--   Packet.Interleaver: interleaver.cpp, which a sender puts behind its FEC writer.
--   Packet.Router: router.cpp, which hands the packets of a port to the queues of a session.
--   Rtp.Headers, Rtp.Formats, Rtp.Parser, Rtp.Composer, Rtp.Validator: src/modules/roc_rtp. The
--     composer writes what the parser reads; the validator filters the packets of a reader.
--   Fec.Headers, Fec.Parser, Fec.Composer: src/modules/roc_fec/headers.h, parser.h and composer.h, the
--     payload ids of the three formats. Fec.WriterState, Fec.WriterRepair, Fec.Writer: writer.cpp,
--     which groups packets into blocks and adds repair packets; the encoder of iblock_encoder.h is a
--     record of operations. Fec.Writer.Repair says what the writer asks of its composers, and
--     Fec.Writer.Interface and Fec.Writer.Makes are about the FEC composer as one of them.
--   Fec.ReaderState, Fec.ReaderBlock, Fec.Reader: reader.cpp, which collects the packets of a block
--     and restores lost ones; the decoder of iblock_decoder.h is a record of
--     operations, and the parser of restored packets, the allocator and the pool are arguments.
--   Address.Pct: src/modules/roc_address/pct.cpp, the percent encoding of parts of a URI.
--   Audio.Watchdog: src/modules/roc_audio/watchdog.cpp, which ends a session without playback.
--   Audio.Depacketizer, Audio.PcmDecoder: depacketizer.cpp, which makes frames of samples from packets,
--     over the interface of iframe_decoder.h, and pcm_decoder.cpp as an instance of it.
--   Audio.Packetizer, Audio.PcmEncoder: packetizer.cpp, which makes packets from frames of samples, over
--     the interface of iframe_encoder.h, and pcm_encoder.cpp as an instance of it.
--   Audio.FreqEstimator, Audio.LatencyMonitor: freq_estimator.cpp and latency_monitor.cpp, which watch
--     the latency of a session and keep its scaling factor. Floating-point numbers, the filter, the
--     conversion of nanoseconds and the resampler are arguments.
--   Core.List: src/modules/roc_core/list.h and list_node.h, the intrusive list, with its nodes in one
--     store. Core.List.Links says when the nodes of a store make up a list.
--
-- An operation has the name that it has in the source. One that changes the object takes its state as
-- the last argument and returns the new one; `none` is a panic or an access out of bounds where the
-- file says so. An interface that a class holds a reference to (a reader, an inner parser or
-- composer) is an argument. Machine integers are natural numbers with their wrap-around written out.
--
-- Fuel: the loop of Interleaver.write gets one round more than the block has places, the loop that
-- fetches packets one more than the reader says are waiting, and both are proved to be enough. The
-- trimming loop of the delayed reader takes any fuel, and one round more than there are queued packets
-- is proved to be enough if the delay is not 0. The loops of the FEC reader that fetch packets, drop them
-- and fill a block get one round more than packets wait; the loop of get_next_packet takes any fuel, and
-- 65536 rounds for each waiting source packet and as many again are proved to be enough. The loop over a
-- frame of the depacketizer gets three rounds more than packets wait, and that of the packetizer one
-- more than the frame has samples for each channel; both are proved to be enough. The loop of the latency
-- monitor takes any fuel, and two rounds more than the time of the call are proved to be enough below
-- 2 ^ 32 less the interval of its updates.
--
-- Not modelled: conversions between nanoseconds and samples (floating point; the sample counts are
-- arguments), logging, reference counts and the sharing of buffers, UDP addresses, and the parts of
-- the program that are not named above: the FEC codecs, URIs, resampling, mixing, pipelines, sound and
-- network input and output.
pub mod Prelude
pub mod Address
pub mod Audio
pub mod Core
pub mod Fec
pub mod Packet
pub mod Rtp
