-- ===== src/Audio/DepacketizerTests.antt =====
-- Tests of the depacketizer and the PCM decoder of src/modules/roc_audio, and the theorem at a concrete
-- input.
use roc.Prelude.{
  ℕ, ◌*◌, ◌≡◌, refl, subst, inl, true, false, Option, none, some, List, [], ◌∷◌, arith, All, take,
  drop, length-take, length-drop,
}
use roc.Packet.Types.{Packet, rtp, rtp_init, packet_init, flag_rtp}
use roc.Packet.Units.{timestamp_lt, timestamp_diff}
use roc.Packet.Reader.{Gives, Queue, queue_reader}
use roc.Audio.Depacketizer
use roc.Audio.Depacketizer.{
  Inputs, Depacketizer, plays, fetch_packet, catch_up, update_packet, read_missing_samples,
  read_packet_samples, read_behind, read_present, read_samples, read_loop, read_frame,
}
use roc.Audio.Depacketizer.Contract.{IsAudio, Setting}
use roc.Audio.Depacketizer.Flags.{Told, read-Told}
use roc.Audio.Watchdog.{Frame}
use roc.Audio.PcmDecoder
use roc.Audio.PcmDecoder.{PcmFuncs, PcmDecoder, pcm_decoder, pcm_contract, Decodes, HasSome}

-- One byte is a sample, for one channel.
abbrev funcs : PcmFuncs ℕ
funcs = record {
  samples_from_payload_size = λ n. n;
  decode_samples = λ b p n channels. (n, take n (drop p b));
}

funcs_decode : Decodes funcs 1 1
funcs_decode b p n h = (refl, omega (arith, length-take n (drop p b), length-drop p b, h))

abbrev audio : ℕ → List ℕ → Packet
audio ts b = record packet_init {
  flags = flag_rtp;
  rtp_part = record rtp_init { timestamp = ts; payload = some b };
}

abbrev audio_packets : Queue
audio_packets = audio 100 (7 ∷ 8 ∷ 9 ∷ []) ∷ audio 105 (1 ∷ 2 ∷ []) ∷ []

abbrev beep_at : ℕ → ℕ
beep_at n = n

abbrev inputs : Inputs ℕ
inputs = record {
  silence = 0;
  beep_at = beep_at;
  decoder = pcm_decoder funcs;
  reader = queue_reader;
}

abbrev idle : Depacketizer inputs
idle = record {
  reader = audio_packets;
  decoder = record { stream_pos = 0; stream_avail = 0; frame_data = none; frame_pos = 0 };
  channels = 1;
  num_channels = 1;
  packet = none;
  timestamp = 0;
  zero_samples = 0;
  missing_samples = 0;
  packet_samples = 0;
  first_packet = true;
  beep = false;
  dropped_packets = 0;
}

abbrev samples_of : Option (List ℕ × Depacketizer inputs) → List ℕ
samples_of none = []
samples_of (some (xs, _)) = xs

-- The gap between the packets is filled with zeros, and the frame ends inside the second one.
read_runs : samples_of (read_frame inputs 6 idle) ≡ 7 ∷ 8 ∷ 9 ∷ 0 ∷ 0 ∷ 1 ∷ []
unfolding read_frame read_loop read_samples read_present read_behind read_packet_samples
    read_missing_samples update_packet catch_up fetch_packet plays timestamp_lt timestamp_diff rtp
    PcmDecoder.begin PcmDecoder.read PcmDecoder.shift PcmDecoder.finish
read_runs = refl

module _ (P : Packet → Type 0) where
  queue_gives : (q : Queue) (p : Packet) → All P q → (queue_reader.read q).0 ≡ some p → P p
  queue_gives [] p h e = absurd (cc)
  queue_gives (x ∷ q) p h e = let f : x ≡ p = cc in subst P f h.0

  queue_keeps : (q : Queue) → All P q → All P (queue_reader.read q).1
  queue_keeps [] h = tt
  queue_keeps (x ∷ q) h = h.1

  abbrev queue_Gives : Gives queue_reader P
  queue_Gives = record { Holds = All P; gives = queue_gives; keeps = queue_keeps }

audio_packets-IsAudio : All (IsAudio (HasSome funcs)) audio_packets
unfolding rtp
audio_packets-IsAudio = (
  (
    record rtp_init { timestamp = 100; payload = some (7 ∷ 8 ∷ 9 ∷ []) },
    7 ∷ 8 ∷ 9 ∷ [],
    refl,
    refl,
    omega arith,
    (omega arith, omega arith),
  ),
  (
    (
      record rtp_init { timestamp = 105; payload = some (1 ∷ 2 ∷ []) },
      1 ∷ 2 ∷ [],
      refl,
      refl,
      omega arith,
      (omega arith, omega arith),
    ),
    tt,
  ),
)

abbrev setting : Setting inputs
setting = record {
  channels = 1;
  num_channels = 1;
  contract = pcm_contract funcs 1 1 funcs_decode;
  gives = queue_Gives (IsAudio (HasSome funcs));
}

abbrev Reads : ℕ → Type 0
Reads n =
    (f : Frame ℕ) × (v : Depacketizer inputs) × (Depacketizer.read inputs (n * 1) idle
      ≡ some (f, v))
    × Told setting n idle f v

read-Told_example : Reads 6
read-Told_example =
    read-Told setting (omega arith) (omega arith) 6 idle
      (
        record {
          same_channels = refl;
          same_num = refl;
          timestamp_fits = omega arith;
          holds = audio_packets-IsAudio;
        },
        inl (record { no_packet = refl; is_idle = (refl, refl) }),
      )
      (omega arith) (omega arith)
