-- ===== src/Audio/PacketizerTests.antt =====
-- Tests of the packetizer and the PCM encoder of src/modules/roc_audio, and the theorem at a concrete
-- input.
use roc.Prelude.{
  ℕ, ◌+◌, ◌*◌, ◌≤◌, ◌≡◌, refl, sym, ap, ◌∙◌, inl, inr, Option, none, some, List, [], ◌∷◌, ◌++◌,
  arith, length, take, drop, replicate, length-drop, take-append, length-append, length-take, range,
  map, ◌>>=◌,
}
use roc.Packet.Types.{Packet, Slice, packet_init, rtp_init, add_flags, set_data, rtp}
use roc.Rtp.Composer.{Buffer, prepare, prepare_payload, pad, pad_rtp, slice_range}
use roc.Audio.Packetizer
use roc.Audio.Packetizer.{
  Packetizer, create_packet, begin_created, begin_packet, end_packet, end_full, room, write_chunk,
  pad_packet, write_loop,
}
use roc.Audio.Packetizer.Contract.{Contract, Setting}
use roc.Audio.Packetizer.Composer.{rtp_composer, rtp_composer-Prepares, rtp_composer-Pads}
use roc.Audio.Packetizer.Flush.{Flushes, flush-Flushes}
use roc.Audio.Packetizer.Stream.{Packs, write-Packs}
use roc.Audio.PcmEncoder
use roc.Audio.PcmEncoder.{EncoderFuncs, PcmEncoder, pcm_encoder}

-- One byte is a sample, for one channel.
abbrev encoder_funcs : EncoderFuncs ℕ
encoder_funcs = record {
  payload_size_from_samples = λ n. n;
  encode_samples = λ b p xs n channels. (n, (take p b ++ take n xs) ++ drop (p + n) b);
}

abbrev Starts : List ℕ → List ℕ → Type 0
Starts zs b = take (length zs) b ≡ zs

abbrev HasFrame : List ℕ → PcmEncoder → Type 0
HasFrame zs s =
    (b : List ℕ) × (s.frame_data ≡ some b)
    × (s.frame_pos ≡ length zs)
    × Starts zs b
    × (length b ≡ 2)

abbrev NoFrame : PcmEncoder → Type 0
NoFrame s = (s.frame_data ≡ none) × (s.frame_pos ≡ 0)

begin_frame :
    (s : PcmEncoder) (b : List ℕ)
    → NoFrame s
    → length b ≡ 2
    → (t : PcmEncoder) × (PcmEncoder.begin encoder_funcs (some b) s ≡ some t) × HasFrame [] t
unfolding PcmEncoder.begin
begin_frame s b (e, z) h =
    rw (e, PcmEncoder.begin) (record s { frame_data = some b }, refl, (b, refl, z, refl, h))

end_frame :
    (s : PcmEncoder) (zs : List ℕ)
    → HasFrame zs s
    → (t : PcmEncoder) × (b : List ℕ) × (PcmEncoder.finish encoder_funcs s ≡ some (some b, t))
      × Starts zs b
      × (length b ≡ 2)
      × NoFrame t
unfolding PcmEncoder.finish
end_frame s zs (b, e, p, q, h) =
    let t : PcmEncoder = record { frame_data = none; frame_pos = 0 } in
    let step : List ℕ → Option (Slice × PcmEncoder) = λ a. some (some a, t) in
    (t, b, ap (λ o. o >>= step) e, q, h, (refl, refl))

write_frame :
    (s : PcmEncoder) (zs xs : List ℕ) (n : ℕ)
    → HasFrame zs s
    → length zs + n * 1 ≤ 2 * 1
    → n * 1 ≤ length xs
    → (t : PcmEncoder) × (PcmEncoder.write encoder_funcs xs n 1 s ≡ some (n, t))
      × HasFrame (zs ++ take (n * 1) xs) t
unfolding PcmEncoder.write
write_frame s zs xs n (b, e, p, q, k) h l =
    let new = zs ++ take (n * 1) xs in
    let rest = drop (s.frame_pos + n) b in
    let m : n ≡ n * 1 = omega arith in
    let grown : take s.frame_pos b ++ take n xs ≡ new =
      ap (λ k. take k b ++ take n xs) p
      ∙ (ap (λ z. z ++ take n xs) q ∙ ap (λ k. zs ++ take k xs) m) in
    let step : List ℕ → Option (ℕ × PcmEncoder) = λ a. some (
      n,
      record {
        frame_data = some ((take s.frame_pos a ++ take n xs) ++ drop (s.frame_pos + n) a);
        frame_pos = s.frame_pos + n;
      },
    ) in
    let size : length new ≡ s.frame_pos + n =
      omega (arith, p, length-append zs (take (n * 1) xs), length-take (n * 1) xs, l) in
    (
      record {
        frame_data = some ((take s.frame_pos b ++ take n xs) ++ rest);
        frame_pos = s.frame_pos + n;
      },
      ap (λ o. o >>= step) e,
      (
        (take s.frame_pos b ++ take n xs) ++ rest,
        refl,
        sym size,
        ap (λ z. take (length new) (z ++ rest)) grown ∙ take-append new rest,
        ap (λ z. length (z ++ rest)) grown
            ∙ omega (arith, size, p, k, h, length-append new rest, length-drop (s.frame_pos + n) b),
      ),
    )

abbrev contract : Contract (pcm_encoder encoder_funcs) 1 1 2 2
contract = record {
  Idle = NoFrame;
  Holds = HasFrame;
  Encodes = Starts;
  begins = begin_frame;
  writes = write_frame;
  ends = end_frame;
  sizes = λ n h. h;
}

abbrev buffers : ℕ → Option Buffer
buffers i = some (record { address = 0; bytes = replicate 14 0; size = 0 })

abbrev empty : Packetizer (pcm_encoder encoder_funcs)
empty = record {
  encoder = record { frame_data = none; frame_pos = 0 };
  allocated = 0;
  channels = 1;
  num_channels = 1;
  samples_per_packet = 2;
  payload_type = 10;
  payload_size = 2;
  packet = none;
  packet_pos = 0;
  source = 7;
  seqnum = 65535;
  timestamp = 100;
}

abbrev setting : Setting ℕ
setting = record {
  encoder = pcm_encoder encoder_funcs;
  pool = buffers;
  composer = rtp_composer;
  channels = 1;
  num_channels = 1;
  samples_per_packet = 2;
  payload_size = 2;
  contract = contract;
  prepares = rtp_composer-Prepares 2;
}

abbrev payloads : Option (List Packet × Packetizer (pcm_encoder encoder_funcs)) → List Slice
payloads none = []
payloads (some (ps, _)) = map (λ p. p.rtp_part.payload) ps

-- Five samples make two packets, and the last one waits.
write_runs :
    payloads (
      Packetizer.write
        (pcm_encoder encoder_funcs)
        buffers
        rtp_composer
        (1 ∷ 2 ∷ 3 ∷ 4 ∷ 5 ∷ [])
        empty)
    ≡ some (1 ∷ 2 ∷ []) ∷ some (3 ∷ 4 ∷ []) ∷ []
unfolding Packetizer.write write_loop write_chunk room end_full end_packet begin_packet
    begin_created create_packet add_flags set_data rtp PcmEncoder.begin PcmEncoder.write
    PcmEncoder.finish prepare prepare_payload
write_runs = refl

write-Packs_example : Packs setting [] (1 ∷ 2 ∷ 3 ∷ 4 ∷ 5 ∷ []) 65535 100 (
    Packetizer.write
      (pcm_encoder encoder_funcs)
      buffers
      rtp_composer
      (1 ∷ 2 ∷ 3 ∷ 4 ∷ 5 ∷ [])
      empty)
write-Packs_example =
    write-Packs setting (omega arith) 5 [] (1 ∷ 2 ∷ 3 ∷ 4 ∷ 5 ∷ []) empty
      (
        record { same_channels = refl; same_num = refl; same_samples = refl; same_size = refl },
        omega arith,
        inl (record { no_packet = refl; is_idle = (refl, refl); at_start = refl }, refl),
      )
      (omega arith) refl

-- One sample is held.
abbrev started : Packetizer (pcm_encoder encoder_funcs)
started = record empty {
  encoder = record { frame_data = some (9 ∷ 0 ∷ []); frame_pos = 1 };
  packet = some (record packet_init {
    flags = 10;
    rtp_part = record rtp_init { seqnum = 65535; timestamp = 100; payload = some (0 ∷ 0 ∷ []) };
  });
  packet_pos = 1;
}

-- It is sent in a payload of its size.
flush_runs :
    payloads (Packetizer.flush (pcm_encoder encoder_funcs) rtp_composer started)
    ≡ some (9 ∷ []) ∷ []
unfolding Packetizer.flush end_packet pad_packet pad pad_rtp slice_range range rtp PcmEncoder.finish
flush_runs = refl

flush-Flushes_example :
    Flushes setting
      (9 ∷ [])
      started
      (Packetizer.flush (pcm_encoder encoder_funcs) rtp_composer started)
unfolding rtp
flush-Flushes_example = flush-Flushes setting rtp_composer-Pads (omega arith) (9 ∷ []) started (
  record { same_channels = refl; same_num = refl; same_samples = refl; same_size = refl },
  omega arith,
  inr (record {
    begun = record packet_init {
      flags = 10;
      rtp_part = record rtp_init { seqnum = 65535; timestamp = 100; payload = some (0 ∷ 0 ∷ []) };
    };
    parts = record rtp_init { seqnum = 65535; timestamp = 100; payload = some (0 ∷ 0 ∷ []) };
    has_packet = refl;
    is_rtp = refl;
    no_padding = refl;
    same_seqnum = refl;
    same_timestamp = refl;
    holds = (9 ∷ 0 ∷ [], refl, refl, refl, refl);
    at_pos = refl;
  }),
)
