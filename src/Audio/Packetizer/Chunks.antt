-- ===== src/Audio/Packetizer/Chunks.antt =====
-- src/modules/roc_audio/packetizer.cpp: one round of the loop of Packetizer::write, which begins a packet
-- if there is none, writes samples to it, and ends it when it is full.
use native.Mathlib.Nat.{mul-le-mul_right}
use roc.Prelude.{
  ℕ, ◌+◌, ◌-◌, ◌*◌, ◌^◌, ◌%◌, ◌≤◌, ◌<◌, ◌≡◌, refl, sym, subst, inl, inr, true, Option, none, some,
  List, [], ◌∷◌, ◌++◌, arith, length, take, length-append, length-take, Bool-cases, ◌==◌,
  if◌then◌else◌, ◌>>=◌,
}
use roc.Packet.Units.{u16_mod, u32_mod, u64_mod}
use roc.Packet.Types.{Packet}
use roc.Audio.Packetizer.{Packetizer, end_packet, end_full, room, write_chunk}
use roc.Audio.Packetizer.Contract.{Setting}
use roc.Audio.Packetizer.State.{Common, IsResting, IsFilling, IsSent, Counts}
use roc.Audio.Packetizer.Ends.{Ends, ended, end_packet-Ends}

module _ {Sample : Type 0} (cfg : Setting Sample) where
  abbrev Pkt : Type 0
  Pkt = Packetizer cfg.encoder

  -- What a round writes: `n` samples for each channel are left of `xs`.
  pub data Chunk (zs xs : List Sample) (n seqnum timestamp : ℕ)
      : Option (ℕ × List Packet × Pkt) → Type 0 where
    partial :
        (k : ℕ) (v : Pkt)
        → 0 < k
        → k ≤ n
        → Common cfg v
        → IsFilling cfg (zs ++ take (k * cfg.num_channels) xs) v
        → v.packet_pos < cfg.samples_per_packet
        → Counts cfg seqnum timestamp v
        → Chunk zs xs n seqnum timestamp (some (k, [], v))
    whole :
        (k : ℕ) (p : Packet) (v : Pkt)
        → 0 < k
        → k ≤ n
        → IsSent cfg seqnum timestamp p (zs ++ take (k * cfg.num_channels) xs)
        → Common cfg v
        → IsResting cfg v
        → Counts cfg ((seqnum + 1) % u16_mod) ((timestamp + cfg.samples_per_packet) % u32_mod) v
        → Chunk zs xs n seqnum timestamp (some (k, p ∷ [], v))

module _ {Sample : Type 0} (cfg : Setting Sample) (fits : cfg.samples_per_packet < 2 ^ 32) where
  room_cases :
      (n : ℕ) (w : Pkt cfg)
      → Common cfg w
      → w.packet_pos < cfg.samples_per_packet
      → 0 < n
      → (0 < room cfg.encoder n w)
        × (room cfg.encoder n w ≤ n)
        × (w.packet_pos + room cfg.encoder n w ≤ cfg.samples_per_packet)
  unfolding room
  room_cases n w m l p =
      let k : (w.samples_per_packet + u64_mod - w.packet_pos) % u64_mod
          ≡ cfg.samples_per_packet - w.packet_pos =
        omega (arith, m.same_samples) in
      (ground arith, ground arith, ground arith)

  ended-Chunk :
      (zs xs : List Sample) (n k a t : ℕ)
      → 0 < k
      → k ≤ n
      → (o : Option (Packet × Pkt cfg)) → Ends cfg (zs ++ take (k * cfg.num_channels) xs) a t o
      → Chunk cfg zs xs n a t (o >>= λ a. some (k, a.0 ∷ [], a.1))
  ended-Chunk zs xs n k a t h l _ (ended p u s m y q) = whole k p u h l s m y q

  end_full-Chunk :
      (zs xs : List Sample) (n k : ℕ) (v : Pkt cfg)
      → 0 < k
      → k ≤ n
      → Common cfg v
      → IsFilling cfg (zs ++ take (k * cfg.num_channels) xs) v
      → v.packet_pos ≤ cfg.samples_per_packet
      → Chunk cfg zs xs n v.seqnum v.timestamp (end_full cfg.encoder cfg.composer k v)
  unfolding end_full
  end_full-Chunk zs xs n k v h l m y b = elim (Bool-cases (v.packet_pos == v.samples_per_packet)) [
    | inl t ↦
        let q : v.packet_pos ≡ cfg.samples_per_packet = ground (arith, m.same_samples) in
        rw (t) (
          ended-Chunk zs xs n k v.seqnum v.timestamp h l (end_packet cfg.encoder cfg.composer v)
            (end_packet-Ends cfg fits (zs ++ take (k * cfg.num_channels) xs) v m y q))
    | inr f ↦
        let q : v.packet_pos < cfg.samples_per_packet = ground (arith, m.same_samples) in
        rw (f) (partial k v h l m y q (refl, refl))
  ]

  fits_lem :
      (a k z : ℕ)
      → a + k ≤ cfg.samples_per_packet
      → a * cfg.num_channels ≡ z
      → z + k * cfg.num_channels ≤ cfg.samples_per_packet * cfg.num_channels
  fits_lem a k z h q =
      let t : (a + k) * cfg.num_channels ≤ cfg.samples_per_packet * cfg.num_channels =
        mul-le-mul_right cfg.num_channels h in
      omega (arith, t)

  pos_lem :
      (zs xs : List Sample) (a k : ℕ)
      → a * cfg.num_channels ≡ length zs
      → k * cfg.num_channels ≤ length xs
      → (a + k) * cfg.num_channels ≡ length (zs ++ take (k * cfg.num_channels) xs)
  pos_lem zs xs a k q h = omega (
    arith,
    length-append zs (take (k * cfg.num_channels) xs),
    length-take (k * cfg.num_channels) xs,
  )

  pub write_chunk-Chunk :
      (zs xs : List Sample) (n : ℕ) (w : Pkt cfg)
      → Common cfg w
      → IsFilling cfg zs w
      → w.packet_pos < cfg.samples_per_packet
      → 0 < n
      → n * cfg.num_channels ≡ length xs
      → Chunk cfg zs xs n w.seqnum w.timestamp (write_chunk cfg.encoder cfg.composer xs n w)
  unfolding write_chunk
  write_chunk-Chunk zs xs n w m y l p h =
      let (pos_room, le, in_packet) = room_cases n w m l p in
      let k = room cfg.encoder n w in
      let fit : length zs + k * cfg.num_channels ≤ cfg.samples_per_packet * cfg.num_channels =
        fits_lem w.packet_pos k (length zs) in_packet y.at_pos in
      let enough : k * cfg.num_channels ≤ length xs =
        (let t : k * cfg.num_channels ≤ n * cfg.num_channels =
            mul-le-mul_right cfg.num_channels le in
          omega (arith, t, h)) in
      let (s, f, hs) = cfg.contract.writes w.encoder zs xs k y.holds fit enough in
      let v : Pkt cfg = record w { encoder = s; packet_pos = w.packet_pos + k } in
      let mv : Common cfg v = m in
      let yv : IsFilling cfg (zs ++ take (k * cfg.num_channels) xs) v = record {
        begun = y.begun;
        parts = y.parts;
        has_packet = y.has_packet;
        is_rtp = y.is_rtp;
        no_padding = y.no_padding;
        same_seqnum = y.same_seqnum;
        same_timestamp = y.same_timestamp;
        holds = hs;
        at_pos = pos_lem zs xs w.packet_pos k y.at_pos enough;
      } in
      let same : (k == k) ≡ true = ground arith in
      let step : ℕ × cfg.encoder.State → Option (ℕ × List Packet × Pkt cfg) = λ a.
        if a.0 == k
        then end_full cfg.encoder cfg.composer a.0
            (record w { encoder = a.1; packet_pos = w.packet_pos + a.0 })
        else none in
      subst
        (λ j. Chunk cfg zs xs n w.seqnum w.timestamp (cfg.encoder.write xs k j w.encoder >>= step))
        (sym m.same_channels)
        (rw (f, same) (end_full-Chunk zs xs n k v pos_room le mv yv in_packet))
