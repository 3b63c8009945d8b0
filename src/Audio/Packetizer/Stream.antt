-- ===== src/Audio/Packetizer/Stream.antt =====
-- src/modules/roc_audio/packetizer.cpp: Packetizer::write as a whole, which cuts a stream of samples into
-- packets.
use native.Mathlib.Nat.{zero-mul, mul-div_cancel, mul-mod_left}
use roc.Prelude.{
  ℕ, zero, suc, ◌+◌, ◌-◌, ◌*◌, ◌/◌, ◌^◌, ◌%◌, ◌≤◌, ◌<◌, ◌≡◌, refl, sym, ap, subst, ◌∙◌, ◌⊎◌, inl,
  inr, Bool, true, false, Option, none, some, List, [], ◌∷◌, ◌++◌, append_assoc, arith, length,
  take, drop, length-drop, take-append-drop, ◌==◌, ◌>>=◌, Bool-cases, not,
}
use roc.Packet.Units.{u16_mod, u32_mod}
use roc.Packet.Types.{Packet}
use roc.Audio.Packetizer.{Packetizer, create_packet, with_packet, write_chunk, write_loop, write}
use roc.Audio.Packetizer.Contract.{Setting}
use roc.Audio.Packetizer.State.{IsSent, IsValid}
use roc.Audio.Packetizer.Begins.{Begins, refused, begun, with_packet-Begins}
use roc.Audio.Packetizer.Chunks.{Chunk, partial, whole, write_chunk-Chunk}

module _ {Sample : Type 0} (cfg : Setting Sample) where
  abbrev Pkt : Type 0
  Pkt = Packetizer cfg.encoder

  -- The packets are full, follow each other in number and timestamp, from those of `w` to those of `v`,
  -- and encode the samples `zs` in their order.
  abbrev Sent : ℕ → ℕ → ℕ → ℕ → List Packet → List Sample → Type 0
  Sent a t a' t' [] zs = (zs ≡ []) × (a' ≡ a) × (t' ≡ t)
  Sent a t a' t' (p ∷ ps) zs =
      (cs : List Sample) × (ys : List Sample) × (zs ≡ cs ++ ys)
      × IsSent cfg a t p cs
      × Sent ((a + 1) % u16_mod) ((t + cfg.samples_per_packet) % u32_mod) a' t' ps ys

  -- A packet could not be created.
  abbrev Fails : Type 0
  Fails = (i : ℕ) × (create_packet cfg.composer (cfg.pool i) cfg.payload_size ≡ some none)

  -- The samples `zs` that were held and those written are sent, held, or lost, in this order, and they
  -- are lost only if a packet could not be created.
  pub data Packs (zs xs : List Sample) (seqnum timestamp : ℕ)
      : Option (List Packet × Pkt) → Type 0 where
    writes :
        (ps : List Packet) (v : Pkt) (sent held lost : List Sample)
        → Sent seqnum timestamp v.seqnum v.timestamp ps sent
        → IsValid cfg held v
        → zs ++ xs ≡ sent ++ (held ++ lost)
        → (lost ≡ []) ⊎ Fails
        → Packs zs xs seqnum timestamp (some (ps, v))

  nil_lem : (xs : List Sample) → length xs ≡ 0 → xs ≡ []
  nil_lem [] h = refl
  nil_lem (x ∷ xs) h = absurd (omega arith)

  split_lem : (zs xs : List Sample) (m : ℕ) → zs ++ xs ≡ (zs ++ take m xs) ++ drop m xs
  split_lem zs xs m =
      ap (λ l. zs ++ l) (sym (take-append-drop m xs))
      ∙ sym (append_assoc zs (take m xs) (drop m xs))

  later :
      (zs xs : List Sample) (m a t : ℕ)
      → (o : Option (List Packet × Pkt)) → Packs (zs ++ take m xs) (drop m xs) a t o
      → Packs zs xs a t (o >>= λ b. some ([] ++ b.0, b.1))
  later zs xs m a t _ (writes ps v sent held lost s y q r) =
      writes ps v sent held lost s y (split_lem zs xs m ∙ q) r

  after :
      (zs xs : List Sample) (m a t : ℕ) (p : Packet)
      → IsSent cfg a t p (zs ++ take m xs)
      → (o : Option (List Packet × Pkt))
      → Packs [] (drop m xs) ((a + 1) % u16_mod) ((t + cfg.samples_per_packet) % u32_mod) o
      → Packs zs xs a t (o >>= λ b. some ((p ∷ []) ++ b.0, b.1))
  after zs xs m a t p h _ (writes ps v sent held lost s y q r) =
      writes (p ∷ ps) v ((zs ++ take m xs) ++ sent) held lost (zs ++ take m xs, sent, refl, h, s) y
        (split_lem zs xs m
          ∙ (ap (λ l. (zs ++ take m xs) ++ l) q
              ∙ sym (append_assoc (zs ++ take m xs) sent (held ++ lost))))
        r

  left_lem :
      (k n : ℕ) (xs : List Sample)
      → k ≤ n
      → n * cfg.num_channels ≡ length xs
      → (n - k) * cfg.num_channels ≡ length (drop (k * cfg.num_channels) xs)
  left_lem k n xs h q =
      let t : (n - k + k) * cfg.num_channels ≡ n * cfg.num_channels =
        ap (λ j. j * cfg.num_channels) (let j : n - k + k ≡ n = omega arith in j) in
      omega (arith, t, length-drop (k * cfg.num_channels) xs)

  -- The loop keeps its promise on less fuel.
  abbrev Loops : ℕ → Type 0
  Loops fuel =
      (n : ℕ) (zs xs : List Sample) (w : Pkt)
      → n < fuel
      → IsValid cfg zs w
      → n * cfg.num_channels ≡ length xs
      → Packs zs xs w.seqnum w.timestamp (write_loop cfg.encoder cfg.pool cfg.composer fuel xs n w)

  counted :
      (zs xs : List Sample) (o : Option (List Packet × Pkt)) (a t b u : ℕ)
      → (a ≡ b) × (t ≡ u)
      → Packs zs xs a t o
      → Packs zs xs b u o
  counted zs xs o a t b u (p, q) h =
      subst (λ j. Packs zs xs j u o) p (subst (λ j. Packs zs xs a j o) q h)

  -- The rest of the loop behind a round.
  abbrev rest_of : ℕ → List Sample → ℕ → ℕ → ℕ × List Packet × Pkt → Option (List Packet × Pkt)
  rest_of fuel xs n nc a =
      (write_loop cfg.encoder cfg.pool cfg.composer fuel (drop (a.0 * nc) xs) (n - a.0) a.2)
      >>= λ b. some (a.1 ++ b.0, b.1)

  chunk_then :
      (fuel n : ℕ) (zs xs : List Sample) (a t : ℕ)
      → Loops fuel
      → n ≤ fuel
      → 0 < cfg.samples_per_packet
      → n * cfg.num_channels ≡ length xs
      → (o : Option (ℕ × List Packet × Pkt)) → Chunk cfg zs xs n a t o
      → Packs zs xs a t (o >>= rest_of fuel xs n cfg.num_channels)
  chunk_then fuel n zs xs a t ih f z h _ (partial k v p l m y b q) =
      let m' = k * cfg.num_channels in
      let o = write_loop cfg.encoder cfg.pool cfg.composer fuel (drop m' xs) (n - k) v in
      later zs xs m' a t o (
        counted (zs ++ take m' xs) (drop m' xs) o v.seqnum v.timestamp a t q (
          ih (n - k) (zs ++ take m' xs) (drop m' xs) v (omega arith) (m, b, inr y)
            (left_lem k n xs l h)))
  chunk_then fuel n zs xs a t ih f z h _ (whole k p v g l s m y q) =
      let m' = k * cfg.num_channels in
      let o = write_loop cfg.encoder cfg.pool cfg.composer fuel (drop m' xs) (n - k) v in
      let b : v.packet_pos < cfg.samples_per_packet = omega (arith, y.at_start) in
      after zs xs m' a t p s o (
        counted [] (drop m' xs) o v.seqnum v.timestamp ((a + 1) % u16_mod)
          ((t + cfg.samples_per_packet) % u32_mod) q
          (ih (n - k) [] (drop m' xs) v (omega arith) (m, b, inl (y, refl)) (left_lem k n xs l h)))

module _ {Sample : Type 0} (cfg : Setting Sample) (fits : cfg.samples_per_packet < 2 ^ 32) where
  abbrev round_of : ℕ → List Sample → ℕ → ℕ → Bool × Pkt cfg → Option (List Packet × Pkt cfg)
  round_of fuel xs n nc v = elim v.0 [
    | false ↦ some ([], v.1)
    | true ↦ (write_chunk cfg.encoder cfg.composer xs n v.1) >>= rest_of cfg fuel xs n nc
  ]

  begin_then :
      (fuel n : ℕ) (zs xs : List Sample) (w : Pkt cfg)
      → Loops cfg fuel
      → n ≤ fuel
      → 0 < n
      → w.packet_pos < cfg.samples_per_packet
      → n * cfg.num_channels ≡ length xs
      → (o : Option (Bool × Pkt cfg)) → Begins cfg zs w o
      → Packs cfg zs xs w.seqnum w.timestamp (o >>= round_of fuel xs n cfg.num_channels)
  begin_then fuel n zs xs w ih f p b h _ (refused i v q m y cs z) =
      let l : v.packet_pos < cfg.samples_per_packet = omega (arith, y.at_start) in
      writes [] v [] [] xs (refl, cs.0, cs.1) (m, l, inl (y, refl)) (ap (λ k. k ++ xs) z)
        (inr (i, q))
  begin_then fuel n zs xs w ih f p b h _ (begun v m y q cs) =
      let l : v.packet_pos < cfg.samples_per_packet = omega arith in
      let o = write_chunk cfg.encoder cfg.composer xs n v in
      counted cfg zs xs (o >>= rest_of cfg fuel xs n cfg.num_channels) v.seqnum v.timestamp w.seqnum
        w.timestamp cs
        (chunk_then cfg fuel n zs xs v.seqnum v.timestamp ih f (omega arith) h o
          (write_chunk-Chunk cfg fits zs xs n v m y l p h))

  pub loop_lem : (fuel : ℕ) → Loops cfg fuel
  unfolding write_loop
  loop_lem zero n zs xs w f x h = absurd (omega arith)
  loop_lem (suc fuel) n zs xs w f (m, b, y) h = elim (Bool-cases (n == 0)) [
    | inl t ↦
        let z : length xs ≡ 0 =
          sym h
          ∙ (ap (λ k. k * cfg.num_channels) (let q : n ≡ 0 = ground arith in q)
              ∙ zero-mul cfg.num_channels) in
        rw (write_loop, t)
          (writes [] w [] zs [] (refl, refl, refl) (m, b, y) (ap (λ l. zs ++ l) (nil_lem cfg xs z))
            (inl refl))
    | inr t ↦
        let p : 0 < n = ground arith in
        rw (write_loop, t)
          (subst
            (λ j.
              Packs cfg zs xs w.seqnum w.timestamp
                (with_packet cfg.encoder cfg.pool cfg.composer w.packet w >>= round_of fuel xs n j))
            (sym m.same_num)
            (begin_then fuel n zs xs w (loop_lem fuel) (omega arith) p b h
              (with_packet cfg.encoder cfg.pool cfg.composer w.packet w)
              (with_packet-Begins cfg zs w m y)))
  ]

  -- A valid packetizer that holds the samples `zs`, over an encoder by its contract and a composer that
  -- prepares packets, writes a frame of a whole number of samples for each channel without a panic and
  -- within the rounds given: the packets that it sends are full, follow each other in sequence number and
  -- timestamp, and their payloads encode, in order, the samples that were held and then those of the
  -- frame; what is not sent is held in the packet that is begun, and samples are lost only if a packet
  -- could not be created. The packetizer stays valid and counts on from the last packet.
  pub write-Packs :
      (n : ℕ) (zs xs : List Sample) (w : Pkt cfg)
      → IsValid cfg zs w
      → 0 < cfg.num_channels
      → n * cfg.num_channels ≡ length xs
      → Packs cfg zs xs w.seqnum w.timestamp (write cfg.encoder cfg.pool cfg.composer xs w)
  unfolding write
  write-Packs n zs xs w (m, b, y) p h =
      let d : length xs / w.num_channels ≡ n =
        ap (λ k. length xs / k) m.same_num
        ∙ (ap (λ l. l / cfg.num_channels) (sym h) ∙ mul-div_cancel n p) in
      let r : length xs % w.num_channels ≡ 0 =
        ap (λ k. length xs % k) m.same_num
        ∙ (ap (λ l. l % cfg.num_channels) (sym h) ∙ mul-mod_left n cfg.num_channels) in
      let z : (w.num_channels == 0) ≡ false = ground (arith, m.same_num) in
      let t : not (length xs % w.num_channels == 0) ≡ false = ground arith in
      rw (z, t, d) (loop_lem (suc n) n zs xs w (omega arith) (m, b, y) h)
