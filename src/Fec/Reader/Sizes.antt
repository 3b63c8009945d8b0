-- ===== src/Fec/Reader/Sizes.antt =====
-- How the blocks of a FEC reader take the sizes that packets bring.
use roc.Prelude.{
  ℕ, ◌+◌, ◌≤◌, ◌<◌, ◌≡◌, refl, ◌⊎◌, inl, inr, Bool, true, false, ◌==◌, ltb, ap, arith, length,
  Bool-cases,
}
use roc.Packet.Types.{Fec, slice_size}
use roc.Fec.WriterState.{slots}
use roc.Fec.ReaderState.{
  BlockDecoder, Reader, and_then, validate_incoming_source_packet, validate_incoming_repair_packet,
  can_update_payload_size, update_payload_size, can_update_source_block_size,
  update_source_block_size, can_update_repair_block_size, process_source_packet,
  prepare_repair_packet,
}

source_positive : (c : Fec) → validate_incoming_source_packet c ≡ true → 0 < c.source_block_length
unfolding validate_incoming_source_packet
source_positive c h = ground arith

pub repair_positive :
    (c : Fec) → validate_incoming_repair_packet c ≡ true → 0 < c.source_block_length
unfolding validate_incoming_repair_packet
repair_positive c h = ground arith

pub source_in_range :
    (c : Fec)
    → validate_incoming_source_packet c ≡ true
    → c.encoding_symbol_id < c.source_block_length
unfolding validate_incoming_source_packet
source_in_range c h = ground arith

-- A repair packet that names the size of its block lies in that block, behind the source packets.
pub repair_in_range :
    (c : Fec)
    → validate_incoming_repair_packet c ≡ true
    → 0 < c.block_length
    → (c.source_block_length ≤ c.encoding_symbol_id) × (c.encoding_symbol_id < c.block_length)
unfolding validate_incoming_repair_packet
repair_in_range c h p = ground arith

module _ (d : BlockDecoder) where
  -- The block has the payload size `n`, or may still take it.
  abbrev pub TakesPayload : ℕ → Reader d → Type 0
  TakesPayload n r = (r.payload_size ≡ n) ⊎ (r.payload_resized ≡ false)

  abbrev pub with_payload : ℕ → Reader d → Reader d
  with_payload n r = record r { payload_size = n; payload_resized = true }

  -- What the size updates for a packet with the payload size `n` and `k` source packets make of a
  -- reader.
  pub data Resizes (n k : ℕ) (r : Reader d) (a : Bool × Reader d) : Type 0 where
    rejects :
        (x : Bool)
        → (x ≡ true → r.alive ≡ true)
        → a ≡ (false, record r { alive = x })
        → Resizes n k r a
    no_memory :
        TakesPayload n r
        → r.source_block_resized ≡ false
        → a ≡ (false, record (with_payload n r) { alive = false })
        → Resizes n k r a
    fits :
        TakesPayload n r
        → length r.source_block ≡ k
        → a ≡ (true, record (with_payload n r) { source_block_resized = true })
        → Resizes n k r a
    resized :
        TakesPayload n r
        → r.source_block_resized ≡ false
        → 0 < k
        → k ≤ d.max_block_length
        → a ≡ (
          true,
          record (with_payload n r) {
            source_block = slots k r.source_block;
            source_block_resized = true;
          },
        )
        → Resizes n k r a

  -- The block has `k` source packets, or may still take them.
  abbrev TakesLength : ℕ → Reader d → Type 0
  TakesLength k r =
      (length r.source_block ≡ k) ⊎ ((r.source_block_resized ≡ false) × (k ≤ d.max_block_length))

  -- A check lets the packet through or rejects it; it may then have shut the reader down.
  abbrev Checks : (Reader d → Type 0) → Reader d → Bool × Reader d → Type 0
  Checks P r a =
      ((a ≡ (true, r)) × P r)
      ⊎ ((x : Bool) × (x ≡ true → r.alive ≡ true) × (a ≡ (false, record r { alive = x })))

  can_update_payload :
      (n : ℕ) (r : Reader d) → Checks (TakesPayload n) r (can_update_payload_size d n r)
  unfolding can_update_payload_size
  can_update_payload n r = elim (Bool-cases (r.payload_size == n)) [
    | inl e ↦ rw e (inl (refl, inl (ground arith)))
    | inr e ↦ elim (Bool-cases r.payload_resized) [
      | inl f ↦ rw (e, f) (inr (r.alive, λ h. h, refl))
      | inr f ↦ rw e (inl (rw f refl, inr f))
    ]
  ]

  can_update_source :
      (k : ℕ) (r : Reader d) → Checks (TakesLength k) r (can_update_source_block_size d k r)
  unfolding can_update_source_block_size
  can_update_source k r = elim (Bool-cases (length r.source_block == k)) [
    | inl e ↦ rw e (inl (refl, inl (ground arith)))
    | inr e ↦ elim (Bool-cases r.source_block_resized) [
      | inl f ↦ rw (e, f) (inr (r.alive, λ h. h, refl))
      | inr f ↦ elim (Bool-cases (ltb d.max_block_length k)) [
        | inl g ↦ rw (e, f, g) (inr (false, λ h. cc, refl))
        | inr g ↦ rw e (inl (rw (f, g) refl, inr (f, ground arith)))
      ]
    ]
  ]

  pub update_payload : (n : ℕ) (r : Reader d) → update_payload_size d n r ≡ (true, with_payload n r)
  unfolding update_payload_size
  update_payload n r = elim (Bool-cases (r.payload_size == n)) [
    | inl e ↦
        let q : r.payload_size ≡ n = ground arith in
        rw e (ap (λ m. (true, record r { payload_size = m; payload_resized = true })) q)
    | inr e ↦ rw e refl
  ]

  module _ (memory : Reader d → ℕ → Bool) where
    abbrev commit : ℕ → ℕ → Reader d → Bool × Reader d
    commit n k r = and_then d (update_source_block_size d memory k) (update_payload_size d n r)

    commit-Resizes :
        (n k : ℕ) (r : Reader d)
        → TakesPayload n r
        → TakesLength k r
        → 0 < k
        → Resizes n k r (commit n k r)
    unfolding update_source_block_size
    commit-Resizes n k r hn hk hp =
        rw (update_payload n r) (elim (Bool-cases (length r.source_block == k)) [
          | inl e ↦ rw e (fits hn (ground arith) refl)
          | inr e ↦ elim hk [
            | inl h ↦ absurd (ground arith)
            | inr (f, m) ↦ elim (Bool-cases (memory (with_payload n r) k)) [
              | inl g ↦ rw (e, g) (resized hn f hp m refl)
              | inr g ↦ rw (e, g) (no_memory hn f refl)
            ]
          ]
        ])

    pub process_source_packet-Resizes :
        (c : Fec) (r : Reader d)
        → Resizes
            (slice_size c.payload)
            c.source_block_length
            r
            (process_source_packet d memory c r)
    unfolding process_source_packet
    process_source_packet-Resizes c r = elim (Bool-cases (validate_incoming_source_packet c)) [
      | inr v ↦ rw v (rejects r.alive (λ h. h) refl)
      | inl v ↦ elim (can_update_payload (slice_size c.payload) r) [
        | inr (x, hx, e) ↦ rw (v, e) (rejects x hx refl)
        | inl (e, hn) ↦ elim (can_update_source c.source_block_length r) [
          | inr (x, hx, f) ↦ rw (v, e, f) (rejects x hx refl)
          | inl (f, hk) ↦
              rw (v, e, f)
                (commit-Resizes (slice_size c.payload) c.source_block_length r hn hk
                  (source_positive c v))
        ]
      ]
    ]

    abbrev pub total : Reader d → ℕ
    total r = length r.source_block + length r.repair_block

    abbrev pub TakesTotal : ℕ → Reader d → Type 0
    TakesTotal b r = (b ≡ total r) ⊎ ((r.repair_block_resized ≡ false) × (b ≤ d.max_block_length))

    can_update_repair :
        (b : ℕ) (r : Reader d) → Checks (TakesTotal b) r (can_update_repair_block_size d b r)
    unfolding can_update_repair_block_size
    can_update_repair b r = elim (Bool-cases (b == total r)) [
      | inl e ↦ rw e (inl (refl, inl (ground arith)))
      | inr e ↦ elim (Bool-cases r.repair_block_resized) [
        | inl f ↦ rw (e, f) (inr (r.alive, λ h. h, refl))
        | inr f ↦ elim (Bool-cases (ltb d.max_block_length b)) [
          | inl g ↦ rw (e, f, g) (inr (false, λ h. cc, refl))
          | inr g ↦ rw e (inl (rw (f, g) refl, inr (f, ground arith)))
        ]
      ]
    ]

    -- The checks of a repair packet before its block takes the sizes.
    abbrev pub Prepares : ℕ → ℕ → ℕ → Reader d → Bool × Reader d → Type 0
    Prepares n k b r a = (a.0 ≡ true → TakesTotal b r) × Resizes n k r a

    pub prepare_repair_packet-Prepares :
        (c : Fec) (r : Reader d)
        → Prepares
            (slice_size c.payload)
            c.source_block_length
            c.block_length
            r
            (prepare_repair_packet d memory c r)
    unfolding prepare_repair_packet
    prepare_repair_packet-Prepares c r = elim (Bool-cases (validate_incoming_repair_packet c)) [
      | inr v ↦ rw v (λ h. cc, rejects r.alive (λ h. h) refl)
      | inl v ↦ elim (can_update_payload (slice_size c.payload) r) [
        | inr (x, hx, e) ↦ rw (v, e) (λ h. cc, rejects x hx refl)
        | inl (e, hn) ↦ elim (can_update_source c.source_block_length r) [
          | inr (x, hx, f) ↦ rw (v, e, f) (λ h. cc, rejects x hx refl)
          | inl (f, hk) ↦ elim (can_update_repair c.block_length r) [
            | inr (x, hx, g) ↦ rw (v, e, f, g) (λ h. cc, rejects x hx refl)
            | inl (g, hb) ↦
                rw (v, e, f, g)
                  (
                    λ _. hb,
                    commit-Resizes (slice_size c.payload) c.source_block_length r hn hk
                        (repair_positive c v),
                  )
          ]
        ]
      ]
    ]

    pub process_source_packet_valid :
        (c : Fec) (r : Reader d)
        → (process_source_packet d memory c r).0 ≡ true
        → validate_incoming_source_packet c ≡ true
    unfolding process_source_packet
    process_source_packet_valid c r h = elim (Bool-cases (validate_incoming_source_packet c)) [
      | inl v ↦ v
      | inr v ↦ absurd (cc (rw v at h))
    ]

    pub prepare_repair_packet_valid :
        (c : Fec) (r : Reader d)
        → (prepare_repair_packet d memory c r).0 ≡ true
        → validate_incoming_repair_packet c ≡ true
    unfolding prepare_repair_packet
    prepare_repair_packet_valid c r h = elim (Bool-cases (validate_incoming_repair_packet c)) [
      | inl v ↦ v
      | inr v ↦ absurd (cc (rw v at h))
    ]
