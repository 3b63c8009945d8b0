-- ===== src/Audio/Depacketizer/Fetch.antt =====
-- The loop in which the depacketizer gets its next packet: late ones are dropped.
use roc.Prelude.{
  ℕ, zero, suc, ◌+◌, ◌%◌, ◌<◌, ◌≡◌, refl, ap, ◌∙◌, ◌⊎◌, inl, inr, true, false, Option, none, some,
  arith, Bool-cases, Option-cases, ◌>>=◌,
}
use roc.Packet.Units.{u32_mod}
use roc.Packet.Types.{Packet, Rtp, rtp}
use roc.Audio.Depacketizer.{Inputs, Depacketizer, Depacketizer, plays, fetch_packet}
use roc.Audio.Depacketizer.Contract.{Setting}
use roc.Audio.Depacketizer.States.{Common, Resting, Same}

module _ {Sample : Type 0} {io : Inputs Sample} (cfg : Setting io) where
  -- What the loop comes to: no packet is left, or one that is played; the packets before it were late.
  abbrev pub Found : Depacketizer io → Option (ℕ × ℕ × Depacketizer io) → Type 0
  Found w o =
      (ts : ℕ) × (n : ℕ) × (v : Depacketizer io) × (o ≡ some (ts, n, v))
      × Common cfg v
      × (v.timestamp ≡ w.timestamp)
      × (v.first_packet ≡ w.first_packet)
      × Same cfg v w
      × (Resting cfg v
          ⊎ ((p : Packet) × (v.packet ≡ some p)
              × cfg.contract.Busy v.decoder
              × (ts ≡ io.decoder.position v.decoder)
              × (0 < io.decoder.available v.decoder)
              × (plays io v ≡ true)
              × (io.reader.left v.reader < io.reader.left w.reader)))

  abbrev begun : Packet → io.decoder.State → Depacketizer io → Depacketizer io
  begun p s w = record w { reader = (io.reader.read w.reader).1; packet = some p; decoder = s }

  abbrev ended : Depacketizer io → Depacketizer io
  ended w = record w { reader = (io.reader.read w.reader).1; packet = none }

  fetch_end :
      (fuel ts n : ℕ) (w : Depacketizer io)
      → (io.reader.read w.reader).0 ≡ none
      → fetch_packet io (suc fuel) ts n w ≡ some (ts, n, ended w)
  unfolding fetch_packet
  fetch_end fuel ts n w e = rw (e, fetch_packet) refl

  fetch_found :
      (fuel ts n : ℕ) (w : Depacketizer io) (p : Packet) (r : Rtp) (s : io.decoder.State)
      → (io.reader.read w.reader).0 ≡ some p
      → rtp p ≡ some r
      → io.decoder.begin r.timestamp r.payload w.decoder ≡ some s
      → plays io (begun p s w) ≡ true
      → fetch_packet io (suc fuel) ts n w ≡ some (io.decoder.position s, n, begun p s w)
  unfolding fetch_packet
  fetch_found fuel ts n w p r s e f b h = rw (e, fetch_packet, f, ◌>>=◌, b, ◌>>=◌, h) refl

  fetch_late :
      (fuel ts n : ℕ) (w : Depacketizer io) (p : Packet) (r : Rtp) (s t : io.decoder.State)
      → (io.reader.read w.reader).0 ≡ some p
      → rtp p ≡ some r
      → io.decoder.begin r.timestamp r.payload w.decoder ≡ some s
      → plays io (begun p s w) ≡ false
      → io.decoder.finish s ≡ some t
      → fetch_packet io (suc fuel) ts n w
        ≡ fetch_packet io fuel
            (io.decoder.position s)
            ((n + 1) % u32_mod)
            (record (begun p s w) { decoder = t })
  unfolding fetch_packet
  fetch_late fuel ts n w p r s t e f b h c = rw (e, fetch_packet, f, ◌>>=◌, b, ◌>>=◌, h, c) refl

  Common-moved :
      (w : Depacketizer io) (o : Option Packet) (s : io.decoder.State)
      → Common cfg w
      → Common cfg (record w { reader = (io.reader.read w.reader).1; packet = o; decoder = s })
  Common-moved w o s c = record {
    same_channels = c.same_channels;
    same_num = c.same_num;
    timestamp_fits = c.timestamp_fits;
    holds = cfg.gives.keeps w.reader c.holds;
  }

  pub fetch_packet-Found :
      (fuel ts n : ℕ) (w : Depacketizer io)
      → io.reader.left w.reader < fuel
      → Common cfg w
      → cfg.contract.Idle w.decoder
      → Found w (fetch_packet io fuel ts n w)
  fetch_packet-Found zero ts n w h c idle = absurd (omega arith)
  fetch_packet-Found (suc fuel) ts n w h c idle = elim (Option-cases (io.reader.read w.reader).0) [
    | inl e ↦ rw (fetch_end fuel ts n w e) (
      ts,
      n,
      ended w,
      refl,
      Common-moved w none w.decoder c,
      refl,
      refl,
      (refl, refl),
      inl (record { no_packet = refl; is_idle = idle }),
    )
    | inr (p, e) ↦
        let (r, b, f, pay, fit, hs) = cfg.gives.gives w.reader p c.holds e in
        let (s, st, busy, av) = cfg.contract.begins w.decoder r.timestamp b idle fit hs in
        let st' : io.decoder.begin r.timestamp r.payload w.decoder ≡ some s =
          ap (λ x. io.decoder.begin r.timestamp x w.decoder) pay ∙ st in
        let l = io.reader.read_left w.reader p e in
        elim (Bool-cases (plays io (begun p s w))) [
          | inl y ↦ rw (fetch_found fuel ts n w p r s e f st' y) (
            io.decoder.position s,
            n,
            begun p s w,
            refl,
            Common-moved w (some p) s c,
            refl,
            refl,
            (refl, refl),
            inr (p, refl, busy, refl, av, y, l),
          )
          | inr y ↦
              let (t, fin, idle') = cfg.contract.ends s busy in
              let (ts', n', v, o, cv, a1, a2, sm, x) =
                fetch_packet-Found fuel (io.decoder.position s) ((n + 1) % u32_mod)
                  (record (begun p s w) { decoder = t }) (omega (arith, l, h))
                  (Common-moved w (some p) t c) idle' in
              rw (fetch_late fuel ts n w p r s t e f st' y fin, o)
                (ts', n', v, refl, cv, a1, a2, sm, nearer v ts' l x)
        ]
  ]
    where
      nearer :
          (v : Depacketizer io) (ts' : ℕ)
          → io.reader.left (io.reader.read w.reader).1 < io.reader.left w.reader
          → (Resting cfg v
              ⊎ ((p : Packet) × (v.packet ≡ some p)
                  × cfg.contract.Busy v.decoder
                  × (ts' ≡ io.decoder.position v.decoder)
                  × (0 < io.decoder.available v.decoder)
                  × (plays io v ≡ true)
                  × (io.reader.left v.reader < io.reader.left (io.reader.read w.reader).1)))
          → Resting cfg v
            ⊎ ((p : Packet) × (v.packet ≡ some p)
                × cfg.contract.Busy v.decoder
                × (ts' ≡ io.decoder.position v.decoder)
                × (0 < io.decoder.available v.decoder)
                × (plays io v ≡ true)
                × (io.reader.left v.reader < io.reader.left w.reader))
      nearer v ts' l (inl x) = inl x
      nearer v ts' l (inr (p, a, b, c, q, y, m)) = inr (p, a, b, c, q, y, omega arith)
