-- ===== src/Audio/Depacketizer/Updates.antt =====
-- How the depacketizer gets its next packet: what is dropped, and where the decoder then stands.
use roc.Prelude.{
  ℕ, suc, ◌+◌, ◌%◌, ◌<◌, ◌≡◌, refl, sym, subst, ap, ◌∙◌, ◌⊎◌, inl, inr, true, false, Option, none,
  some, arith, Bool-cases, ◌==◌,
}
use roc.Packet.Units.{u32_mod, u64_mod, timestamp_lt, timestamp_diff}
use roc.Packet.Types.{Packet}
use roc.Audio.Depacketizer.{
  Inputs, Depacketizer, Depacketizer, to_size, plays, start, catch_up, settle_packet, settle,
  update_from, update_packet,
}
use roc.Audio.Depacketizer.Contract.{Setting, skip-position, not_behind, irreflexive}
use roc.Audio.Depacketizer.States.{CommonOf-at, Common, Resting, Playing, Same}
use roc.Audio.Depacketizer.Fetch.{fetch_packet-Found}

module _ {Sample : Type 0} {io : Inputs Sample} (cfg : Setting io) where
  -- Behind the loop, and the update of the count of dropped packets.
  abbrev Settles : Depacketizer io → Option (Depacketizer io) → Type 0
  Settles v o =
      (u : Depacketizer io) × (o ≡ some u)
      × Common cfg u
      × Playing cfg u
      × (u.reader ≡ v.reader)
      × Same cfg u v

  catch_up-Settles :
      (p : Packet) (v : Depacketizer io)
      → Common cfg v
      → v.packet ≡ some p
      → cfg.contract.Busy v.decoder
      → 0 < io.decoder.available v.decoder
      → (timestamp_lt v.timestamp
            ((io.decoder.position v.decoder + io.decoder.available v.decoder) % u32_mod)
          ≡ true)
        ⊎ (v.timestamp ≡ io.decoder.position v.decoder)
      → Settles v (catch_up io (io.decoder.position v.decoder) v)
  unfolding catch_up
  catch_up-Settles p v c e b av h =
      elim (Bool-cases (timestamp_lt (io.decoder.position v.decoder) v.timestamp)) [
        | inr y ↦ rw y (
          v,
          refl,
          c,
          record {
            played = p;
            has_packet = e;
            is_busy = b;
            is_ahead =
                not_behind (io.decoder.position v.decoder) v.timestamp
                  (cfg.contract.position_fits v.decoder b) c.timestamp_fits y;
          },
          refl,
          (refl, refl),
        )
        | inl y ↦ late y h
      ]
    where
      late :
          timestamp_lt (io.decoder.position v.decoder) v.timestamp ≡ true
          → (timestamp_lt v.timestamp
                ((io.decoder.position v.decoder + io.decoder.available v.decoder) % u32_mod)
              ≡ true)
            ⊎ (v.timestamp ≡ io.decoder.position v.decoder)
          → Settles v (catch_up io (io.decoder.position v.decoder) v)
      late y (inr q) =
          absurd
            (irreflexive v.timestamp c.timestamp_fits (ap (λ x. timestamp_lt x v.timestamp) q ∙ y))
      late y (inl z) =
          let n = to_size (timestamp_diff v.timestamp (io.decoder.position v.decoder)) in
          let (a, q) =
            skip-position (io.decoder.position v.decoder) v.timestamp
              (io.decoder.available v.decoder) (cfg.contract.position_fits v.decoder b)
              c.timestamp_fits av (cfg.contract.available_fits v.decoder b) y z in
          let (t, f, b', m) = cfg.contract.shifts v.decoder n b a in
          let same : (n == n) ≡ true = ground arith in
          rw (y, f, same)
            (
              record v { decoder = t },
              refl,
              c,
              record { played = p; has_packet = e; is_busy = b'; is_ahead = inl (sym q ∙ sym m) },
              refl,
              (refl, refl),
            )

  -- A packet is there, taken from the reader, or none is left.
  abbrev pub Updates : Depacketizer io → Option (Depacketizer io) → Type 0
  Updates w o =
      (v : Depacketizer io) × (o ≡ some v)
      × Common cfg v
      × Same cfg v w
      × (Resting cfg v ⊎ (Playing cfg v × (io.reader.left v.reader < io.reader.left w.reader)))

  counted : Depacketizer io → ℕ → Depacketizer io
  counted w n = record w { dropped_packets = (w.dropped_packets + n) % u64_mod }

  Common-counted : (w : Depacketizer io) (n : ℕ) → Common cfg w → Common cfg (counted w n)
  unfolding counted
  Common-counted w n c = c

  not_first :
      (v : Depacketizer io)
      → v.first_packet ≡ false
      → plays io v ≡ true
      → timestamp_lt v.timestamp
          ((io.decoder.position v.decoder + io.decoder.available v.decoder) % u32_mod)
        ≡ true
  unfolding plays
  not_first v e h = (rw e at h)

  settled :
      (p : Packet) (v : Depacketizer io)
      → Common cfg v
      → v.packet ≡ some p
      → cfg.contract.Busy v.decoder
      → 0 < io.decoder.available v.decoder
      → plays io v ≡ true
      → Settles v
          (catch_up io (io.decoder.position v.decoder) (start io (io.decoder.position v.decoder) v))
  settled p v c e b av h = elim (Bool-cases v.first_packet) [
    | inr f ↦
        let q : v ≡ start io (io.decoder.position v.decoder) v = rw f refl in
        subst (λ x. Settles v (catch_up io (io.decoder.position v.decoder) x)) q
          (catch_up-Settles p v c e b av (inl (not_first v f h)))
    | inl f ↦
        let u = record v { timestamp = io.decoder.position v.decoder; first_packet = false } in
        let q : u ≡ start io (io.decoder.position v.decoder) v = rw f refl in
        subst (λ x. Settles v (catch_up io (io.decoder.position v.decoder) x)) q
          (catch_up-Settles p u
            (CommonOf-at cfg (io.decoder.position v.decoder) c
              (cfg.contract.position_fits v.decoder b))
            e b av (inr refl))
  ]

  settle-none :
      (ts n : ℕ) (w : Depacketizer io) → w.packet ≡ none → settle io (ts, n, w) ≡ some (counted w n)
  unfolding counted
  settle-none ts n w e = ap (λ o. settle_packet io o ts (counted w n)) e

  settle-some :
      (ts n : ℕ) (w : Depacketizer io) (p : Packet)
      → w.packet ≡ some p
      → settle io (ts, n, w) ≡ catch_up io ts (start io ts (counted w n))
  unfolding counted
  settle-some ts n w p e = ap (λ o. settle_packet io o ts (counted w n)) e

  Resting-counted : (w : Depacketizer io) (n : ℕ) → Resting cfg w → Resting cfg (counted w n)
  unfolding counted
  Resting-counted w n r = r

  settle-Settles :
      (ts n : ℕ) (w : Depacketizer io) (p : Packet)
      → Common cfg w
      → w.packet ≡ some p
      → cfg.contract.Busy w.decoder
      → ts ≡ io.decoder.position w.decoder
      → 0 < io.decoder.available w.decoder
      → plays io w ≡ true
      → Settles w (settle io (ts, n, w))
  unfolding counted plays
  settle-Settles ts n w p c e b q av h =
      rw (settle-some ts n w p e, q) (settled p (counted w n) (Common-counted w n c) e b av h)

  pub update_packet-Updates :
      (w : Depacketizer io) → Common cfg w → Resting cfg w → Updates w (update_packet io w)
  unfolding update_packet counted
  update_packet-Updates w c r =
      let (ts, n, v, o, cv, a1, a2, sm, x) =
        fetch_packet-Found cfg (suc (io.reader.left w.reader)) 0 0 w (omega arith) c r.is_idle in
      rw (ap (λ p. update_from io p w) r.no_packet, o)
        (elim x [
          | inl y ↦
              rw (settle-none ts n v y.no_packet)
                (counted v n, refl, Common-counted v n cv, sm, inl (Resting-counted v n y))
          | inr (p, e, b, q, av, h, l) ↦
              let (u, f, cu, pu, same, su) = settle-Settles ts n v p cv e b q av h in
              rw f (u, refl, cu, (su.0 ∙ sm.0, su.1 ∙ sm.1), inr (pu, rw same l))
        ])
