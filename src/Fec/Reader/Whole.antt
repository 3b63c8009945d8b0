-- ===== src/Fec/Reader/Whole.antt =====
-- src/modules/roc_fec/reader.cpp: `read` as a whole, on valid readers and the readers below it.
use roc.Prelude.{
  ℕ, ◌+◌, ◌*◌, ◌≤◌, ◌≡◌, refl, ap, ◌⊎◌, inl, inr, Bool, true, false, Option, none, some, List,
  arith, length, Bool-cases, not, if◌then◌else◌, suc,
}
use roc.Packet.Types.{Packet}
use roc.Packet.Units.{u16_mod}
use roc.Packet.SortedQueue
use roc.Packet.SortedQueue.{SortedQueue}
use roc.Packet.Reader.{Gives, IReader}
use roc.Packet.DelayedReader.Behaviour.{length-write}
use roc.Rtp.Parser.{Outcome}
use roc.Fec.ReaderState.{BlockDecoder, Reader}
use roc.Fec.Reader.{fetch_loop, fetch_packets, put_source, put_repair, read, count}
use roc.Fec.Reader.Invariant.{IsFec, IsRepair}
use roc.Fec.Reader.Keeps.{IsValid-relabelled}
use roc.Fec.Reader.Fill.{IsValid-with_source, IsValid-with_repair}
use roc.Fec.Reader.First.{IsReady}
use roc.Fec.Reader.Fetch.{All-write, fetch_loop-Fetches}
use roc.Fec.Reader.Read.{ReadPanics, read_fetched-Reads}

module _ (d : BlockDecoder) where
  abbrev waiting : Reader d → ℕ
  waiting r = length r.source_queue.list

  -- A ready reader with at most `n` source packets.
  abbrev ReadyUpTo : ℕ → Reader d → Type 0
  ReadyUpTo n r = IsReady d r × (waiting r ≤ n)

  IsReady-put_source :
      (p : Packet) (r : Reader d) → IsFec p → IsReady d r → IsReady d (put_source d p r)
  IsReady-put_source p r hp (v, ib) = (
    IsValid-with_source d (SortedQueue.write p r.source_queue) r v
        (All-write IsFec p r.source_queue hp v.source_fec),
    ib,
  )

  ReadyUpTo-put_repair :
      (n : ℕ) (p : Packet) (r : Reader d)
      → IsRepair p
      → ReadyUpTo n r
      → ReadyUpTo n (put_repair d p r)
  ReadyUpTo-put_repair n p r hp ((v, ib), l) = (
    (
      IsValid-with_repair d (SortedQueue.write p r.repair_queue) r v
          (All-write IsRepair p r.repair_queue hp v.repair_fec),
      ib,
    ),
    l,
  )

  module _ (i j : IReader) (g : Gives i IsFec) (h : Gives j IsRepair) where
    source_fetched :
        (s : i.State) (r : Reader d)
        → g.Holds s
        → IsReady d r
        → (b : Bool) × (s' : i.State) × (r' : Reader d) × (fetch_loop d i
              (put_source d)
              (suc (i.left s))
              s
              r
            ≡ some (b, s', r'))
          × IsReady d r'
          × g.Holds s'
          × (b ≡ false → r'.alive ≡ false)
          × (waiting r' ≤ waiting r + i.left s)
    source_fetched s r k q =
        fetch_loop-Fetches d i IsFec (put_source d) (λ p x. (x.0, x.1)) (IsReady d)
          IsReady-put_source (λ r x. (IsValid-relabelled d r false x.0, x.1)) waiting
          (λ p r. length-write p r.source_queue) (λ r. refl) g (suc (i.left s)) s r (omega arith) k
          q

    repair_fetched :
        (n : ℕ) (t : j.State) (r : Reader d)
        → h.Holds t
        → ReadyUpTo n r
        → (b : Bool) × (t' : j.State) × (r' : Reader d) × (fetch_loop d j
              (put_repair d)
              (suc (j.left t))
              t
              r
            ≡ some (b, t', r'))
          × ReadyUpTo n r'
          × h.Holds t'
    repair_fetched n t r k q =
        let (b, t', r', e, q', k', _, _) =
          fetch_loop-Fetches d j IsRepair (put_repair d) (λ p x. (x.0, x.1)) (ReadyUpTo n)
            (ReadyUpTo-put_repair n) (λ r x. ((IsValid-relabelled d r false x.0.0, x.0.1), x.1))
            (λ r. 0) (λ p r. omega arith) (λ r. refl) h (suc (j.left t)) t r (omega arith) k q in
        (b, t', r', e, q', k')

    fetch_packets_lem :
        (s : i.State) (t : j.State) (r : Reader d)
        → g.Holds s
        → h.Holds t
        → IsReady d r
        → (s' : i.State) × (t' : j.State) × (r' : Reader d) × (fetch_packets d i j s t r
            ≡ some (s', t', r'))
          × ReadyUpTo (waiting r + i.left s) r'
          × g.Holds s'
          × h.Holds t'
    unfolding fetch_packets
    fetch_packets_lem s t r k l q =
        let (b, s', r1, e, q1, k1, _, w) = source_fetched s r k q in
        elim (Bool-cases b) [
          | inr f ↦ rw (e, f) (s', t, r1, refl, (q1, w), k1, l)
          | inl f ↦
              let (c, t', r2, e2, q2, l2) = repair_fetched (waiting r + i.left s) t r1 l (q1, w) in
              rw (e, f, e2) (s', t', r2, refl, q2, k1, l2)
        ]

    IsReady-counted : (r : Reader d) (n : ℕ) → IsReady d r → IsReady d (record r { n_packets = n })
    IsReady-counted r n (v, ib) = (
      record {
        source_fec = v.source_fec;
        repair_fec = v.repair_fec;
        sbn_fits = v.sbn_fits;
        source_fits = v.source_fits;
        source_slots = v.source_slots;
        repair_slots = v.repair_slots;
        payload_first = v.payload_first;
        source_first = v.source_first;
        unsized = v.unsized;
        no_repair = v.no_repair;
        not_started = v.not_started;
        at_start = v.at_start;
      },
      ib,
    )

    module _ (memory : Reader d → ℕ → Bool) (parser : Packet → List ℕ → Outcome)
        (pool : ℕ → Bool) where
      -- A read that is through: what a shut down reader returns is null.
      abbrev pub Through : Option (Option Packet × i.State × j.State × Reader d) → Type 0
      Through o =
          (q : Option Packet) × (s : i.State) × (t : j.State) × (r : Reader d) × (o
            ≡ some (q, s, t, r))
          × g.Holds s
          × h.Holds t
          × IsReady d r
          × (r.alive ≡ false → q ≡ none)

      -- A repair panics behind the fetched packets.
      abbrev pub Panics : i.State → j.State → Reader d → Type 0
      Panics s t r =
          (s' : i.State) × (t' : j.State) × (r' : Reader d) × (fetch_packets d i j s t r
            ≡ some (s', t', r'))
          × ReadPanics d memory parser pool r'

      -- A valid reader, inside a block if it has started, over readers that give packets with a FEC
      -- part, where each repair packet names the size of its block: with fuel for 65536 rounds for
      -- each source packet that is queued or waits below, and as many again, `read` does not panic
      -- unless a repair that it comes to does, and does not run out of fuel. A reader that is shut down
      -- then, or was before, returns null. The reader that is left is again valid and inside a block
      -- if it has started.
      pub read-Through :
          (fuel : ℕ) (s : i.State) (t : j.State) (r : Reader d)
          → g.Holds s
          → h.Holds t
          → IsReady d r
          → (waiting r + i.left s + 1) * u16_mod ≤ fuel
          → Panics s t r ⊎ Through (read d memory parser pool i j fuel s t r)
      unfolding read
      read-Through fuel s t r k l q b = elim (Bool-cases r.alive) [
        | inr e ↦
            let z : not r.alive ≡ true = ap not e in
            rw z (inr (none, s, t, r, refl, k, l, q, λ _. refl))
        | inl e ↦
            let (s', t', r1, f, (q1, w), k1, l1) = fetch_packets_lem s t r k l q in
            let z : not r.alive ≡ false = ap not e in
            rw (z, f)
              (elim (read_fetched-Reads d memory parser pool fuel r1 q1 (omega (arith, w, b))) [
                | inl (x, _) ↦ inl (s', t', r1, refl, x)
                | inr (p, r2, g2, q2) ↦ inr (
                    rw g2 (
                      if r2.alive then p else none,
                      s',
                      t',
                      record r2 { n_packets = count d memory parser pool p r2.n_packets },
                      refl,
                      k1,
                      l1,
                      IsReady-counted r2 (count d memory parser pool p r2.n_packets) q2,
                      λ x. rw x refl,
                    ))
              ])
      ]
