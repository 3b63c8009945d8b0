-- ===== src/Audio/PcmDecoder.antt =====
-- src/modules/roc_audio/pcm_decoder.cpp. The functions of a format, which convert samples, are an
-- argument; `none` is a panic.
use roc.Prelude.{
  ℕ, ◌+◌, ◌-◌, ◌*◌, ◌^◌, ◌%◌, ◌≤◌, ◌<◌, ◌≡◌, refl, ap, ◌∙◌, Option, none, some, List, arith, min,
  length, ltb, if◌then◌else◌, ◌>>=◌,
}
use roc.Packet.Units.{u32_mod}
use roc.Packet.Types.{Slice}
use roc.Audio.Depacketizer.{FrameDecoder}
use roc.Audio.Depacketizer.Contract.{Contract}

-- PCMFuncs: of a frame, from a position on, at most so many samples are decoded for some channels.
pub record PcmFuncs (Sample : Type 0) : Type 0 where
  pub samples_from_payload_size : ℕ → ℕ
  pub decode_samples : List ℕ → ℕ → ℕ → ℕ → ℕ × List Sample

pub record PcmDecoder : Type 0 where
  pub stream_pos : ℕ
  pub stream_avail : ℕ
  pub frame_data : Slice
  pub frame_pos : ℕ

module _ {Sample : Type 0} (f : PcmFuncs Sample) where
  unfoldable pub begin : ℕ → Slice → PcmDecoder → Option PcmDecoder
  begin ts none s = none
  begin ts (some b) s = elim s.frame_data [
    | some _ ↦ none
    | none ↦ some (record s {
      stream_pos = ts;
      stream_avail = f.samples_from_payload_size (length b) % u32_mod;
      frame_data = some b;
    })
  ]

  abbrev pub clip : ℕ → PcmDecoder → ℕ
  clip n s = if ltb s.stream_avail n then s.stream_avail else n

  unfoldable pub shift : ℕ → PcmDecoder → Option (ℕ × PcmDecoder)
  shift n s = s.frame_data >>= λ b. some (
    clip n s,
    record s {
      stream_pos = (s.stream_pos + clip n s) % u32_mod;
      stream_avail = s.stream_avail - clip n s;
      frame_pos = s.frame_pos + clip n s;
    },
  )

  unfoldable pub read : ℕ → ℕ → PcmDecoder → Option (ℕ × List Sample × PcmDecoder)
  read n channels s = s.frame_data >>= λ b.
      let a = f.decode_samples b s.frame_pos (clip n s) channels in
      shift a.0 s >>= λ t. some (a.0, a.1, t.1)

  unfoldable pub finish : PcmDecoder → Option PcmDecoder
  finish s =
      s.frame_data >>= λ b. some (record s { stream_avail = 0; frame_data = none; frame_pos = 0 })

  abbrev pub pcm_decoder : FrameDecoder Sample
  pcm_decoder = record {
    State = PcmDecoder;
    position = λ s. s.stream_pos;
    available = λ s. s.stream_avail;
    begin = begin;
    read = read;
    shift = shift;
    finish = finish;
  }

  -- Samples that a frame holds are decoded, all that are wanted.
  abbrev pub Decodes : ℕ → ℕ → Type 0
  Decodes channels num_channels =
      (b : List ℕ) (p n : ℕ)
      → p + n ≤ f.samples_from_payload_size (length b)
      → ((f.decode_samples b p n channels).0 ≡ n)
        × (length (f.decode_samples b p n channels).1 ≡ n * num_channels)

  -- Inside a frame, with no more samples than it has.
  pub record InFrame (s : PcmDecoder) : Type 0 where
    pub frame : List ℕ
    pub has_frame : s.frame_data ≡ some frame
    pub pos_fits : s.stream_pos < u32_mod
    pub avail_fits : s.stream_avail < 2 ^ 31
    pub in_frame : s.frame_pos + s.stream_avail ≤ f.samples_from_payload_size (length frame)

  abbrev pub HasSome : List ℕ → Type 0
  HasSome b =
      (0 < f.samples_from_payload_size (length b))
      × (f.samples_from_payload_size (length b) < 2 ^ 31)

  abbrev pub OutOfFrame : PcmDecoder → Type 0
  OutOfFrame s = (s.frame_data ≡ none) × (s.frame_pos ≡ 0)

  clip-min : (n : ℕ) (s : PcmDecoder) → clip n s ≡ min n s.stream_avail
  clip-min n s = ground arith

  pub begins_lem :
      (s : PcmDecoder) (ts : ℕ) (b : List ℕ)
      → OutOfFrame s
      → ts < u32_mod
      → HasSome b
      → (t : PcmDecoder) × (begin ts (some b) s ≡ some t) × InFrame t × (0 < t.stream_avail)
  unfolding begin
  begins_lem s ts b (e, z) h (p, q) =
      rw (e, begin)
        (
          record s {
            stream_pos = ts;
            stream_avail = f.samples_from_payload_size (length b) % u32_mod;
            frame_data = some b;
          },
          refl,
          record {
            frame = b;
            has_frame = refl;
            pos_fits = h;
            avail_fits = omega arith;
            in_frame = omega arith;
          },
          omega arith,
        )

  pub moved : ℕ → PcmDecoder → PcmDecoder
  moved n s = record s {
    stream_pos = (s.stream_pos + n) % u32_mod;
    stream_avail = s.stream_avail - n;
    frame_pos = s.frame_pos + n;
  }

  pub shift_lem :
      (n : ℕ) (s : PcmDecoder) → InFrame s → n ≤ s.stream_avail → shift n s ≡ some (n, moved n s)
  unfolding shift moved
  shift_lem n s h l =
      let e : clip n s ≡ n = ground arith in
      let step : ℕ → List ℕ → Option (ℕ × PcmDecoder) = λ m b. some (m, moved m s) in
      ap (λ o. o >>= step (clip n s)) h.has_frame ∙ ap (λ m. some (m, moved m s)) e

  pub InFrame-moved :
      (n : ℕ) (s : PcmDecoder) → InFrame s → n ≤ s.stream_avail → InFrame (moved n s)
  unfolding moved
  InFrame-moved n s h l = record {
    frame = h.frame;
    has_frame = h.has_frame;
    pos_fits = omega arith;
    avail_fits = omega (arith, h.avail_fits);
    in_frame = omega (arith, h.in_frame);
  }

  pub finish_lem :
      (s : PcmDecoder) → InFrame s → (t : PcmDecoder) × (finish s ≡ some t) × OutOfFrame t
  unfolding finish
  finish_lem s h =
      let t = record s { stream_avail = 0; frame_data = none; frame_pos = 0 } in
      let step : List ℕ → Option PcmDecoder = λ b. some t in
      (t, ap (λ o. o >>= step) h.has_frame, (refl, refl))

  pub moved_pos : (n : ℕ) (s : PcmDecoder) → (moved n s).stream_pos ≡ (s.stream_pos + n) % u32_mod
  unfolding moved
  moved_pos n s = refl

  pub read_lem :
      (channels num_channels : ℕ)
      → Decodes channels num_channels
      → (s : PcmDecoder) (n : ℕ) → InFrame s
      → (xs : List Sample) × (t : PcmDecoder) × (read n channels s
          ≡ some (min n s.stream_avail, xs, t))
        × (length xs ≡ min n s.stream_avail * num_channels)
        × InFrame t
        × (t.stream_pos ≡ (s.stream_pos + min n s.stream_avail) % u32_mod)
  unfolding read moved
  read_lem channels num_channels dec s n h =
      let m = min n s.stream_avail in
      let a = f.decode_samples h.frame s.frame_pos m channels in
      let (c, l) = dec h.frame s.frame_pos m (omega (arith, h.in_frame)) in
      let le : m ≤ s.stream_avail = omega arith in
      let step : ℕ → List ℕ → Option (ℕ × List Sample × PcmDecoder) = λ k b.
        let x = f.decode_samples b s.frame_pos k channels in
        shift x.0 s >>= λ t. some (x.0, x.1, t.1) in
      (
        a.1,
        moved m s,
        ap (λ o. o >>= step (clip n s)) h.has_frame
            ∙ (ap (λ k. step k h.frame) (clip-min n s)
                ∙ (ap (λ k. shift k s >>= λ t. some (k, a.1, t.1)) c
                    ∙ ap (λ o. o >>= λ t. some (m, a.1, t.1)) (shift_lem m s h le))),
        l,
        InFrame-moved m s h le,
        refl,
      )

  -- The PCM decoder keeps the contract that the depacketizer relies on, for functions of a format that
  -- decode all samples that are wanted and that a frame holds.
  abbrev pub pcm_contract :
      (channels num_channels : ℕ)
      → Decodes channels num_channels
      → Contract pcm_decoder channels num_channels
  pcm_contract channels num_channels dec = record {
    Idle = OutOfFrame;
    Busy = InFrame;
    HasSamples = HasSome;
    position_fits = λ s h. h.pos_fits;
    available_fits = λ s h. h.avail_fits;
    begins = begins_lem;
    reads = read_lem channels num_channels dec;
    shifts = λ s n h l. (moved n s, shift_lem n s h l, InFrame-moved n s h l, moved_pos n s);
    ends = finish_lem;
  }
