-- ===== src/Audio/Packetizer/Composer.antt =====
-- The RTP composer of src/modules/roc_rtp/composer.cpp does what the packetizer relies on.
use roc.Prelude.{
  ℕ, ◌+◌, ◌-◌, ◌≤◌, ◌≡◌, refl, inl, inr, false, none, some, arith, ltb, Bool-cases, length, take,
  drop, length-take, range_front, range_in,
}
use roc.Packet.Types.{Rtp, rtp_init, rtp, add_flags}
use roc.Rtp.Composer.{
  InnerComposer, align, prepare, prepare_payload, pad, pad_rtp, compose, slice_range,
}
use roc.Audio.Packetizer.Contract.{Prepares, Pads, audio_packet}
use roc.Audio.Packetizer.Packets.{rtp-part}

-- The RTP composer without an inner composer.
abbrev pub rtp_composer : InnerComposer
rtp_composer = record {
  align = align none;
  prepare = prepare none;
  pad = pad none;
  compose = compose none;
}

-- The RTP composer refuses a buffer that is too short for the header and the payload, and else makes an
-- RTP packet with a payload of the size asked for and no padding.
pub rtp_composer-Prepares : (size : ℕ) → Prepares rtp_composer size
unfolding prepare prepare_payload add_flags rtp
rtp_composer-Prepares size b =
    let rest = drop 12 b.bytes in
    elim (Bool-cases (ltb (length b.bytes) 12)) [
      | inl t ↦ inl (audio_packet, b, rw (t) refl)
      | inr f ↦ elim (Bool-cases (ltb (length rest) size)) [
        | inl t ↦ inl (audio_packet, b, rw (f, t) refl)
        | inr g ↦
            let n : size ≤ length rest = ground arith in
            inr (
              record audio_packet {
                flags = 10;
                rtp_part = record rtp_init {
                  header = some (take 12 b.bytes);
                  payload = some (take size rest);
                };
              },
              record b { size = 12 + size },
              record rtp_init { header = some (take 12 b.bytes); payload = some (take size rest) },
              take size rest,
              rw (f, g) refl,
              refl,
              refl,
              omega (arith, length-take size rest),
              refl,
              refl,
            )
      ]
    ]

-- The RTP composer pads a packet that has no padding by as many bytes as are asked for, up to the size of
-- its payload: they are cut off from the end of the payload, and the numbers of the packet stay.
pub rtp_composer-Pads : Pads rtp_composer
unfolding pad pad_rtp slice_range
rtp_composer-Pads q r bytes n hr hp hn hl =
    let m = length bytes in
    let front = range_front bytes (m - n) (omega arith) in
    let back = range_in bytes (m - n) m (omega arith) (omega arith) in
    let g : ltb m n ≡ false = ground arith in
    let r' : Rtp = record r {
      padding = some (take (m - (m - n)) (drop (m - n) bytes));
      payload = some (take (m - n) bytes);
    } in
    (
      record q { rtp_part = r' },
      r',
      rw (hr, hn, hp, g, front, back) refl,
      rtp-part q r r' hr,
      refl,
      refl,
      refl,
      refl,
    )
