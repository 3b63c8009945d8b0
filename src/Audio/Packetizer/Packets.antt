-- ===== src/Audio/Packetizer/Packets.antt =====
-- The packets of src/modules/roc_audio/packetizer.cpp: what creating, beginning and ending one does.
use roc.Prelude.{ℕ, ◌≡◌, refl, ◌⊎◌, inl, inr, Option, none, some, List, arith, take, length}
use roc.Packet.Types.{Packet, Rtp, rtp, add_flags, set_data}
use roc.Rtp.Composer.{Buffer, InnerComposer}
use roc.Audio.Packetizer.{create_packet}
use roc.Audio.Packetizer.Contract.{Prepares}

-- A null packet, or an RTP packet with a payload of the size and no padding.
abbrev pub Creates : ℕ → Option (Option Packet) → Type 0
Creates size o =
    (o ≡ some none)
    ⊎ ((p : Packet) × (r : Rtp) × (bytes : List ℕ) × (o ≡ some (some p))
        × (rtp p ≡ some r)
        × (r.payload ≡ some bytes)
        × (length bytes ≡ size)
        × (r.padding ≡ none))

pub set_data_fresh :
    (d : List ℕ) (q : Packet)
    → q.data_slice ≡ none
    → set_data (some d) q ≡ some (record q { data_slice = some d })
unfolding set_data
set_data_fresh d q h = rw (h) refl

pub rtp-data :
    (d : List ℕ) (q : Packet) (r : Rtp)
    → rtp q ≡ some r
    → rtp (record q { data_slice = some d }) ≡ some r
unfolding rtp
rtp-data d q r h = h

pub rtp-part :
    (q : Packet) (r r' : Rtp) → rtp q ≡ some r → rtp (record q { rtp_part = r' }) ≡ some r'
unfolding rtp
rtp-part q r r' h = ground arith

pub create_packet-Creates :
    (c : InnerComposer) (size : ℕ)
    → Prepares c size
    → (b : Option Buffer) → Creates size (create_packet c b size)
unfolding create_packet add_flags
create_packet-Creates c size prep none = inl refl
create_packet-Creates c size prep (some b) = elim (prep b) [
  | inl (q, b', e) ↦ rw (e) (inl refl)
  | inr (q, b', r, bytes, e, hr, hp, hl, hn, hd) ↦
      let d = take b'.size b'.bytes in
      rw (e, set_data_fresh d q hd)
        (inr (record q { data_slice = some d }, r, bytes, refl, rtp-data d q r hr, hp, hl, hn))
]
