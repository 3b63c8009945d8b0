-- ===== src/Fec/WriterState.antt =====
-- src/modules/roc_fec/writer.cpp: the state of the writer, its construction, `resize`, and how a block
-- begins. The block encoder of iblock_encoder.h is an argument.
use roc.Prelude.{
  ℕ, ◌+◌, ◌-◌, ◌%◌, ◌&&◌, Bool, true, false, Option, none, some, List, [], ◌++◌, ltb, ◌==◌, not,
  if◌then◌else◌, length, take, replicate, ◌>>=◌,
}
use roc.Packet.Units.{u16_mod, u64_mod}
use roc.Packet.Types.{
  Packet, Fec, FecScheme, none_scheme, reed_solomon_m8, ldpc_staircase, Slice, fec,
}
use roc.Rtp.Composer.{InnerComposer}

-- IBlockEncoder. The encoder keeps the buffers that it is given and `fill` writes the repair ones in
-- place: `symbol i` is what buffer `i` holds then.
pub record BlockEncoder : Type 1 where
  pub State : Type 0
  pub alignment : ℕ
  pub max_block_length : ℕ
  pub begin : ℕ → ℕ → ℕ → State → Bool × State
  pub put : ℕ → Slice → State → State
  pub fill : State → State
  pub finish : State → State
  pub symbol : ℕ → State → Slice

abbrev pub same_scheme : FecScheme → FecScheme → Bool
same_scheme none_scheme none_scheme = true
same_scheme reed_solomon_m8 reed_solomon_m8 = true
same_scheme ldpc_staircase ldpc_staircase = true
same_scheme _ _ = false

-- `validate_fec_packet_`
unfoldable pub validate_fec_packet : FecScheme → Packet → Option Fec
unfolding fec
validate_fec_packet scheme p = do
  c ← fec p
  if same_scheme c.fec_scheme scheme then some c else none

abbrev pub slots : ℕ → List (Option Packet) → List (Option Packet)
slots n block = take n block ++ replicate (n - length block) none

module _ (e : BlockEncoder) where
  pub record Writer : Type 0 where
    pub cur_sblen : ℕ
    pub next_sblen : ℕ
    pub cur_rblen : ℕ
    pub next_rblen : ℕ
    pub cur_payload_size : ℕ
    pub encoder : e.State
    pub repair_block : List (Option Packet)
    pub first_packet : Bool
    pub cur_sbn : ℕ
    pub cur_block_repair_sn : ℕ
    pub cur_packet : ℕ
    pub scheme : FecScheme
    pub alive : Bool

  -- The sum of the sizes is a `size_t`, and wraps around.
  unfoldable pub resize : ℕ → ℕ → Writer → Bool × Writer
  resize sblen rblen w =
      if w.next_sblen == sblen && w.next_rblen == rblen
      then (true, w)
      else if sblen == 0
      then (false, w)
      else if ltb e.max_block_length ((sblen + rblen) % u64_mod)
      then (false, w)
      else (true, record w { next_sblen = sblen; next_rblen = rblen })

  abbrev pub blank : FecScheme → ℕ → ℕ → e.State → Writer
  blank scheme sbn sn s = record {
    cur_sblen = 0;
    next_sblen = 0;
    cur_rblen = 0;
    next_rblen = 0;
    cur_payload_size = 0;
    encoder = s;
    repair_block = [];
    first_packet = true;
    cur_sbn = sbn;
    cur_block_repair_sn = sn;
    cur_packet = 0;
    scheme = scheme;
    alive = true;
  }

  -- The constructor, with the two random numbers; `none` is an object that is not valid.
  unfoldable pub init : ℕ → ℕ → FecScheme → ℕ → ℕ → e.State → Option Writer
  unfolding resize
  init n_source n_repair scheme sbn sn s =
      let r = resize n_source n_repair (blank scheme sbn sn s) in if r.0 then some r.1 else none

  unfoldable pub apply_sizes : Bool → ℕ → ℕ → ℕ → Writer → Bool × Writer
  apply_sizes memory sblen rblen payload_size w =
      if payload_size == 0
      then (false, record w { alive = false })
      else if not (length w.repair_block == rblen) && not memory
      then (false, record w { alive = false })
      else (
        true,
        record w {
          repair_block = slots rblen w.repair_block;
          cur_sblen = sblen;
          cur_rblen = rblen;
          cur_payload_size = payload_size;
        },
      )

  unfoldable pub begin_block : Bool → ℕ → Writer → Bool × Writer
  unfolding apply_sizes
  begin_block memory payload_size w =
      let r = apply_sizes memory w.next_sblen w.next_rblen payload_size w in
      let b = e.begin r.1.cur_sblen r.1.cur_rblen r.1.cur_payload_size r.1.encoder in
      if r.0
      then (if b.0
          then (true, record r.1 { encoder = b.1 })
          else (false, record r.1 { encoder = b.1; alive = false }))
      else r

  -- `pack_n` is a `seqnum_t`.
  unfoldable pub fill_packet_fec_fields : Packet → ℕ → Writer → Packet
  fill_packet_fec_fields p pack_n w = record p {
    fec_part = record p.fec_part {
      encoding_symbol_id = pack_n % u16_mod;
      source_block_number = w.cur_sbn;
      source_block_length = w.cur_sblen;
      block_length = w.cur_sblen + w.cur_rblen;
    };
  }

  -- A false result of a composer is a panic.
  unfoldable pub compose_or_panic : InnerComposer → Packet → Option Packet
  compose_or_panic c p = do (ok, q) ← c.compose p; if ok then some q else none
