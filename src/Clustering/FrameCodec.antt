-- ===== src/Clustering/FrameCodec.antt =====
-- EncodeFrame and DecodeFrame of corndogs/server/clustering/frame_codec.go, with the Frame of
-- replicator.go. A frame has the fields of its kind only. The type of a message is its byte, and a bid is
-- the word of math.Float64bits.
pub mod Fields
pub mod Trip
use corndogs.Prelude.{
  ℕ, zero, suc, ◌+◌, ◌^◌, ◌≡◌, Bool, true, false, List, [], ◌∷◌, ◌++◌, Option, none, some,
  if◌then◌else◌, ltb, ◌==◌, length,
}
use corndogs.Bytes.{Bytes, be, of_be}
use corndogs.Filestore.Replication.{MutationBatch}
use corndogs.Filestore.Replication.Wire.{
  encode_batch, decode_batch, read_full, DecodeError, end_of_input, unexpected_end,
  too_many_mutations, field_too_long, Decoded, decoded, failed,
}

-- The fields of a cluster.Message that are sent; From and To are those of the frame.
pub record WireMessage : Type 0 where
  pub kind : ℕ
  pub epoch : ℕ
  pub lsn : ℕ
  pub ack_lsn : ℕ
  pub bid : ℕ
  pub last_epoch : ℕ

pub data Payload : Type 0 where
  msg : (m : WireMessage) → Payload
  batch : (b : MutationBatch) → Payload
  catchup_req : (after_lsn : ℕ) → (after_epoch : ℕ) → Payload
  snapshot_req : (after_lsn : ℕ) → (after_epoch : ℕ) → Payload
  snapshot : (lsn : ℕ) → (bytes : Bytes) → (epoch : ℕ) → Payload
  hello : (addr : Bytes) → Payload
  subscribe : Payload
  topology : (addr : Bytes) → (epoch : ℕ) → Payload

pub record Frame : Type 0 where
  pub from : Bytes
  pub to : Bytes
  pub payload : Payload

-- clusterMaxFrame of tcptransport.go
abbrev pub max_decode_len : ℕ
max_decode_len = 2 ^ 28

-- writeStr
unfoldable pub write_str : Bytes → Bytes
write_str s = be 4 (length s) ++ s

-- FrameKind
abbrev pub kind_byte : Payload → ℕ
kind_byte (msg m) = 0
kind_byte (batch b) = 1
kind_byte (catchup_req l e) = 2
kind_byte (snapshot_req l e) = 3
kind_byte (snapshot l s e) = 4
kind_byte (hello a) = 5
kind_byte subscribe = 6
kind_byte (topology a e) = 7

-- The switch of EncodeFrame, in two parts: all but a trailing epoch, and that epoch.
unfoldable pub encode_body : Payload → Bytes
unfolding write_str encode_batch
encode_body (msg m) = m.kind ∷ (be 8 m.epoch ++ (be 8 m.lsn ++ (be 8 m.ack_lsn ++ be 8 m.bid)))
encode_body (batch b) = encode_batch b
encode_body (catchup_req l e) = be 8 l
encode_body (snapshot_req l e) = be 8 l
encode_body (snapshot l s e) = be 8 l ++ (be 8 (length s) ++ s)
encode_body (hello a) = write_str a
encode_body subscribe = []
encode_body (topology a e) = write_str a ++ be 8 e

unfoldable pub encode_trailer : Payload → Bytes
encode_trailer (msg m) = be 8 m.last_epoch
encode_trailer (batch b) = be 8 b.epoch
encode_trailer (catchup_req l e) = be 8 e
encode_trailer (snapshot_req l e) = be 8 e
encode_trailer (snapshot l s e) = be 8 e
encode_trailer (hello a) = []
encode_trailer subscribe = []
encode_trailer (topology a e) = []

abbrev pub encode_with : Frame → Bytes → Bytes
encode_with f payload = kind_byte f.payload ∷ (write_str f.from ++ (write_str f.to ++ payload))

-- EncodeFrame
unfoldable pub encode_frame : Frame → Bytes
unfolding encode_body encode_trailer write_str
encode_frame f = encode_with f (encode_body f.payload ++ encode_trailer f.payload)

-- io.EOF, io.ErrUnexpectedEOF and the limits, and those of the batch codec
pub data FrameError : Type 0 where
  frame_end frame_cut string_too_long snapshot_too_long unknown_kind too_many field_long :
      FrameError

pub data Got (A : Type 0) : Type 0 where
  got : (a : A) → (rest : Bytes) → Got A
  bad : (error : FrameError) → Got A

module _ {A B : Type 0} where
  abbrev pub and_got : Got B → (B → Bytes → Got A) → Got A
  and_got (bad x) k = bad x
  and_got (got b rest) k = k b rest

-- A read of `n` bytes, under unexpectedEOF.
abbrev pub of_read : Option (Bytes × Bytes) → Got Bytes
of_read none = bad frame_cut
of_read (some (taken, rest)) = got taken rest

unfoldable pub read_bytes : ℕ → Bytes → Got Bytes
unfolding read_full
read_bytes n r = of_read (read_full n r)

abbrev pub str_data : ℕ → Bytes → Got Bytes
str_data n r =
    if n == 0
    then got [] r
    else if ltb max_decode_len n
    then bad string_too_long
    else read_bytes n r

-- readStr
unfoldable pub read_str : Bytes → Got Bytes
unfolding read_bytes
read_str r = and_got (read_bytes 4 r) (λ l r1. str_data (of_be 0 l) r1)

-- readU64
unfoldable pub read_u64 : Bytes → Got ℕ
unfolding read_bytes
read_u64 r = and_got (read_bytes 8 r) (λ w r1. got (of_be 0 w) r1)

-- readOptionalU64
unfoldable pub read_optional_u64 : Bytes → Got ℕ
unfolding read_u64
read_optional_u64 [] = got 0 []
read_optional_u64 (x ∷ r) = read_u64 (x ∷ r)

-- The error of DecodeBatch under unexpectedEOF.
abbrev pub batch_error : DecodeError → FrameError
batch_error end_of_input = frame_cut
batch_error unexpected_end = frame_cut
batch_error too_many_mutations = too_many
batch_error field_too_long = field_long

abbrev pub of_decoded : Decoded MutationBatch → Got MutationBatch
of_decoded (decoded b r) = got b r
of_decoded (failed x) = bad (batch_error x)

abbrev pub snapshot_data : ℕ → Bytes → Got Bytes
snapshot_data n r = if ltb max_decode_len n then bad snapshot_too_long else read_bytes n r

-- The cases of DecodeFrame.
abbrev pub decode_msg : Bytes → Got Payload
decode_msg r = and_got (read_bytes 1 r) (λ t r1. and_got (read_u64 r1) (λ epoch r2.
    and_got (read_u64 r2) (λ lsn r3. and_got (read_u64 r3) (λ ack_lsn r4.
      and_got (read_u64 r4) (λ bid r5. and_got (read_optional_u64 r5) (λ last_epoch r6.
        got
          (msg (record {
            kind = of_be 0 t;
            epoch = epoch;
            lsn = lsn;
            ack_lsn = ack_lsn;
            bid = bid;
            last_epoch = last_epoch;
          }))
          r6))))))

abbrev pub decode_batch_frame : Bytes → Got Payload
decode_batch_frame r = and_got (of_decoded (decode_batch r)) (λ b r1.
    and_got (read_optional_u64 r1) (λ epoch r2. got (batch (record b { epoch = epoch })) r2))

abbrev pub decode_request : (ℕ → ℕ → Payload) → Bytes → Got Payload
decode_request k r =
    and_got (read_u64 r) (λ l r1. and_got (read_optional_u64 r1) (λ e r2. got (k l e) r2))

abbrev pub decode_snapshot : Bytes → Got Payload
decode_snapshot r = and_got (read_u64 r) (λ l r1. and_got (read_u64 r1) (λ n r2.
    and_got (snapshot_data n r2)
      (λ s r3. and_got (read_optional_u64 r3) (λ e r4. got (snapshot l s e) r4))))

abbrev pub decode_topology : Bytes → Got Payload
decode_topology r =
    and_got (read_str r) (λ a r1. and_got (read_u64 r1) (λ e r2. got (topology a e) r2))

unfoldable pub decode_payload : ℕ → Bytes → Got Payload
unfolding read_bytes read_str read_u64 read_optional_u64 decode_batch
decode_payload kind r =
    if kind == 0
    then decode_msg r
    else if kind == 1
    then decode_batch_frame r
    else if kind == 2
    then decode_request catchup_req r
    else if kind == 3
    then decode_request snapshot_req r
    else if kind == 4
    then decode_snapshot r
    else if kind == 5
    then and_got (read_str r) (λ a r1. got (hello a) r1)
    else if kind == 6
    then got subscribe r
    else if kind == 7
    then decode_topology r
    else bad unknown_kind

-- DecodeFrame
unfoldable pub decode_frame : Bytes → Got Frame
unfolding decode_payload read_str
decode_frame [] = bad frame_end
decode_frame (kind ∷ r) = and_got (read_str r) (λ from r1. and_got (read_str r1) (λ to r2.
    and_got (decode_payload kind r2)
      (λ payload r3. got (record { from = from; to = to; payload = payload }) r3)))
