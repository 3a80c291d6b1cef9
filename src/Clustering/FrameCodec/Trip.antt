-- ===== src/Clustering/FrameCodec/Trip.antt =====
-- An encoded frame decodes to itself, and so does one without its trailing epoch.
use corndogs.Prelude.{
  ℕ, ◌≤◌, ◌<◌, ◌≡◌, refl, sym, ap, ◌∙◌, false, [], ◌∷◌, ◌++◌, append_assoc, append-nil, ltb, length,
  All, arith,
}
use corndogs.Bytes.{Bytes, IsWord64, be, of_be}
use corndogs.Filestore.Replication.{MutationBatch}
use corndogs.Filestore.Replication.Wire.{encode_batch, max_batch_mutations}
use corndogs.Filestore.Replication.Wire.RoundTrip.{Fits, decode-encode_batch}
use corndogs.Clustering.FrameCodec.{
  decode_topology, decode_batch_frame, decode_snapshot, decode_request, WireMessage, Payload, msg,
  batch, catchup_req, snapshot_req, snapshot, hello, subscribe, topology, Frame, max_decode_len,
  write_str, kind_byte, encode_body, encode_trailer, encode_with, encode_frame, got,
  read_optional_u64, decode_payload, decode_frame,
}
use corndogs.Clustering.FrameCodec.Fields.{
  read_bytes-append, read_u64-be, read_str-write_str, read_optional-be, read_optional-end,
}

-- The trailing epoch of a payload, set to 0.
abbrev pub without_epoch : Payload → Payload
without_epoch (msg m) = msg (record m { last_epoch = 0 })
without_epoch (batch b) = batch (record b { epoch = 0 })
without_epoch (catchup_req l e) = catchup_req l 0
without_epoch (snapshot_req l e) = snapshot_req l 0
without_epoch (snapshot l s e) = snapshot l s 0
without_epoch (hello a) = hello a
without_epoch subscribe = subscribe
without_epoch (topology a e) = topology a e

-- Words are 64-bit, the type of a message is a byte, and texts and snapshots are within the cap.
abbrev pub FitsPayload : Payload → Type 0
FitsPayload (msg m) =
    (m.kind < 256)
    × IsWord64 m.epoch
    × IsWord64 m.lsn
    × IsWord64 m.ack_lsn
    × IsWord64 m.bid
    × IsWord64 m.last_epoch
FitsPayload (batch b) =
    IsWord64 b.lsn
    × (length b.mutations ≤ max_batch_mutations)
    × All Fits b.mutations
    × IsWord64 b.epoch
FitsPayload (catchup_req l e) = IsWord64 l × IsWord64 e
FitsPayload (snapshot_req l e) = IsWord64 l × IsWord64 e
FitsPayload (snapshot l s e) = IsWord64 l × (length s ≤ max_decode_len) × IsWord64 e
FitsPayload (hello a) = length a ≤ max_decode_len
FitsPayload subscribe = Unit {0}
FitsPayload (topology a e) = (length a ≤ max_decode_len) × IsWord64 e

-- A trailer that reads as the epoch `e`.
abbrev Trails : Bytes → ℕ → Type 0
Trails t e = read_optional_u64 t ≡ got e []

of_be-byte : (x : ℕ) → of_be 0 (x ∷ []) ≡ x
unfolding of_be
of_be-byte x = omega arith

msg-trip :
    (m : WireMessage) (t : Bytes) (e : ℕ)
    → FitsPayload (msg m)
    → Trails t e
    → decode_payload 0 (encode_body (msg m) ++ t) ≡ got (msg (record m { last_epoch = e })) []
unfolding decode_payload encode_body
msg-trip m t e h k =
    let l : Bytes = be 8 m.lsn in
    let a : Bytes = be 8 m.ack_lsn in
    let b : Bytes = be 8 m.bid in
    rw
      (
        append_assoc (be 8 m.epoch) (l ++ (a ++ b)) t,
        append_assoc l (a ++ b) t,
        append_assoc a b t,
        read_u64-be m.epoch (l ++ (a ++ (b ++ t))) h.1,
        read_u64-be m.lsn (a ++ (b ++ t)) h.2,
        read_u64-be m.ack_lsn (b ++ t) h.3,
        read_u64-be m.bid t h.4,
        k,
        of_be-byte m.kind,
      )
      refl

request-trip :
    (make : ℕ → ℕ → Payload) (l : ℕ) (t : Bytes) (e : ℕ)
    → IsWord64 l
    → Trails t e
    → decode_request make (be 8 l ++ t) ≡ got (make l e) []
request-trip make l t e h k = rw (read_u64-be l t h, k) refl

batch-trip :
    (b : MutationBatch) (t : Bytes) (e : ℕ)
    → FitsPayload (batch b)
    → Trails t e
    → decode_batch_frame (encode_batch b ++ t) ≡ got (batch (record b { epoch = e })) []
batch-trip b t e h k = rw (decode-encode_batch b t h.0 h.1 h.2, k) refl

snapshot-trip :
    (l : ℕ) (s t : Bytes) (e : ℕ)
    → IsWord64 l
    → length s ≤ max_decode_len
    → Trails t e
    → decode_snapshot ((be 8 l ++ (be 8 (length s) ++ s)) ++ t) ≡ got (snapshot l s e) []
snapshot-trip l s t e h w k =
    let u : ltb max_decode_len (length s) ≡ false = ground (arith, w) in
    rw
      (
        append_assoc (be 8 l) (be 8 (length s) ++ s) t,
        append_assoc (be 8 (length s)) s t,
        read_u64-be l (be 8 (length s) ++ (s ++ t)) h,
        read_u64-be (length s) (s ++ t) (omega (arith, w)),
        u,
        read_bytes-append s t,
        k,
      )
      refl

topology-trip :
    (a t : Bytes) (e : ℕ)
    → length a ≤ max_decode_len
    → IsWord64 e
    → decode_topology ((write_str a ++ be 8 e) ++ t) ≡ got (topology a e) t
topology-trip a t e h k =
    rw
      (
        append_assoc (write_str a) (be 8 e) t,
        read_str-write_str a (be 8 e ++ t) h,
        read_u64-be e t k,
      )
      refl

payload-trip :
    (p : Payload)
    → FitsPayload p
    → (decode_payload (kind_byte p) (encode_body p ++ encode_trailer p) ≡ got p [])
      × (decode_payload (kind_byte p) (encode_body p) ≡ got (without_epoch p) [])
unfolding encode_trailer
payload-trip (msg m) h = (
  msg-trip m (be 8 m.last_epoch) m.last_epoch h (read_optional-be m.last_epoch h.5),
  ap (decode_payload 0) (sym (append-nil (encode_body (msg m))))
      ∙ msg-trip m [] 0 h read_optional-end,
)
payload-trip (batch b) h =
    unfold decode_payload encode_body in
    (
      batch-trip b (be 8 b.epoch) b.epoch h (read_optional-be b.epoch h.3),
      ap decode_batch_frame (sym (append-nil (encode_batch b)))
          ∙ batch-trip b [] 0 h read_optional-end,
    )
payload-trip (catchup_req l e) h =
    unfold decode_payload encode_body in
    (
      request-trip catchup_req l (be 8 e) e h.0 (read_optional-be e h.1),
      ap (decode_request catchup_req) (sym (append-nil (be 8 l)))
          ∙ request-trip catchup_req l [] 0 h.0 read_optional-end,
    )
payload-trip (snapshot_req l e) h =
    unfold decode_payload encode_body in
    (
      request-trip snapshot_req l (be 8 e) e h.0 (read_optional-be e h.1),
      ap (decode_request snapshot_req) (sym (append-nil (be 8 l)))
          ∙ request-trip snapshot_req l [] 0 h.0 read_optional-end,
    )
payload-trip (snapshot l s e) h =
    unfold decode_payload encode_body in
    (
      snapshot-trip l s (be 8 e) e h.0 h.1 (read_optional-be e h.2),
      ap decode_snapshot (sym (append-nil (be 8 l ++ (be 8 (length s) ++ s))))
          ∙ snapshot-trip l s [] 0 h.0 h.1 read_optional-end,
    )
payload-trip (hello a) h =
    unfold decode_payload encode_body in
    (
      rw (read_str-write_str a [] h) refl,
      rw (sym (append-nil (write_str a)), read_str-write_str a [] h) refl,
    )
payload-trip subscribe h = unfold decode_payload encode_body in (refl, refl)
payload-trip (topology a e) h =
    unfold decode_payload encode_body in
    (
      topology-trip a [] e h.0 h.1,
      ap decode_topology (sym (append-nil (write_str a ++ be 8 e))) ∙ topology-trip a [] e h.0 h.1,
    )

frame-trip :
    (f : Frame) (bytes : Bytes) (p : Payload)
    → length f.from ≤ max_decode_len
    → length f.to ≤ max_decode_len
    → decode_payload (kind_byte f.payload) bytes ≡ got p []
    → decode_frame (encode_with f bytes) ≡ got (record f { payload = p }) []
unfolding decode_frame
frame-trip f bytes p h k e =
    rw (read_str-write_str f.from (write_str f.to ++ bytes) h, read_str-write_str f.to bytes k, e)
      refl

-- An encoded frame decodes to itself and leaves nothing. Without its trailing epoch, as an older release
-- sends it, it decodes to the same frame with 0 for that epoch. Its ids, texts and snapshots are at most
-- as long as the cap of the decoder, its numbers are 64-bit words, a message type is a byte, and a batch
-- is within the limits of the batch codec.
pub decode-encode_frame :
    (f : Frame)
    → length f.from ≤ max_decode_len
    → length f.to ≤ max_decode_len
    → FitsPayload f.payload
    → (decode_frame (encode_frame f) ≡ got f [])
      × (decode_frame (encode_with f (encode_body f.payload))
          ≡ got (record f { payload = without_epoch f.payload }) [])
unfolding encode_frame
decode-encode_frame f h k w = (
  frame-trip f (encode_body f.payload ++ encode_trailer f.payload) f.payload h k
      (payload-trip f.payload w).0,
  frame-trip f (encode_body f.payload) (without_epoch f.payload) h k (payload-trip f.payload w).1,
)
