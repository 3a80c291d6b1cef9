-- ===== src/Clustering/FrameCodec/Fields.antt =====
-- Reading back the fields of a frame.
use corndogs.Prelude.{
  ℕ, ◌≤◌, ◌≡◌, refl, ap, ◌∙◌, false, [], ◌∷◌, ◌++◌, append_assoc, ltb, ◌==◌, length, arith,
}
use corndogs.Bytes.{be_onto, Bytes, IsWord64, be}
use corndogs.Filestore.Replication.Wire.RoundTrip.{read_full-append, read_word, of_be-be}
use corndogs.Clustering.FrameCodec.{
  max_decode_len, write_str, got, of_read, read_bytes, str_data, read_str, read_u64,
  read_optional_u64,
}

pub read_bytes-append : (s rest : Bytes) → read_bytes (length s) (s ++ rest) ≡ got s rest
unfolding read_bytes
read_bytes-append s rest = ap of_read (read_full-append s rest)

pub read_u64-be : (v : ℕ) (rest : Bytes) → IsWord64 v → read_u64 (be 8 v ++ rest) ≡ got v rest
unfolding read_u64 read_bytes
read_u64-be v rest h = rw (read_word 8 v rest, of_be-be 8 v (omega (arith, h))) refl

str_data-append :
    (s rest : Bytes) → length s ≤ max_decode_len → str_data (length s) (s ++ rest) ≡ got s rest
str_data-append [] rest h = refl
str_data-append (x ∷ s) rest h =
    let t : ltb max_decode_len (length (x ∷ s)) ≡ false = ground (arith, h) in
    let u : (length (x ∷ s) == 0) ≡ false = ground arith in
    rw (u, t) (read_bytes-append (x ∷ s) rest)

pub read_str-write_str :
    (s rest : Bytes) → length s ≤ max_decode_len → read_str (write_str s ++ rest) ≡ got s rest
unfolding read_str write_str read_bytes
read_str-write_str s rest h =
    rw
      (
        append_assoc (be 4 (length s)) s rest,
        read_word 4 (length s) (s ++ rest),
        of_be-be 4 (length s) (omega (arith, h)),
      )
      (str_data-append s rest h)

read_optional-some : (v : ℕ) → read_optional_u64 (be 8 v) ≡ read_u64 (be 8 v ++ [])
unfolding read_optional_u64 be be_onto
read_optional-some v = refl

pub read_optional-be : (v : ℕ) → IsWord64 v → read_optional_u64 (be 8 v) ≡ got v []
read_optional-be v h = read_optional-some v ∙ read_u64-be v [] h

pub read_optional-end : read_optional_u64 [] ≡ got 0 []
unfolding read_optional_u64
read_optional-end = refl
