-- ===== src/Filestore/Timeouts/Sweep.antt =====
-- The timeout sweep may stop at the first deadline that has not passed.
use corndogs.Prelude.{
  ℕ, ◌^◌, ◌<◌, ◌≡◌, refl, ap, sym, ◌∙◌, true, false, not, [], ◌∷◌, ◌++◌, length, length-append,
  take, ltb, arith,
}
use corndogs.Bytes.{Bytes, be, less}
use corndogs.Bytes.BigEndian.{length-be_onto}
use corndogs.Filestore.Task.{Task, lt64, flip_sign}
use corndogs.Filestore.Order.{
  encode_time_asc, decode_time_asc, encode_deadline_key, task_deadline, timed_out,
}
use corndogs.Filestore.Order.Dequeue.{decode-encode_time, less-deadline_key}
use corndogs.Filestore.Bolt.{Env}
use corndogs.Filestore.Timeouts.{past}

take-append : (a b : Bytes) → take (length a) (a ++ b) ≡ a
take-append [] b = refl
take-append (x ∷ xs) b = ap (λ r. x ∷ r) (take-append xs b)

length-encode_time : (t : ℕ) → length (encode_time_asc t) ≡ 8
unfolding encode_time_asc be
length-encode_time t = length-be_onto 8 (flip_sign t) []

take-encode_time : (t : ℕ) (b : Bytes) → take 8 (encode_time_asc t ++ b) ≡ encode_time_asc t
take-encode_time t b =
    ap (λ n. take n (encode_time_asc t ++ b)) (sym (length-encode_time t))
    ∙ take-append (encode_time_asc t) b

deadline_word : (t : Task) → task_deadline t < 2 ^ 64
unfolding task_deadline
deadline_word t = omega arith

module _ ⦃e : Env⦄ where
  past-encode_deadline_key :
      (t : Task) (at_time : ℕ)
      → past (encode_deadline_key t) at_time ≡ not (lt64 (task_deadline t) at_time)
  unfolding encode_deadline_key
  past-encode_deadline_key t at_time =
      let len : ltb (length (encode_time_asc (task_deadline t) ++ t.uuid)) 8 ≡ false = ground (
        arith,
        length-append (encode_time_asc (task_deadline t)) t.uuid,
        length-encode_time (task_deadline t),
      ) in
      let time : decode_time_asc (take 8 (encode_time_asc (task_deadline t) ++ t.uuid))
          ≡ task_deadline t =
        ap decode_time_asc (take-encode_time (task_deadline t) t.uuid)
        ∙ decode-encode_time (task_deadline t) (deadline_word t) in
      rw (len, time) refl

  -- When the sweep stops at the deadline entry of a task, no task whose entry comes later in the index
  -- has timed out.
  pub past-timed_out :
      (a b : Task) (at_time : ℕ)
      → past (encode_deadline_key a) at_time ≡ true
      → less (encode_deadline_key a) (encode_deadline_key b) ≡ true
      → timed_out b at_time ≡ false
  unfolding timed_out
  past-timed_out a b at_time p l =
      ground (arith, past-encode_deadline_key a at_time, less-deadline_key a b)
