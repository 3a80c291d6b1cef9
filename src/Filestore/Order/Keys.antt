-- ===== src/Filestore/Order/Keys.antt =====
-- Keys of separator-free names determine the queue and the state.
use corndogs.Prelude.{
  ◌≡◌, ◌↔◌, refl, ap₂, subst, [], ◌∷◌, ◌++◌, true, false, arith, ◌==◌, append_assoc, All,
}
use corndogs.Bytes.{Bytes, has_prefix, cut}
use corndogs.Bytes.Laws.{has_prefix-append}
use corndogs.Filestore.Task.{Task}
use corndogs.Filestore.Order.{
  sep, task_prefix, encode_task_key, encode_priority_desc, encode_time_asc, parse_key_queue_state,
}

-- A name with no separator in it, as the source assumes of queue and state names.
abbrev pub IsName : Bytes → Type 0
IsName = All (λ c. (c == sep) ≡ false)

pub cut-name : (n rest : Bytes) → IsName n → cut sep (n ++ sep ∷ rest) ≡ (n, rest)
unfolding cut
cut-name [] rest h = refl
cut-name (x ∷ xs) rest h = ground (arith, cut-name xs rest)

key_lem :
    (t : Task)
    → encode_task_key t
      ≡ t.queue
        ++ sep
          ∷ (t.current_state
              ++ sep
                ∷ (encode_priority_desc t.priority ++ (encode_time_asc t.update_time ++ t.uuid)))
unfolding encode_task_key task_prefix
key_lem t = simp append_assoc

-- A task's key gives back the task's queue and state, if these are free of separators.
pub parse-task_key :
    (t : Task)
    → IsName t.queue
    → IsName t.current_state
    → parse_key_queue_state (encode_task_key t) ≡ (t.queue, t.current_state)
unfolding parse_key_queue_state
parse-task_key t q s = rw (key_lem, cut-name, cut-name)

prefix-name :
    (n m a b : Bytes)
    → IsName n
    → IsName m
    → has_prefix (n ++ sep ∷ a) (m ++ sep ∷ b) ≡ true
    → (n ≡ m) × (has_prefix a b ≡ true)
unfolding has_prefix
prefix-name [] [] a b hn hm h = (refl, h)
prefix-name [] (y ∷ ys) a b hn hm h = ground arith
prefix-name (x ∷ xs) [] a b hn hm h = ground arith
prefix-name (x ∷ xs) (y ∷ ys) a b hn hm h = ground (arith, prefix-name xs ys a b)

-- The part of a key after its prefix.
abbrev after_prefix : Task → Bytes
after_prefix t = encode_priority_desc t.priority ++ (encode_time_asc t.update_time ++ t.uuid)

prefix-in_group :
    (t : Task) (queue state : Bytes)
    → IsName t.queue
    → IsName t.current_state
    → IsName queue
    → IsName state
    → has_prefix (encode_task_key t) (task_prefix queue state) ≡ true
    → (t.queue ≡ queue) × (t.current_state ≡ state)
unfolding task_prefix
prefix-in_group t queue state hq hs kq ks h =
    let first : (t.queue ≡ queue)
        × (has_prefix (t.current_state ++ sep ∷ after_prefix t) (state ++ sep ∷ []) ≡ true) =
      prefix-name t.queue queue (t.current_state ++ sep ∷ after_prefix t) (state ++ sep ∷ []) hq kq
        (subst (λ k. has_prefix k (task_prefix queue state) ≡ true) (key_lem t) h) in
    (first.0, (prefix-name t.current_state state (after_prefix t) [] hs ks first.1).0)

in_group-prefix :
    (t : Task) (queue state : Bytes)
    → (t.queue ≡ queue) × (t.current_state ≡ state)
    → has_prefix (encode_task_key t) (task_prefix queue state) ≡ true
unfolding encode_task_key
in_group-prefix t queue state (e, f) =
    subst (λ p. has_prefix (encode_task_key t) p ≡ true) (ap₂ task_prefix e f)
      (has_prefix-append (task_prefix t.queue t.current_state) (after_prefix t))

-- The key of a task has the prefix of a queue and state exactly when the task is in them, if the
-- names are free of separators.
pub has_prefix-task_key :
    (t : Task) (queue state : Bytes)
    → IsName t.queue
    → IsName t.current_state
    → IsName queue
    → IsName state
    → (has_prefix (encode_task_key t) (task_prefix queue state) ≡ true)
      ↔ ((t.queue ≡ queue) × (t.current_state ≡ state))
has_prefix-task_key t queue state hq hs kq ks =
    (prefix-in_group t queue state hq hs kq ks, in_group-prefix t queue state)
