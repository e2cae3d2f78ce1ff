-- ===== src/UniqueQueue/Drained.antt =====
-- What is left in a queue whose delivering channel is closed.
use redis_shake.Prelude.{
  ℕ, ◌+◌, ◌≤◌, true, [], ◌∷◌, Bytes, length, length-append, ◌≡◌, ap, Bool-cases, inl, inr, arith,
}
use redis_shake.Go.Strings.{contains}
use redis_shake.UniqueQueue.{
  idle, Queue, new_queue, put, send, receive, release, deliver, close, finish, len, put_step,
  send_step, receive_step, release_step, deliver_step, close_step, finish_step, Reachable, start,
  next,
}
use redis_shake.UniqueQueue.Once.{count, held, leaving, Reachable-IsQueue}

-- The channel holds no more than it has room for, and once `Ch` is closed nothing is on its way.
abbrev IsBounded : ℕ → Queue → Type 0
IsBounded size q =
    (len q ≤ size)
    × (q.finished ≡ true → (q.worker ≡ idle) × ((q.inner_channel ≡ []) × (q.closed ≡ true)))

Reachable-IsBounded : (size : ℕ) (q : Queue) → Reachable size q → IsBounded size q
unfolding new_queue len put send receive release deliver close finish
Reachable-IsBounded size _ start = (omega arith, λ f. cc)
Reachable-IsBounded size _ (next r (put_step item q)) = elim (Bool-cases (contains q.set item)) [
  | inl e ↦ rw e (Reachable-IsBounded size q r)
  | inr e ↦ rw e (Reachable-IsBounded size q r)
]
Reachable-IsBounded size _ (next r (send_step item q e l o)) =
    let (bound, ends) = Reachable-IsBounded size q r in
    (
      omega (arith, l, length-append q.inner_channel (item ∷ [])),
      λ f. ground (arith, (ends f).1.1, o),
    )
Reachable-IsBounded size _ (next r (receive_step item rest q w c)) =
    let (bound, ends) = Reachable-IsBounded size q r in
    (omega (arith, bound, ap length c), λ f. ground (arith, c, (ends f).1.0))
Reachable-IsBounded size _ (next r (release_step item q w)) =
    let (bound, ends) = Reachable-IsBounded size q r in (bound, λ f. ground (arith, w, (ends f).0))
Reachable-IsBounded size _ (next r (deliver_step item q w)) =
    let (bound, ends) = Reachable-IsBounded size q r in (bound, λ f. ground (arith, w, (ends f).0))
Reachable-IsBounded size _ (next r (close_step q o)) =
    let (bound, ends) = Reachable-IsBounded size q r in
    (bound, λ f. ground (arith, (ends f).1.1, o))
Reachable-IsBounded size _ (next r (finish_step q w e o f)) =
    let (bound, ends) = Reachable-IsBounded size q r in (bound, λ g. (w, (e, o)))

-- In every state that a queue reaches, `Len` is at most the size that the queue was made with. Once
-- `Ch` is closed, every item that `Put` has accepted was delivered, as many times as it was accepted,
-- but for those whose callers had not sent them to the channel when it was closed.
pub Reachable-drained :
    (size : ℕ) (q : Queue)
    → Reachable size q
    → (len q ≤ size)
      × (q.finished ≡ true
          → (z : Bytes) → count z q.accepted ≡ count z q.putting + count z q.delivered)
unfolding len
Reachable-drained size q r =
    let (bound, ends) = Reachable-IsBounded size q r in
    (
      bound,
      λ f z.
          let (waits, once, all) = Reachable-IsQueue size q r z in
          let (is_idle, (empty, closed)) = ends f in
          omega (
            arith,
            waits,
            all,
            ap (λ t. count z (held t)) is_idle,
            ap (λ t. count z (leaving t)) is_idle,
            ap (count z) empty,
          ),
    )
