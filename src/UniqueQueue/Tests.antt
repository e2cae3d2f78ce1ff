-- ===== src/UniqueQueue/Tests.antt =====
-- A queue in which an item is put again after it has left the set.
use redis_shake.Prelude.{true, ◌≤◌, ◌+◌, ◌≡◌, [], Bytes, codes, refl, arith}
use redis_shake.Go.Strings.{contains}
use redis_shake.UniqueQueue.{
  deliver, deliver_step, close, close_step, finish, finish_step, len, Queue, new_queue, remove,
  delete, put, send, receive, release, put_step, send_step, receive_step, release_step, Reachable,
  start, next,
}
use redis_shake.UniqueQueue.Drained.{Reachable-drained}
use redis_shake.UniqueQueue.Once.{count, IsQueue, Reachable-IsQueue}

abbrev key : Bytes
key = codes "k"

-- Put twice, sent, received, taken out of the set, and put again.
abbrev again : Queue
again = put key (release key (receive key [] (send key (put key (put key new_queue)))))

again-Reachable : Reachable 4 again
unfolding new_queue put send receive release contains remove delete len
again-Reachable =
    next
      (next
        (next
          (next (next (next start (put_step key _)) (put_step key _))
            (send_step key _ refl (omega arith) refl))
          (receive_step key [] _ refl refl))
        (release_step key _ refl))
      (put_step key _)

-- The key is delivered, sent once more, delivered, and the queue closed.
abbrev closing : Queue
closing = finish (close (deliver key (release key (receive key [] (send key (deliver key again))))))

closing-Reachable : Reachable 4 closing
unfolding new_queue put send receive release deliver close finish contains remove delete len
closing-Reachable =
    next
      (next
        (next
          (next
            (next
              (next (next again-Reachable (deliver_step key _ refl))
                (send_step key _ refl (omega arith) refl))
              (receive_step key [] _ refl refl))
            (release_step key _ refl))
          (deliver_step key _ refl))
        (close_step _ refl))
      (finish_step _ refl refl refl refl)

Reachable-drained_example :
    (len closing ≤ 4)
    × (closing.finished ≡ true
        → (z : Bytes)
        → count z closing.accepted ≡ count z closing.putting + count z closing.delivered)
Reachable-drained_example = Reachable-drained 4 closing closing-Reachable

Reachable-IsQueue_example : IsQueue again
Reachable-IsQueue_example = Reachable-IsQueue 4 again again-Reachable
