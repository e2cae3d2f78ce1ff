-- ===== src/UniqueQueue.antt =====
-- backend/internal/utils/UniqueQueue.go: a queue that takes no item while the same item waits. The
-- items are strings, the keys that the scan reader puts in. The callers of `Put` and of `Close` and the goroutine of
-- `NewUniqueQueue` take turns in any order: every part of the code between two waits is a step. A send
-- to a closed channel and a second `Close` panic, which ends the program, so they are no steps.
pub mod Once
pub mod Drained
mod Tests
use redis_shake.Prelude.{
  ℕ, ◌<◌, Bool, true, false, List, [], ◌∷◌, ◌++◌, length, Bytes, bytes_eq, ltb, if◌then◌else◌, ◌≡◌,
}
use redis_shake.Go.Strings.{contains}

-- What the goroutine has in hand: nothing, an item that it has received, or one that it has taken
-- out of the set and sends to `Ch`.
pub data Worker : Type 0 where
  idle : Worker
  holding sending : Bytes → Worker

-- The keys of the map `set`; the items whose callers have left the lock and send to the channel;
-- `innerChannel`; the goroutine; and what `Ch` has delivered. `accepted` records the items that `Put`
-- has not refused. `closed` and `finished` say that `innerChannel` and `Ch` are closed.
pub record Queue : Type 0 where
  pub set : List Bytes
  pub putting : List Bytes
  pub inner_channel : List Bytes
  pub worker : Worker
  pub delivered : List Bytes
  pub accepted : List Bytes
  pub closed : Bool
  pub finished : Bool

unfoldable pub new_queue : Queue
new_queue = record {
  set = [];
  putting = [];
  inner_channel = [];
  worker = idle;
  delivered = [];
  accepted = [];
  closed = false;
  finished = false;
}

-- One of several equal items is gone.
unfoldable pub remove : Bytes → List Bytes → List Bytes
remove x [] = []
remove x (y ∷ ys) = let rest = remove x ys in if bytes_eq x y then ys else y ∷ rest

-- `delete(mc.set, item)`.
unfoldable pub delete : Bytes → List Bytes → List Bytes
delete x [] = []
delete x (y ∷ ys) = let rest = delete x ys in if bytes_eq x y then rest else y ∷ rest

-- `Put` under the lock.
unfoldable pub put : Bytes → Queue → Queue
put item q = if contains q.set item then q else record q {
  set = item ∷ q.set;
  putting = item ∷ q.putting;
  accepted = q.accepted ++ item ∷ [];
}

-- `mc.innerChannel <- item`, where the channel has room.
unfoldable pub send : Bytes → Queue → Queue
send item q = record q {
  putting = remove item q.putting;
  inner_channel = q.inner_channel ++ item ∷ [];
}

-- `for item := range mc.innerChannel`.
unfoldable pub receive : Bytes → List Bytes → Queue → Queue
receive item rest q = record q { inner_channel = rest; worker = holding item }

-- The goroutine under the lock.
unfoldable pub release : Bytes → Queue → Queue
release item q = record q { set = delete item q.set; worker = sending item }

-- `mc.Ch <- item`.
unfoldable pub deliver : Bytes → Queue → Queue
deliver item q = record q { worker = idle; delivered = q.delivered ++ item ∷ [] }

unfoldable pub close : Queue → Queue
close q = record q { closed = true }

-- `close(mc.Ch)`, behind the loop over the channel.
unfoldable pub finish : Queue → Queue
finish q = record q { finished = true }

-- `Len`.
unfoldable pub len : Queue → ℕ
len q = length q.inner_channel

-- The steps of a queue whose channel has room for `size` items.
pub data Step (size : ℕ) : Queue → Queue → Type 0 where
  put_step : (item : Bytes) (q : Queue) → Step size q (put item q)
  send_step :
      (item : Bytes) (q : Queue)
      → contains q.putting item ≡ true
      → len q < size
      → q.closed ≡ false
      → Step size q (send item q)
  receive_step :
      (item : Bytes) (rest : List Bytes) (q : Queue)
      → q.worker ≡ idle
      → q.inner_channel ≡ item ∷ rest
      → Step size q (receive item rest q)
  release_step : (item : Bytes) (q : Queue) → q.worker ≡ holding item → Step size q (release item q)
  deliver_step : (item : Bytes) (q : Queue) → q.worker ≡ sending item → Step size q (deliver item q)
  close_step : (q : Queue) → q.closed ≡ false → Step size q (close q)
  finish_step :
      (q : Queue)
      → q.worker ≡ idle
      → q.inner_channel ≡ []
      → q.closed ≡ true
      → q.finished ≡ false
      → Step size q (finish q)

pub data Reachable (size : ℕ) : Queue → Type 0 where
  start : Reachable size new_queue
  next : {q r : Queue} → Reachable size q → Step size q r → Reachable size r
