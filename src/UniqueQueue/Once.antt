-- ===== src/UniqueQueue/Once.antt =====
-- No item waits twice, and none is lost or made.
use redis_shake.Prelude.{
  ℕ, ◌+◌, ◌≤◌, true, false, List, [], ◌∷◌, ◌++◌, Bytes, bytes_eq, bytes_eq_iff, if◌then◌else◌, ◌≡◌,
  refl, ap, sym, arith, Bool-cases, inl, inr,
}
use redis_shake.Go.Strings.{contains}
use redis_shake.UniqueQueue.{
  Worker, idle, holding, sending, Queue, new_queue, remove, delete, put, send, receive, release,
  deliver, put_step, send_step, receive_step, release_step, deliver_step, close, close_step, finish,
  finish_step, Reachable, start, next,
}

-- How often an item stands in a list.
abbrev pub hit : Bytes → Bytes → ℕ
hit z x = if bytes_eq z x then 1 else 0

abbrev pub count : Bytes → List Bytes → ℕ
count z [] = 0
count z (x ∷ xs) = hit z x + count z xs

count-append : (z : Bytes) (xs ys : List Bytes) → count z (xs ++ ys) ≡ count z xs + count z ys
count-append z [] ys = omega arith
count-append z (x ∷ xs) ys = omega (arith, count-append z xs ys)

-- The item in hand that is still in the set, and the one that is not.
abbrev pub held : Worker → List Bytes
held idle = []
held (holding x) = x ∷ []
held (sending x) = []

abbrev pub leaving : Worker → List Bytes
leaving idle = []
leaving (holding x) = []
leaving (sending x) = x ∷ []

-- An item is in the set exactly if it waits: with its caller, in the channel, or in the hands of the
-- goroutine. It waits at one place at most. What was accepted waits, leaves, or was delivered.
abbrev pub IsQueue : Queue → Type 0
IsQueue q =
    (z : Bytes)
    → (count z q.set ≡ count z q.putting + count z q.inner_channel + count z (held q.worker))
      × (count z q.set ≤ 1)
      × (count z q.accepted ≡ count z q.set + count z (leaving q.worker) + count z q.delivered)

count-remove :
    (z x : Bytes) (xs : List Bytes)
    → contains xs x ≡ true
    → count z xs ≡ hit z x + count z (remove x xs)
unfolding contains remove
count-remove z x [] h = cc
count-remove z x (y ∷ ys) h = elim (Bool-cases (bytes_eq x y)) [
  | inl e ↦ rw (e) (ap (λ t. hit z t + count z ys) (sym ((bytes_eq_iff x y).0 e)))
  | inr e ↦ ground (arith, e, h, count-remove z x ys)
]

count-delete_other :
    (z x : Bytes) (xs : List Bytes) → bytes_eq z x ≡ false → count z (delete x xs) ≡ count z xs
unfolding delete
count-delete_other z x [] h = refl
count-delete_other z x (y ∷ ys) h = elim (Bool-cases (bytes_eq x y)) [
  | inl e ↦ rw (e, ← (bytes_eq_iff x y).0 e, h) (omega (arith, count-delete_other z x ys h))
  | inr e ↦ rw e (ap (λ n. hit z y + n) (count-delete_other z x ys h))
]

count-delete_same : (x : Bytes) (xs : List Bytes) → count x (delete x xs) ≡ 0
unfolding delete
count-delete_same x [] = refl
count-delete_same x (y ∷ ys) = ground (arith, count-delete_same x ys)

absent-count : (x : Bytes) (xs : List Bytes) → contains xs x ≡ false → count x xs ≡ 0
unfolding contains
absent-count x [] h = refl
absent-count x (y ∷ ys) h = ground (arith, absent-count x ys)

hit_same : (x : Bytes) → hit x x ≡ 1
hit_same x = rw ((bytes_eq_iff x x).1 refl)

fresh_count :
    (z x : Bytes) (xs : List Bytes)
    → contains xs x ≡ false
    → count z xs ≤ 1
    → hit z x + count z xs ≤ 1
fresh_count z x xs h le = elim (Bool-cases (bytes_eq z x)) [
  | inl e ↦ rw ((bytes_eq_iff z x).0 e) (omega (arith, hit_same x, absent-count x xs h))
  | inr e ↦ rw e (omega (arith, le))
]

count-delete :
    (z x : Bytes) (xs : List Bytes) → count x xs ≡ 1 → count z xs ≡ hit z x + count z (delete x xs)
count-delete z x xs h = elim (Bool-cases (bytes_eq z x)) [
  | inl e ↦ rw ((bytes_eq_iff z x).0 e) (omega (arith, h, hit_same x, count-delete_same x xs))
  | inr e ↦ rw e (omega (arith, count-delete_other z x xs e))
]

put-IsQueue : (item : Bytes) (q : Queue) → IsQueue q → IsQueue (put item q)
unfolding put
put-IsQueue item q h z = elim (Bool-cases (contains q.set item)) [
  | inl e ↦ rw e (h z)
  | inr e ↦
      let (waits, once, all) = h z in
      rw e (
        omega (arith, waits),
        fresh_count z item q.set e once,
        omega (arith, all, count-append z q.accepted (item ∷ [])),
      )
]

send-IsQueue :
    (item : Bytes) (q : Queue) → contains q.putting item ≡ true → IsQueue q → IsQueue (send item q)
unfolding send
send-IsQueue item q e h z =
    let (waits, once, all) = h z in
    (
      omega (
        arith,
        waits,
        count-remove z item q.putting e,
        count-append z q.inner_channel (item ∷ []),
      ),
      once,
      all,
    )

receive-IsQueue :
    (item : Bytes) (rest : List Bytes) (q : Queue)
    → q.worker ≡ idle
    → q.inner_channel ≡ item ∷ rest
    → IsQueue q
    → IsQueue (receive item rest q)
unfolding receive
receive-IsQueue item rest q w c h z =
    let (waits, once, all) = h z in
    let here : count z q.inner_channel ≡ hit z item + count z rest = ap (count z) c in
    let none_held : count z (held q.worker) ≡ 0 = ap (λ t. count z (held t)) w in
    let none_leaving : count z (leaving q.worker) ≡ 0 = ap (λ t. count z (leaving t)) w in
    (omega (arith, waits, here, none_held), once, omega (arith, all, none_leaving))

release-IsQueue :
    (item : Bytes) (q : Queue) → q.worker ≡ holding item → IsQueue q → IsQueue (release item q)
unfolding release
release-IsQueue item q w h z =
    let (waits, once, all) = h z in
    let here : count z (held q.worker) ≡ hit z item + 0 = ap (λ t. count z (held t)) w in
    let none_leaving : count z (leaving q.worker) ≡ 0 = ap (λ t. count z (leaving t)) w in
    let (waits_item, once_item, _) = h item in
    let held_item : count item (held q.worker) ≡ hit item item + 0 =
      ap (λ t. count item (held t)) w in
    let gone =
      count-delete z item q.set (omega (arith, waits_item, once_item, held_item, hit_same item)) in
    (
      omega (arith, waits, here, gone),
      omega (arith, once, gone),
      omega (arith, all, none_leaving, gone),
    )

deliver-IsQueue :
    (item : Bytes) (q : Queue) → q.worker ≡ sending item → IsQueue q → IsQueue (deliver item q)
unfolding deliver
deliver-IsQueue item q w h z =
    let (waits, once, all) = h z in
    let none_held : count z (held q.worker) ≡ 0 = ap (λ t. count z (held t)) w in
    let here : count z (leaving q.worker) ≡ hit z item + 0 = ap (λ t. count z (leaving t)) w in
    (
      omega (arith, waits, none_held),
      once,
      omega (arith, all, here, count-append z q.delivered (item ∷ [])),
    )

-- In every state that a queue reaches, whatever the order of the steps: an item waits at one place
-- at most, with its caller, in the channel or with the goroutine, and the set has exactly the items
-- that wait; and every item that `Put` accepted waits, leaves, or was delivered, as many times as it
-- was accepted.
pub Reachable-IsQueue : (size : ℕ) (q : Queue) → Reachable size q → IsQueue q
unfolding new_queue close finish
Reachable-IsQueue size _ start = λ z. (refl, omega arith, refl)
Reachable-IsQueue size _ (next r (put_step item q)) =
    put-IsQueue item q (Reachable-IsQueue size q r)
Reachable-IsQueue size _ (next r (send_step item q e l o)) =
    send-IsQueue item q e (Reachable-IsQueue size q r)
Reachable-IsQueue size _ (next r (receive_step item rest q w c)) =
    receive-IsQueue item rest q w c (Reachable-IsQueue size q r)
Reachable-IsQueue size _ (next r (release_step item q w)) =
    release-IsQueue item q w (Reachable-IsQueue size q r)
Reachable-IsQueue size _ (next r (deliver_step item q w)) =
    deliver-IsQueue item q w (Reachable-IsQueue size q r)
Reachable-IsQueue size _ (next r (close_step q o)) = Reachable-IsQueue size q r
Reachable-IsQueue size _ (next r (finish_step q w e o f)) = Reachable-IsQueue size q r
