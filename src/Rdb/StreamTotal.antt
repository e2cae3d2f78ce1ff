-- ===== src/Rdb/StreamTotal.antt =====
-- The reader of the streams of backend/internal/rdb/types/stream.go ends on every input.
use redis_shake.Prelude.{
  ℕ, zero, suc, ◌+◌, ◌<◌, ◌≤◌, Bool, true, false, ◌&&◌, List, [], ◌∷◌, Bytes, length, drop, ltb,
  leb, ◌==◌, if◌then◌else◌, arith,
}
use redis_shake.Prelude.Int.{ℤ, pos, negsuc, eq_ℤ}
use redis_shake.Go.Outcome.{Outcome}
use redis_shake.Go.Outcome.Rules.{Ends, ended, stopped, if-Ends, bind-Ends, weaken}
use redis_shake.Go.Int64.{bit_0, bit_1}
use redis_shake.Go.Strconv.{Parsed, parse_int}
use redis_shake.Structure.Reader.Takes.{
  Takes, return-Takes, fail-Takes, lift-Takes, any-Takes, if-Takes, bind-Takes, read_bytes-Takes,
  read_uint-Takes,
}
use redis_shake.Structure.Total.{read_length-Takes, read_string-Takes}
use redis_shake.Structure.PackedTotal.{read_listpack-Takes}
use redis_shake.Rdb.Commands.{int_bound}
use redis_shake.Rdb.Total.{repeat-Takes, counted-Takes, after_del-Takes}
use redis_shake.Rdb.StreamEntries.{
  Cursor, ◌>>=◌, integer_of, next_string, next_integer, next_strings, same_fields, own_fields,
  Master, master_entry, stream_entry, stream_entries, stream_listpack,
}
use redis_shake.Rdb.Streams.{
  skip_lengths, read_stream_node, read_id, read_raw_id, Pel, read_pel, skip_times, read_consumer,
  read_group, read_stream, rewrite_stream,
}

-- `m` ends, and takes at least `k` elements where it does not panic.
record Moves {A : Type 0} (k : ℕ) (m : Cursor A) : Type 0 where
  ends : (s : List Bytes) → Ends (λ r. k + length r.1 ≤ length s) (m s)

module _ {A B : Type 0} where
  bind-Moves :
      {k : ℕ} {m : Cursor A} {f : A → Cursor B}
      → Moves k m
      → ((a : A) → Moves 0 (f a))
      → Moves k (m >>= f)
  bind-Moves h g = record {
    ends = λ s.
        bind-Ends (h.ends s) (λ r e l. weaken ((g r.0).ends r.1) (λ q l'. omega (arith, l, l')));
  }

module _ {A : Type 0} where
  any-Moves : {m : Cursor A} → Moves 1 m → Moves 0 m
  any-Moves h = record { ends = λ s. weaken (h.ends s) (λ r l. omega (arith, l)) }

  if-Moves :
      {k : ℕ} {x y : Cursor A} (b : Bool) → Moves k x → Moves k y → Moves k (if b then x else y)
  if-Moves true hx hy = hx
  if-Moves false hx hy = hy

  return-Moves : (a : A) → Moves 0 (redis_shake.Rdb.StreamEntries.return a)
  return-Moves a = record { ends = λ s. ended (omega arith) }

next_string-Ends : (s : List Bytes) → Ends (λ r. 1 + length r.1 ≤ length s) (next_string s)
unfolding next_string
next_string-Ends [] = stopped
next_string-Ends (e ∷ s) = ended (omega arith)

next_string-Moves : Moves 1 next_string
next_string-Moves = record { ends = next_string-Ends }

integer_of-Moves : (p : Parsed) → Moves 0 (integer_of p)
integer_of-Moves (Parsed.parsed i) = record { ends = λ s. ended (omega arith) }
integer_of-Moves Parsed.bad_syntax = record { ends = λ s. stopped }
integer_of-Moves (Parsed.bad_range i) = record { ends = λ s. stopped }

next_integer-Moves : Moves 1 next_integer
unfolding next_integer
next_integer-Moves = bind-Moves next_string-Moves (λ e. integer_of-Moves (parse_int e))

length-drop : (n : ℕ) (s : List Bytes) → 0 + length (drop n s) ≤ length s
length-drop zero s = omega arith
length-drop (suc n) [] = omega arith
length-drop (suc n) (c ∷ s) = omega (arith, length-drop n s)

next_strings-Moves : (n : ℤ) → Moves 0 (next_strings n)
unfolding next_strings
next_strings-Moves (negsuc n) = record { ends = λ s. stopped }
next_strings-Moves (pos n) = record {
  ends = λ s. if-Ends (ltb (length s) n) stopped (ended (length-drop n s));
}

same_fields-Moves : (fields : List Bytes) → Moves 0 (same_fields fields)
unfolding same_fields
same_fields-Moves [] = return-Moves []
same_fields-Moves (f ∷ fs) =
    bind-Moves (any-Moves next_string-Moves)
      (λ v. bind-Moves (same_fields-Moves fs) (λ args. return-Moves _))

stream_entry-Moves :
    (key : Bytes) (ms seq : ℤ) (fields : List Bytes) → Moves 1 (stream_entry key ms seq fields)
unfolding stream_entry own_fields
stream_entry-Moves key ms seq fields = bind-Moves next_integer-Moves (λ flags.
    bind-Moves (any-Moves next_integer-Moves) (λ m. bind-Moves (any-Moves next_integer-Moves) (λ s.
      bind-Moves
        (if-Moves (bit_1 flags) (same_fields-Moves fields)
          (bind-Moves (any-Moves next_integer-Moves) (λ n. next_strings-Moves _)))
        (λ args. bind-Moves (any-Moves next_string-Moves) (λ lp. return-Moves _)))))

choose-Ends :
    {A : Type 0} {P : A → Type 0} (b : Bool) (x y : Outcome A)
    → Ends P x
    → Ends P y
    → Ends P (elim b [ true ↦ x | false ↦ y ])
choose-Ends true x y hx hy = hx
choose-Ends false x y hx hy = hy

stream_entries-Ends :
    (fuel : ℕ) (key : Bytes) (ms seq : ℤ) (fields : List Bytes) (count deleted : ℤ) (s : List Bytes)
    → length s < fuel
    → Ends (λ cmds. Unit {0}) (stream_entries fuel key ms seq fields count deleted s)
unfolding stream_entries
stream_entries-Ends zero key ms seq fields count deleted s h = absurd (omega arith)
stream_entries-Ends (suc fuel) key ms seq fields count deleted s h =
    choose-Ends (eq_ℤ count (pos 0) && eq_ℤ deleted (pos 0)) _ _ (ended tt) (
      bind-Ends ((stream_entry-Moves key ms seq fields).ends s) (λ r e l.
        choose-Ends (bit_0 r.0.0) _ _
          (stream_entries-Ends fuel key ms seq fields count _ r.1 (omega (arith, l)))
          (bind-Ends (stream_entries-Ends fuel key ms seq fields _ deleted r.1 (omega (arith, l)))
            (λ cmds e' h'. ended tt))))

master-Moves : Moves 0 master_entry
unfolding master_entry
master-Moves = bind-Moves (any-Moves next_integer-Moves) (λ c.
    bind-Moves (any-Moves next_integer-Moves) (λ d. bind-Moves (any-Moves next_integer-Moves) (λ n.
      bind-Moves (next_strings-Moves n) (λ f.
        bind-Moves (any-Moves next_string-Moves)
          (λ l. if-Moves _ (return-Moves _) (record { ends = λ s. stopped }))))))

stream_listpack-Ends :
    (key : Bytes) (ms seq : ℤ) (s : List Bytes)
    → Ends (λ cmds. Unit {0}) (stream_listpack key ms seq s)
unfolding stream_listpack
stream_listpack-Ends key ms seq s =
    bind-Ends (master-Moves.ends s)
      (λ r e l. stream_entries-Ends _ key ms seq _ _ _ r.1 (omega arith))

pub skip_lengths-Takes : (n : ℕ) → Takes 0 (skip_lengths n)
unfolding skip_lengths
skip_lengths-Takes zero = return-Takes tt
skip_lengths-Takes (suc n) = bind-Takes (any-Takes read_length-Takes) (λ l. skip_lengths-Takes n)

node-Takes : (key : Bytes) → Takes 0 (read_stream_node key)
unfolding read_stream_node
node-Takes key = bind-Takes (any-Takes read_string-Takes) (λ k.
    if-Takes (ltb (length k) 16) fail-Takes (
      bind-Takes (any-Takes read_listpack-Takes)
        (λ es. lift-Takes (stream_listpack-Ends key _ _ es))))

id-Takes : Takes 0 read_id
unfolding read_id
id-Takes =
    bind-Takes (any-Takes read_length-Takes)
      (λ m. bind-Takes (any-Takes read_length-Takes) (λ s. return-Takes _))

raw_id-Takes : Takes 0 read_raw_id
unfolding read_raw_id
raw_id-Takes = bind-Takes (read_bytes-Takes 16) (λ b. return-Takes _)

pel-Takes : (n : ℕ) (pel : Pel) → Takes 0 (read_pel n pel)
unfolding read_pel
pel-Takes zero pel = return-Takes pel
pel-Takes (suc n) pel = bind-Takes raw_id-Takes (λ i.
    bind-Takes read_uint-Takes.1.1.1.1
      (λ t. bind-Takes (any-Takes read_length-Takes) (λ c. pel-Takes n _)))

consumer-Takes :
    (key : Bytes) (t : ℕ) (group : Bytes) (pel : Pel) → Takes 0 (read_consumer key t group pel)
unfolding read_consumer skip_times
consumer-Takes key t group pel = bind-Takes (any-Takes read_string-Takes) (λ n.
    bind-Takes
      (bind-Takes read_uint-Takes.1.1.1.1 (λ seen.
        if-Takes (leb 21 t) (bind-Takes read_uint-Takes.1.1.1.1 (λ a. return-Takes tt))
          (return-Takes tt)))
      (λ times. counted-Takes (bind-Takes raw_id-Takes (λ i. return-Takes _))))

group-Takes : (key : Bytes) (t : ℕ) → Takes 0 (read_group key t)
unfolding read_group
group-Takes key t = bind-Takes (any-Takes read_string-Takes) (λ g. bind-Takes id-Takes (λ l.
    bind-Takes (skip_lengths-Takes _) (λ o. bind-Takes (any-Takes read_length-Takes) (λ n.
      bind-Takes (pel-Takes _ []) (λ pel. bind-Takes (any-Takes read_length-Takes) (λ c.
        bind-Takes (repeat-Takes (int_bound c) (consumer-Takes key t g pel))
          (λ cmds. return-Takes _)))))))

stream-Takes : (key : Bytes) (t : ℕ) → Takes 0 (read_stream key t)
unfolding read_stream
stream-Takes key t = bind-Takes (any-Takes read_length-Takes) (λ n.
    bind-Takes (repeat-Takes (int_bound n) (node-Takes key)) (λ es.
      bind-Takes (any-Takes read_length-Takes) (λ c. bind-Takes id-Takes (λ l.
        bind-Takes (skip_lengths-Takes _) (λ s. bind-Takes (any-Takes read_length-Takes) (λ g.
          bind-Takes (repeat-Takes (int_bound g) (group-Takes key t)) (λ gs. return-Takes _)))))))

pub rewrite_stream-Takes : (key : Bytes) (t : ℕ) → Takes 0 (rewrite_stream key t)
unfolding rewrite_stream
rewrite_stream-Takes key t = after_del-Takes key (
    if-Takes (t == 15) (stream-Takes key t) (
      if-Takes (t == 19) (stream-Takes key t) (if-Takes (t == 21) (stream-Takes key t) fail-Takes)))
