-- ===== src/Rdb/StreamEntries.antt =====
-- The entries in one listpack of a stream: `nextInteger`, `nextString` and the loops over the
-- elements in `readStream` of backend/internal/rdb/types/stream.go.
pub mod RoundTrip
pub mod Replayed
use redis_shake.Prelude.{
  ℕ, zero, suc, ◌+◌, true, false, ◌&&◌, List, [], ◌∷◌, ◌++◌, Bytes, codes, length, take, drop, ltb,
  bytes_eq, if◌then◌else◌,
}
use redis_shake.Prelude.Int.{ℤ, pos, negsuc, eq_ℤ}
use redis_shake.Go.Outcome
use redis_shake.Go.Outcome.{Outcome, ok, panic, diverges, logged, out_of_range}
use redis_shake.Go.Int64.{add, sub, bit_0, bit_1}
use redis_shake.Go.Strconv.{Parsed, format_int, parse_int}
use redis_shake.Rdb.Commands.{RedisCmd}

-- A computation on the elements from the index `inx` on, which moves the index.
abbrev pub Cursor : Type 0 → Type 0
Cursor A = List Bytes → Outcome (A × List Bytes)

infixl 5 ◌>>=◌
abbrev pub ◌>>=◌ : {A B : Type 0} → Cursor A → (A → Cursor B) → Cursor B
◌>>=◌ m f elements = Outcome.◌>>=◌ (m elements) (λ r. f r.0 r.1)

abbrev pub return : {A : Type 0} → A → Cursor A
return a elements = ok (a, elements)

unfoldable pub next_string : Cursor Bytes
next_string [] = panic out_of_range
next_string (ele ∷ elements) = ok (ele, elements)

abbrev pub integer_of : Parsed → Cursor ℤ
integer_of (Parsed.parsed i) elements = ok (i, elements)
integer_of _ elements = panic logged

unfoldable pub next_integer : Cursor ℤ
unfolding next_string
next_integer = do ele ← next_string; integer_of (parse_int ele)

-- `elements[inx:inx+n]`. A slice may reach into the capacity behind the elements; the read of the
-- next element, which follows here, then panics in the same way.
unfoldable pub next_strings : ℤ → Cursor (List Bytes)
next_strings (negsuc n) elements = panic out_of_range
next_strings (pos n) elements =
    if ltb (length elements) n then panic out_of_range else ok (take n elements, drop n elements)

-- The values of an entry that has the fields of the master entry.
unfoldable pub same_fields : List Bytes → Cursor (List Bytes)
same_fields [] = return []
same_fields (field ∷ fields) = do
  value ← next_string
  args ← same_fields fields
  return (field ∷ value ∷ args)

-- The fields and values of an entry that has its own.
unfoldable pub own_fields : Cursor (List Bytes)
own_fields = do num ← next_integer; next_strings (add num num)

-- What the entries of a listpack share: the first ID, and the fields.
pub record Master : Type 0 where
  pub count : ℤ
  pub deleted : ℤ
  pub fields : List Bytes

-- The master entry, which ends with a zero.
unfoldable pub master_entry : Cursor Master
master_entry = do
  count ← next_integer
  deleted ← next_integer
  num_fields ← next_integer
  fields ← next_strings num_fields
  last_entry ← next_string
  (if bytes_eq last_entry (codes "0")
      then return (record { count = count; deleted = deleted; fields = fields })
      else (λ elements. panic logged))

-- `fmt.Sprintf("%v-%v", ms, seq)`.
abbrev pub stream_id : Bytes → Bytes → Bytes
stream_id ms seq = ms ++ b'-' ∷ seq

-- One round of the loop over the entries: the flags, and the command.
unfoldable pub stream_entry : Bytes → ℤ → ℤ → List Bytes → Cursor (ℤ × RedisCmd)
stream_entry key master_ms master_seq fields = do
  flags ← next_integer
  entry_ms ← next_integer
  entry_seq ← next_integer
  args ← (if bit_1 flags then same_fields fields else own_fields)
  lp_count ← next_string
  let id = stream_id (format_int (add entry_ms master_ms)) (format_int (add entry_seq master_seq))
  return (flags, codes "xadd" ∷ key ∷ id ∷ args)

-- `for count != 0 || deleted != 0`. A round takes at least one element, so the elements and one are
-- enough fuel.
unfoldable pub stream_entries :
    ℕ → Bytes → ℤ → ℤ → List Bytes → ℤ → ℤ → List Bytes → Outcome (List RedisCmd)
stream_entries zero key ms seq fields count deleted elements = diverges
stream_entries (suc fuel) key ms seq fields count deleted elements =
    elim (eq_ℤ count (pos 0) && eq_ℤ deleted (pos 0)) [
      | true ↦ ok []
      | false ↦ Outcome.◌>>=◌ (stream_entry key ms seq fields elements) (λ r. elim (bit_0 r.0.0) [
        | true ↦ stream_entries fuel key ms seq fields count (sub deleted (pos 1)) r.1
        | false ↦
            Outcome.◌>>=◌ (stream_entries fuel key ms seq fields (sub count (pos 1)) deleted r.1)
              (λ cmds. ok (r.0.1 ∷ cmds))
      ])
    ]

-- The elements of one listpack.
unfoldable pub stream_listpack : Bytes → ℤ → ℤ → List Bytes → Outcome (List RedisCmd)
stream_listpack key ms seq elements =
    Outcome.◌>>=◌ (master_entry elements)
      (λ r. stream_entries (length r.1 + 1) key ms seq r.0.fields r.0.count r.0.deleted r.1)
