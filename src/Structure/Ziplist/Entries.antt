-- ===== src/Structure/Ziplist/Entries.antt =====
-- The entries of a ziplist, each in one of its encodings, are read back.
use redis_shake.Prelude.{
  ℕ, ◌+◌, ◌*◌, ◌/◌, ◌%◌, ◌^◌, ◌<◌, ◌≤◌, [], ◌∷◌, ◌++◌, append_assoc, length, Bytes, ltb, ltb→lt,
  Bool-cases, if◌then◌else◌, ◌≡◌, refl, ◌∙◌, arith, inl, inr,
}
use redis_shake.Prelude.Int.{ℤ, pos}
use redis_shake.Go.Outcome.{ok}
use redis_shake.Go.Strconv.{format_int}
use redis_shake.Structure.Reader.{read_byte, read_bytes, ◌>>=◌}
use redis_shake.Structure.Reader.Laws.{
  split_256, le_bytes, be_bytes, length-be_bytes, big_endian-be_bytes, unsigned_of, FitsBits,
  read_bytes-append, read_uint-le_bytes, read_int-le_bytes,
}
use redis_shake.Structure.Ziplist.{
  skip_prevlen, zip_int_04, zip_int_after, zip_entry_after, read_zip_list_entry,
}

-- An element with the encoding that is chosen for it.
pub data Item : Type 0 where
  int4 : ℕ → Item
  int8 int16 int24 int32 int64 : ℤ → Item
  str6 str14 str32 : Bytes → Item

abbrev pub IsItem : Item → Type 0
IsItem (int4 n) = n ≤ 12
IsItem (int8 v) = FitsBits 8 v
IsItem (int16 v) = FitsBits 16 v
IsItem (int24 v) = FitsBits 24 v
IsItem (int32 v) = FitsBits 32 v
IsItem (int64 v) = FitsBits 64 v
IsItem (str6 s) = length s < 2 ^ 6
IsItem (str14 s) = length s < 2 ^ 14
IsItem (str32 s) = length s < 2 ^ 32

-- The text of an element.
abbrev pub item_text : Item → Bytes
item_text (int4 n) = format_int (pos n)
item_text (int8 v) = format_int v
item_text (int16 v) = format_int v
item_text (int24 v) = format_int v
item_text (int32 v) = format_int v
item_text (int64 v) = format_int v
item_text (str6 s) = s
item_text (str14 s) = s
item_text (str32 s) = s

abbrev pub encode_item : Item → Bytes
encode_item (int4 n) = (0xf1 + n) ∷ []
encode_item (int8 v) = 0xfe ∷ unsigned_of 8 v ∷ []
encode_item (int16 v) = 0xc0 ∷ le_bytes 2 (unsigned_of 16 v)
encode_item (int24 v) = 0xf0 ∷ le_bytes 3 (unsigned_of 24 v)
encode_item (int32 v) = 0xd0 ∷ le_bytes 4 (unsigned_of 32 v)
encode_item (int64 v) = 0xe0 ∷ le_bytes 8 (unsigned_of 64 v)
encode_item (str6 s) = length s ∷ s
encode_item (str14 s) = (0x40 + length s / 256) ∷ length s % 256 ∷ s
encode_item (str32 s) = 0x80 ∷ (be_bytes 4 (length s) ++ s)

-- The length of the entry before, in one byte or five, as Redis writes it.
abbrev pub save_prevlen : ℕ → Bytes
save_prevlen p = if ltb p 0xfe then p ∷ [] else 0xfe ∷ le_bytes 4 p

-- The tests on the encoding byte where it keeps a part of the value.
after_int4 :
    (n : ℕ) (s : Bytes) → n ≤ 12 → zip_entry_after (0xf1 + n) s ≡ ok (format_int (pos n), s)
unfolding zip_entry_after zip_int_after zip_int_04
after_int4 n s h = ground arith

after_str6 : (n : ℕ) (s : Bytes) → n < 2 ^ 6 → zip_entry_after n s ≡ read_bytes n s
unfolding zip_entry_after
after_str6 n s h = ground arith

after_str14 :
    (a b : ℕ) (s : Bytes) → a < 64 → zip_entry_after (0x40 + a) (b ∷ s) ≡ read_bytes (a * 256 + b) s
unfolding zip_entry_after read_byte
after_str14 a b s h = ground arith

read_item :
    (i : Item) (rest : Bytes)
    → IsItem i
    → (read_byte >>= zip_entry_after) (encode_item i ++ rest) ≡ ok (item_text i, rest)
unfolding zip_entry_after zip_int_after read_byte
read_item (int4 n) rest h = after_int4 n rest h
read_item (int8 v) rest h = rw ((read_int-le_bytes v rest).0 h)
read_item (int16 v) rest h = rw ((read_int-le_bytes v rest).1 h)
read_item (int24 v) rest h = rw ((read_int-le_bytes v rest).2 h)
read_item (int32 v) rest h = rw ((read_int-le_bytes v rest).3 h)
read_item (int64 v) rest h = rw ((read_int-le_bytes v rest).4 h)
read_item (str6 s) rest h =
    after_str6 (length s) (s ++ rest) h ∙ read_bytes-append (length s) s rest refl (omega arith)
read_item (str14 s) rest h =
    let n = length s in
    after_str14 (n / 256) (n % 256) (s ++ rest) (omega arith)
    ∙ rw (split_256 n) (read_bytes-append n s rest refl (omega arith))
read_item (str32 s) rest h =
    let n = length s in
    rw
      (
        append_assoc (be_bytes 4 n) s rest,
        read_bytes-append 4 (be_bytes 4 n) (s ++ rest) (length-be_bytes 4 n) (omega arith),
        big_endian-be_bytes 4 n h,
      )
      (read_bytes-append n s rest refl (omega arith))

-- A list of elements, each with the length of the entry before it.
abbrev pub save_entry : ℕ × Item → Bytes
save_entry (p, i) = save_prevlen p ++ encode_item i

skip_prevlen-short : (p : ℕ) (s : Bytes) → p < 0xfe → skip_prevlen p s ≡ ok (0, s)
unfolding skip_prevlen
skip_prevlen-short p s h = ground arith

read_long :
    (p : ℕ) (i : Item) (rest : Bytes)
    → p < 2 ^ 32
    → IsItem i
    → (read_byte >>= read_zip_list_entry) ((0xfe ∷ (le_bytes 4 p ++ encode_item i)) ++ rest)
      ≡ ok (item_text i, rest)
unfolding read_zip_list_entry skip_prevlen read_byte
read_long p i rest hp h =
    rw
      (
        append_assoc (le_bytes 4 p) (encode_item i) rest,
        (read_uint-le_bytes p (encode_item i ++ rest)).2 hp,
      )
      (read_item i rest h)

pub read_short :
    (p : ℕ) (i : Item) (rest : Bytes)
    → p < 0xfe
    → IsItem i
    → read_zip_list_entry p (encode_item i ++ rest) ≡ ok (item_text i, rest)
unfolding read_zip_list_entry
read_short p i rest hp h = rw (skip_prevlen-short p (encode_item i ++ rest) hp) (read_item i rest h)

-- The first byte of an entry is read by the loop, the rest of it by `readZipListEntry`: together
-- they read the text of the element, in whichever encoding, after the length of the entry before.
pub read_zip_list_entry-save_entry :
    (p : ℕ) (i : Item) (rest : Bytes)
    → p < 2 ^ 32
    → IsItem i
    → (read_byte >>= read_zip_list_entry) (save_entry (p, i) ++ rest) ≡ ok (item_text i, rest)
unfolding read_zip_list_entry read_byte
read_zip_list_entry-save_entry p i rest hp h = elim (Bool-cases (ltb p 0xfe)) [
  | inl e ↦ rw (e) (read_short p i rest (ltb→lt p 0xfe e) h)
  | inr e ↦ rw (e) (read_long p i rest hp h)
]
