-- ===== src/Structure/Listpack/Entries.antt =====
-- The entries of a listpack, each in one of its encodings, are read back.
use redis_shake.Prelude.{
  ℕ, zero, suc, ◌+◌, ◌-◌, ◌*◌, ◌/◌, ◌%◌, ◌^◌, ◌<◌, ◌≤◌, List, [], ◌∷◌, ◌++◌, append_assoc, length,
  length-append, Bytes, ltb, if◌then◌else◌, ◌≡◌, refl, ◌∙◌, arith,
}
use redis_shake.Prelude.Int.{ℤ, pos, negsuc}
use redis_shake.Go.Outcome.{ok}
use redis_shake.Go.Strconv.{format_int}
use redis_shake.Structure.Reader.{read_byte, read_bytes}
use redis_shake.Structure.Reader.Laws.{
  split_256, le_bytes, unsigned_of, unsigned_of-lt, read_bytes-append, read_uint-le_bytes,
}
use redis_shake.Structure.Listpack.{
  lp_encode_backlen, listpack_int, finish_int, finish_string, listpack_entry_after,
  read_listpack_entry,
}
use redis_shake.Structure.Listpack.Numbers.{InBits, listpack_int_7, listpack_int_signed}

-- The entry length behind an entry: 7 bits in each byte, highest first, as Redis writes it.
abbrev pub seven_bits : ℕ → ℕ → Bytes
seven_bits zero len = []
seven_bits (suc n) len = seven_bits n (len / 128) ++ (len % 128 + 128) ∷ []

abbrev reached : List ℕ → ℕ → ℕ
reached [] len = 0
reached (limit ∷ limits) len = (if ltb len limit then 0 else 1) + reached limits len

-- The bytes of an entry length: `lpEncodeBacklenBytes` of Redis gives 127 one byte, and moves from 2
-- bytes to 3, to 4 and to 5 at the greatest length that 2, 3 and 4 groups of 7 bits hold.
abbrev pub backlen_width : ℕ → ℕ
backlen_width len = 1 + reached (2 ^ 7 ∷ (2 ^ 14 - 1) ∷ (2 ^ 21 - 1) ∷ (2 ^ 28 - 1) ∷ []) len

abbrev pub backlen : ℕ → Bytes
backlen len = let n = backlen_width len - 1 in len / 128 ^ n ∷ seven_bits n len

length-seven_bits : (n len : ℕ) → length (seven_bits n len) ≡ n
length-seven_bits zero len = refl
length-seven_bits (suc n) len = omega (
  arith,
  length-append (seven_bits n (len / 128)) ((len % 128 + 128) ∷ []),
  length-seven_bits n (len / 128),
)

lp_encode_backlen-width : (len : ℕ) → lp_encode_backlen len ≡ backlen_width len
unfolding lp_encode_backlen
lp_encode_backlen-width len = ground arith

backlen_width_bounds : (len : ℕ) → (1 ≤ backlen_width len) × (backlen_width len ≤ 5)
backlen_width_bounds len = ground arith

length-backlen : (len : ℕ) → length (backlen len) ≡ backlen_width len
length-backlen len =
    omega (arith, length-seven_bits (backlen_width len - 1) len, backlen_width_bounds len)

-- An element with the encoding that is chosen for it.
pub data Item : Type 0 where
  uint7 : ℕ → Item
  int13 int16 int24 int32 int64 : ℤ → Item
  str6 str12 str32 : Bytes → Item

abbrev pub IsItem : Item → Type 0
IsItem (uint7 n) = n < 128
IsItem (int13 v) = InBits 13 v
IsItem (int16 v) = InBits 16 v
IsItem (int24 v) = InBits 24 v
IsItem (int32 v) = InBits 32 v
IsItem (int64 v) = InBits 64 v
IsItem (str6 s) = length s < 2 ^ 6
IsItem (str12 s) = length s < 2 ^ 12
IsItem (str32 s) = length s < 2 ^ 32

-- The text of an element.
abbrev pub item_text : Item → Bytes
item_text (uint7 n) = format_int (pos n)
item_text (int13 v) = format_int v
item_text (int16 v) = format_int v
item_text (int24 v) = format_int v
item_text (int32 v) = format_int v
item_text (int64 v) = format_int v
item_text (str6 s) = s
item_text (str12 s) = s
item_text (str32 s) = s

abbrev pub encode_item : Item → Bytes
encode_item (uint7 n) = n ∷ []
encode_item (int13 v) = (0xc0 + unsigned_of 13 v / 256) ∷ unsigned_of 13 v % 256 ∷ []
encode_item (int16 v) = 0xf1 ∷ le_bytes 2 (unsigned_of 16 v)
encode_item (int24 v) = 0xf2 ∷ le_bytes 3 (unsigned_of 24 v)
encode_item (int32 v) = 0xf3 ∷ le_bytes 4 (unsigned_of 32 v)
encode_item (int64 v) = 0xf4 ∷ le_bytes 8 (unsigned_of 64 v)
encode_item (str6 s) = (0x80 + length s) ∷ s
encode_item (str12 s) = (0xe0 + length s / 256) ∷ length s % 256 ∷ s
encode_item (str32 s) = 0xf0 ∷ (le_bytes 4 (length s) ++ s)

-- An entry: the element, and the length of the entry.
abbrev pub save_item : Item → Bytes
save_item i = encode_item i ++ backlen (length (encode_item i))

read_backlen :
    (len : ℕ) (rest : Bytes)
    → read_bytes (lp_encode_backlen len) (backlen len ++ rest) ≡ ok (backlen len, rest)
read_backlen len rest = rw (lp_encode_backlen-width len) (
    read_bytes-append (backlen_width len) (backlen len) rest (length-backlen len)
      (omega (arith, backlen_width_bounds len)))

finish_int_ok :
    (len negstart negmax uval : ℕ) (rest : Bytes)
    → finish_int len negstart negmax uval (backlen len ++ rest)
      ≡ ok (format_int (listpack_int uval negstart negmax), rest)
unfolding finish_int
finish_int_ok len negstart negmax uval rest = rw (read_backlen len rest)

finish_string_ok :
    (head n : ℕ) (s rest : Bytes)
    → length s < 2 ^ 32
    → n ≡ head + length s
    → finish_string head (length s) (s ++ (backlen n ++ rest)) ≡ ok (s, rest)
unfolding finish_string
finish_string_ok head n s rest h e = rw (
  read_bytes-append (length s) s (backlen n ++ rest) refl (omega arith),
  ← e,
  read_backlen n rest,
)

unsigned_of_13 : (v : ℤ) → InBits 13 v → unsigned_of 13 v < 2 ^ 13
unsigned_of_13 (pos n) h = omega arith
unsigned_of_13 (negsuc n) h = omega arith

-- The tests on the first byte of the encodings that keep a part of the value in it.
after_uint7 :
    (b : ℕ) (s : Bytes) → b < 128 → listpack_entry_after b s ≡ finish_int 1 (2 ^ 64 - 1) 0 b s
unfolding listpack_entry_after
after_uint7 b s h = ground arith

after_int13 :
    (a b : ℕ) (s : Bytes)
    → a < 32
    → listpack_entry_after (0xc0 + a) (b ∷ s) ≡ finish_int 2 (2 ^ 12) 8191 (a * 256 + b) s
unfolding listpack_entry_after read_byte
after_int13 a b s h = ground arith

after_str6 :
    (n : ℕ) (s : Bytes) → n < 2 ^ 6 → listpack_entry_after (0x80 + n) s ≡ finish_string 1 n s
unfolding listpack_entry_after
after_str6 n s h = ground arith

after_str12 :
    (a b : ℕ) (s : Bytes)
    → a < 16
    → listpack_entry_after (0xe0 + a) (b ∷ s) ≡ finish_string 2 (a * 256 + b) s
unfolding listpack_entry_after read_byte
after_str12 a b s h = ground arith

read_item :
    (i : Item) (rest : Bytes)
    → IsItem i
    → read_listpack_entry (encode_item i ++ (backlen (length (encode_item i)) ++ rest))
      ≡ ok (item_text i, rest)
unfolding read_listpack_entry listpack_entry_after read_byte
read_item (uint7 n) rest h =
    rw (
      after_uint7 n (backlen 1 ++ rest) h,
      finish_int_ok 1 (2 ^ 64 - 1) 0 n rest,
      listpack_int_7 n h,
    )
read_item (int13 v) rest h =
    let u = unsigned_of 13 v in
    rw (
      after_int13 (u / 256) (u % 256) (backlen 2 ++ rest) (omega (arith, unsigned_of_13 v h)),
      split_256 u,
      finish_int_ok 2 (2 ^ 12) 8191 u rest,
      (listpack_int_signed v).0 h,
    )
read_item (int16 v) rest h = rw (
  (read_uint-le_bytes (unsigned_of 16 v) (backlen 3 ++ rest)).0 ((unsigned_of-lt v).1 h),
  finish_int_ok 3 (2 ^ 15) 65535 (unsigned_of 16 v) rest,
  (listpack_int_signed v).1 h,
)
read_item (int24 v) rest h = rw (
  (read_uint-le_bytes (unsigned_of 24 v) (backlen 4 ++ rest)).1 ((unsigned_of-lt v).2 h),
  finish_int_ok 4 (2 ^ 23) (2 ^ 24 - 1) (unsigned_of 24 v) rest,
  (listpack_int_signed v).2 h,
)
read_item (int32 v) rest h = rw (
  (read_uint-le_bytes (unsigned_of 32 v) (backlen 5 ++ rest)).2 ((unsigned_of-lt v).3 h),
  finish_int_ok 5 (2 ^ 31) (2 ^ 32 - 1) (unsigned_of 32 v) rest,
  (listpack_int_signed v).3 h,
)
read_item (int64 v) rest h = rw (
  (read_uint-le_bytes (unsigned_of 64 v) (backlen 9 ++ rest)).3 ((unsigned_of-lt v).4 h),
  finish_int_ok 9 (2 ^ 63) (2 ^ 64 - 1) (unsigned_of 64 v) rest,
  (listpack_int_signed v).4 h,
)
read_item (str6 s) rest h =
    let n = length s in
    after_str6 n (s ++ (backlen (suc n) ++ rest)) h
    ∙ finish_string_ok 1 (suc n) s rest (omega arith) (omega arith)
read_item (str12 s) rest h =
    let n = length s in
    after_str12 (n / 256) (n % 256) (s ++ (backlen (suc (suc n)) ++ rest)) (omega arith)
    ∙ rw (split_256 n) (finish_string_ok 2 (suc (suc n)) s rest (omega arith) (omega arith))
read_item (str32 s) rest h =
    let n = length s in
    let tail = backlen (length (encode_item (str32 s))) ++ rest in
    rw (append_assoc (le_bytes 4 n) s tail, (read_uint-le_bytes n (s ++ tail)).2 h)
      (finish_string_ok 5 _ s rest h (omega (arith, length-append (le_bytes 4 n) s)))

-- An entry of a listpack, in whichever encoding, is read as the text of its element.
pub read_listpack_entry-save_item :
    (i : Item) (rest : Bytes)
    → IsItem i
    → read_listpack_entry (save_item i ++ rest) ≡ ok (item_text i, rest)
read_listpack_entry-save_item i rest h =
    rw (append_assoc (encode_item i) (backlen (length (encode_item i))) rest) (read_item i rest h)
