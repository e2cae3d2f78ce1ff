-- ===== src/Structure/Ziplist/Endless.antt =====
-- A ziplist whose length field is 65535, for a length that does not fit: the loop waits for the
-- byte 0xFE, and the end mark is 0xFF.
use redis_shake.Prelude.{
  ℕ, zero, suc, ◌+◌, ◌<◌, ◌≤◌, ◌^◌, List, [], ◌∷◌, ◌++◌, append_assoc, length, length-append,
  lt→ltb, false, All, Bytes, ◌==◌, ◌≡◌, refl, arith,
}
use redis_shake.Go.Outcome.{panic, logged}
use redis_shake.Structure.Reader.{read_byte}
use redis_shake.Structure.Reader.Laws.{le_bytes, read_uint-le_bytes}
use redis_shake.Structure.Text.RoundTrip.{save_raw, read_string-save_raw}
use redis_shake.Structure.Ziplist.{
  skip_prevlen, read_zip_list_entry, read_until_end, zip_list_after, zip_list_body, read_zip_list,
}
use redis_shake.Structure.Ziplist.Entries.{Item, IsItem, save_entry, read_short}
use redis_shake.Structure.Ziplist.RoundTrip.{save_entries, save_ziplist}

-- An entry behind an entry of fewer than 254 bytes.
abbrev pub IsShort : ℕ × Item → Type 0
IsShort e = (e.0 < 0xfe) × IsItem e.1

short-ne : (p : ℕ) → p < 0xfe → (p == 0xfe) ≡ false
short-ne p h = ground arith

length-save_entry : (p : ℕ) (i : Item) → p < 0xfe → 1 ≤ length (save_entry (p, i))
length-save_entry p i h = rw (lt→ltb p 0xfe h) (omega arith)

round_short :
    (fuel p : ℕ) (i : Item) (rest : Bytes)
    → p < 0xfe
    → IsItem i
    → read_until_end fuel rest ≡ panic logged
    → read_until_end (suc fuel) (save_entry (p, i) ++ rest) ≡ panic logged
unfolding read_until_end read_byte
round_short fuel p i rest hp h e = rw (lt→ltb p 0xfe hp, short-ne p hp, read_short p i rest hp h, e)

read_until_end-panics :
    (fuel : ℕ) (es : List (ℕ × Item))
    → All IsShort es
    → length es < fuel
    → read_until_end fuel (save_entries es ++ 0xff ∷ []) ≡ panic logged
unfolding read_until_end read_byte read_zip_list_entry skip_prevlen
read_until_end-panics zero es h l = absurd (omega arith)
read_until_end-panics (suc fuel) [] h l = refl
read_until_end-panics (suc fuel) ((p, i) ∷ es) h l =
    rw (append_assoc (save_entry (p, i)) (save_entries es) (0xff ∷ [])) (
      round_short fuel p i (save_entries es ++ 0xff ∷ []) h.0.0 h.0.1
        (read_until_end-panics fuel es h.1 (omega arith)))

length-save_entries : (es : List (ℕ × Item)) → All IsShort es → length es ≤ length (save_entries es)
length-save_entries [] h = omega arith
length-save_entries ((p, i) ∷ es) h = omega (
  arith,
  length-append (save_entry (p, i)) (save_entries es),
  length-save_entry p i h.0.0,
  length-save_entries es h.1,
)

enough_fuel :
    (es : List (ℕ × Item)) → All IsShort es → length es < length (save_entries es ++ 0xff ∷ []) + 1
enough_fuel es h =
    omega (arith, length-append (save_entries es) (0xff ∷ []), length-save_entries es h)

-- A ziplist that Redis writes with 65535 for a length that does not fit in 16 bits, every entry of
-- it behind one of fewer than 254 bytes, is not read: the loop takes the end mark for an entry and
-- panics.
pub read_zip_list-unknown_length :
    (zlbytes zltail : ℕ) (es : List (ℕ × Item)) (rest : Bytes)
    → zlbytes < 2 ^ 32
    → zltail < 2 ^ 32
    → All IsShort es
    → length (save_ziplist zlbytes zltail 65535 es) < 2 ^ 63
    → read_zip_list (save_raw (save_ziplist zlbytes zltail 65535 es) ++ rest) ≡ panic logged
unfolding read_zip_list zip_list_body zip_list_after
read_zip_list-unknown_length zlbytes zltail es rest hb ht h hs =
    let body = save_entries es ++ 0xff ∷ [] in
    rw (
      read_string-save_raw (save_ziplist zlbytes zltail 65535 es) rest hs,
      (read_uint-le_bytes zlbytes (le_bytes 4 zltail ++ (le_bytes 2 65535 ++ body))).2 hb,
      (read_uint-le_bytes zltail (le_bytes 2 65535 ++ body)).2 ht,
      (read_uint-le_bytes 65535 body).0 (omega arith),
      read_until_end-panics (length body + 1) es h (enough_fuel es h),
    )
