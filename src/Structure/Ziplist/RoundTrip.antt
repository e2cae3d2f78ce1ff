-- ===== src/Structure/Ziplist/RoundTrip.antt =====
-- Every ziplist of up to 65534 elements that Redis writes is read back.
use redis_shake.Prelude.{
  ℕ, ◌<◌, ◌^◌, List, [], ◌∷◌, ◌++◌, append_assoc, map, length, All, Bytes, ◌≡◌, refl, arith,
}
use redis_shake.Go.Outcome.{ok}
use redis_shake.Structure.Reader.{read_byte, return, ◌>>=◌}
use redis_shake.Structure.Reader.Laws.{le_bytes, read_uint-le_bytes, read-then}
use redis_shake.Structure.Text.Saved.{Saved, save_text, text, IsSaved, read_string-save_text}
use redis_shake.Structure.Ziplist.{
  read_zip_list_entry, read_zip_entries, check_last, sized_zip_list, zip_list_after, zip_list_body,
  read_zip_list,
}
use redis_shake.Structure.Ziplist.Entries.{
  Item, IsItem, item_text, save_entry, read_zip_list_entry-save_entry,
}

-- The entries, each behind the length of the one before it.
abbrev pub save_entries : List (ℕ × Item) → Bytes
save_entries [] = []
save_entries (e ∷ es) = save_entry e ++ save_entries es

abbrev pub entry_text : ℕ × Item → Bytes
entry_text e = item_text e.1

abbrev pub IsEntry : ℕ × Item → Type 0
IsEntry e = (e.0 < 2 ^ 32) × IsItem e.1

-- A ziplist: its size in bytes, the offset of its last entry, the number that stands for its
-- length, the entries, and the end mark.
abbrev pub save_ziplist : ℕ → ℕ → ℕ → List (ℕ × Item) → Bytes
save_ziplist zlbytes zltail zllen es =
    le_bytes 4 zlbytes
    ++ (le_bytes 4 zltail ++ (le_bytes 2 zllen ++ (save_entries es ++ 0xff ∷ [])))

read_entry :
    (e : ℕ × Item) (rest : Bytes)
    → IsEntry e
    → (read_byte >>= read_zip_list_entry) (save_entry e ++ rest) ≡ ok (entry_text e, rest)
read_entry (p, i) rest h = read_zip_list_entry-save_entry p i rest h.0 h.1

read_entries_ok :
    (es : List (ℕ × Item)) (rest : Bytes)
    → All IsEntry es
    → read_zip_entries (length es) (save_entries es ++ rest) ≡ ok (map entry_text es, rest)
unfolding read_zip_entries
read_entries_ok [] rest h = refl
read_entries_ok (e ∷ es) rest h = rw (
  append_assoc (save_entry e) (save_entries es) rest,
  read-then read_byte read_zip_list_entry
      (λ ele. read_zip_entries (length es) >>= (λ elements. return (ele ∷ elements)))
      (save_entry e ++ (save_entries es ++ rest)) (save_entries es ++ rest) (entry_text e)
      (read_entry e (save_entries es ++ rest) h.0),
  read_entries_ok es rest h.1,
)

sized_ok :
    (es : List (ℕ × Item))
    → All IsEntry es
    → sized_zip_list (length es) (save_entries es ++ 0xff ∷ []) ≡ ok (map entry_text es, [])
unfolding sized_zip_list check_last read_byte
sized_ok es h = rw (read_entries_ok es (0xff ∷ []) h)

zip_list_after-sized :
    (size : ℕ) (s : Bytes) → size < 65535 → zip_list_after size s ≡ sized_zip_list size s
unfolding zip_list_after
zip_list_after-sized size s h = ground arith

-- A ziplist of fewer than 65535 elements, each in any encoding that holds it, stored as a string
-- in any of the encodings of a string, raw or compressed, is read as the texts of its elements, in
-- order, whatever size and tail offset it claims.
pub read_zip_list-save_ziplist :
    (stored : Saved) (zlbytes zltail : ℕ) (es : List (ℕ × Item)) (rest : Bytes)
    → zlbytes < 2 ^ 32
    → zltail < 2 ^ 32
    → length es < 65535
    → All IsEntry es
    → text stored ≡ save_ziplist zlbytes zltail (length es) es
    → IsSaved stored
    → read_zip_list (save_text stored ++ rest) ≡ ok (map entry_text es, rest)
unfolding read_zip_list zip_list_body
read_zip_list-save_ziplist stored zlbytes zltail es rest hb ht hl h e hs =
    let body = save_entries es ++ 0xff ∷ [] in
    rw (
      read_string-save_text stored rest hs,
      e,
      (read_uint-le_bytes zlbytes (le_bytes 4 zltail ++ (le_bytes 2 (length es) ++ body))).2 hb,
      (read_uint-le_bytes zltail (le_bytes 2 (length es) ++ body)).2 ht,
      (read_uint-le_bytes (length es) body).0 (omega arith),
      zip_list_after-sized (length es) body hl,
      sized_ok es h,
    )
