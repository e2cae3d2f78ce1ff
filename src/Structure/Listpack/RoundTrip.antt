-- ===== src/Structure/Listpack/RoundTrip.antt =====
-- Every listpack that Redis writes is read back, as the texts of its elements.
use redis_shake.Prelude.{
  ◌+◌, ◌<◌, ◌^◌, List, [], ◌∷◌, ◌++◌, append_assoc, map, length, All, Bytes, ◌≡◌, refl,
}
use redis_shake.Go.Outcome.{ok}
use redis_shake.Structure.Reader.{read_byte}
use redis_shake.Structure.Reader.Laws.{le_bytes, read_uint-le_bytes}
use redis_shake.Structure.Text.Saved.{Saved, save_text, text, IsSaved, read_string-save_text}
use redis_shake.Structure.Listpack.{read_listpack_entries, check_end, listpack_body, read_listpack}
use redis_shake.Structure.Listpack.Entries.{
  Item, IsItem, item_text, save_item, read_listpack_entry-save_item,
}

abbrev pub save_items : List Item → Bytes
save_items [] = []
save_items (i ∷ is) = save_item i ++ save_items is

-- A listpack: its size in bytes, the number of its elements, the entries, and the end mark.
abbrev pub save_listpack : List Item → Bytes
save_listpack is =
    le_bytes 4 (7 + length (save_items is))
    ++ (le_bytes 2 (length is) ++ (save_items is ++ 0xff ∷ []))

read_items_ok :
    (is : List Item) (rest : Bytes)
    → All IsItem is
    → read_listpack_entries (length is) (save_items is ++ rest) ≡ ok (map item_text is, rest)
unfolding read_listpack_entries
read_items_ok [] rest h = refl
read_items_ok (i ∷ is) rest h = rw (
  append_assoc (save_item i) (save_items is) rest,
  read_listpack_entry-save_item i (save_items is ++ rest) h.0,
  read_items_ok is rest h.1,
)

listpack_body_ok :
    (is : List Item)
    → All IsItem is
    → length is < 2 ^ 16
    → 7 + length (save_items is) < 2 ^ 32
    → listpack_body (save_listpack is) ≡ ok (map item_text is, [])
unfolding listpack_body check_end read_byte
listpack_body_ok is h l m =
    let body = save_items is ++ 0xff ∷ [] in
    rw (
      (read_uint-le_bytes (7 + length (save_items is)) (le_bytes 2 (length is) ++ body)).2 m,
      (read_uint-le_bytes (length is) body).0 l,
      read_items_ok is (0xff ∷ []) h,
    )

-- A listpack of up to 65535 elements, each in any encoding that holds it, stored as a string in any
-- of the encodings of a string, raw or compressed, is read as the texts of its elements, in order.
pub read_listpack-save_listpack :
    (stored : Saved) (is : List Item) (rest : Bytes)
    → All IsItem is
    → length is < 2 ^ 16
    → 7 + length (save_items is) < 2 ^ 32
    → text stored ≡ save_listpack is
    → IsSaved stored
    → read_listpack (save_text stored ++ rest) ≡ ok (map item_text is, rest)
unfolding read_listpack
read_listpack-save_listpack stored is rest h l m e n =
    rw (read_string-save_text stored rest n, e, listpack_body_ok is h l m)
