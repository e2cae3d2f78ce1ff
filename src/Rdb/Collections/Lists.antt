-- ===== src/Rdb/Collections/Lists.antt =====
-- The lists of Redis in their encodings, for backend/internal/rdb/types/list.go.
use redis_shake.Prelude.{
  ◌^◌, ◌<◌, ℕ, List, [], ◌∷◌, ◌++◌, append_assoc, map, length, All, Bytes, codes, ◌≡◌, refl, arith,
}
use redis_shake.Go.Outcome.{ok}
use redis_shake.Structure.Length.RoundTrip.{save_length, read_length-save_length}
use redis_shake.Structure.Text.Saved.{Saved, save_text, text, IsSaved, read_string-save_text}
use redis_shake.Structure.Reader.{◌>>=◌}
use redis_shake.Structure.Length.{read_length}
use redis_shake.Rdb.Packs.{
  Zip, save_zip, zip_texts, IsZip, read_zip_list-save_zip, Pack, save_pack, pack_texts, IsPack,
  read_listpack-save_pack, flat, map-flat, save_counted, counted,
}
use redis_shake.Rdb.Collections.{
  rpush, read_list, read_list_ziplist, read_quicklist, read_node, read_quicklist2, rewrite_list,
}
use redis_shake.Rdb.Collections.Strings.{each_string-save_counted}
use redis_shake.Rdb.Object.{ObjectOptions, parse_object}

-- A node of a quicklist of the second format.
pub data Node : Type 0 where
  plain : Saved → Node
  packed : Pack → Node

abbrev pub save_node : Node → Bytes
save_node (plain s) = save_length 1 ++ save_text s
save_node (packed p) = save_length 2 ++ save_pack p

abbrev pub node_texts : Node → List Bytes
node_texts (plain s) = text s ∷ []
node_texts (packed p) = pack_texts p

abbrev pub IsNode : Node → Type 0
IsNode (plain s) = IsSaved s
IsNode (packed p) = IsPack p

pub data ListValue : Type 0 where
  linked : List Saved → ListValue
  ziplist : Zip → ListValue
  quicklist : List Zip → ListValue
  quicklist2 : List Node → ListValue

abbrev pub list_type : ListValue → ℕ
list_type (linked ss) = 1
list_type (ziplist z) = 10
list_type (quicklist zs) = 14
list_type (quicklist2 ns) = 18

abbrev pub save_list : ListValue → Bytes
save_list (linked ss) = save_counted save_text ss
save_list (ziplist z) = save_zip z
save_list (quicklist zs) = save_counted save_zip zs
save_list (quicklist2 ns) = save_counted save_node ns

abbrev pub list_texts : ListValue → List Bytes
list_texts (linked ss) = map text ss
list_texts (ziplist z) = zip_texts z
list_texts (quicklist zs) = flat zip_texts zs
list_texts (quicklist2 ns) = flat node_texts ns

abbrev pub IsList : ListValue → Type 0
IsList (linked ss) = (length ss < 2 ^ 63) × All IsSaved ss
IsList (ziplist z) = IsZip z
IsList (quicklist zs) = (length zs < 2 ^ 63) × All IsZip zs
IsList (quicklist2 ns) = (length ns < 2 ^ 63) × All IsNode ns

ziplist_ok :
    (key : Bytes) (z : Zip) (rest : Bytes)
    → IsZip z
    → read_list_ziplist key (save_zip z ++ rest) ≡ ok (map (rpush key) (zip_texts z), rest)
unfolding read_list_ziplist
ziplist_ok key z rest h = rw (read_zip_list-save_zip z rest h) refl

node_ok :
    (key : Bytes) (n : Node) (rest : Bytes)
    → IsNode n
    → (read_length >>= read_node key) (save_node n ++ rest)
      ≡ ok (map (rpush key) (node_texts n), rest)
unfolding read_node
node_ok key (plain s) rest h =
    rw
      (
        append_assoc (save_length 1) (save_text s) rest,
        read_length-save_length 1 (save_text s ++ rest) (omega arith),
        read_string-save_text s rest h,
      )
      refl
node_ok key (packed p) rest h =
    rw
      (
        append_assoc (save_length 2) (save_pack p) rest,
        read_length-save_length 2 (save_pack p ++ rest) (omega arith),
        read_listpack-save_pack p rest h,
      )
      refl

-- A list in any of its encodings is sent as one command that deletes its key and an RPUSH for each
-- of its elements, in order.
pub parse_object-save_list :
    (options : ObjectOptions) (key : Bytes) (v : ListValue) (rest : Bytes)
    → IsList v
    → parse_object options (list_type v) key (save_list v ++ rest)
      ≡ ok ((codes "del" ∷ key ∷ []) ∷ map (rpush key) (list_texts v), rest)
unfolding parse_object rewrite_list read_list read_quicklist read_quicklist2
parse_object-save_list options key (linked ss) rest h =
    rw (each_string-save_counted (rpush key) ss rest h.0 h.1) refl
parse_object-save_list options key (ziplist z) rest h = rw (ziplist_ok key z rest h) refl
parse_object-save_list options key (quicklist zs) rest h =
    rw
      (
        counted save_zip (λ z. map (rpush key) (zip_texts z)) IsZip (read_list_ziplist key)
            (ziplist_ok key) zs rest h.0 h.1,
        map-flat (rpush key) zip_texts zs,
      )
      refl
parse_object-save_list options key (quicklist2 ns) rest h =
    rw
      (
        counted save_node (λ n. map (rpush key) (node_texts n)) IsNode
            (read_length >>= read_node key) (node_ok key) ns rest h.0 h.1,
        map-flat (rpush key) node_texts ns,
      )
      refl
