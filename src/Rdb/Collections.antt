-- ===== src/Rdb/Collections.antt =====
-- The strings, lists, sets and sorted sets of backend/internal/rdb/types: string.go, list.go, set.go
-- and zset.go.
pub mod Strings
pub mod Lists
pub mod Sets
pub mod Zsets
use redis_shake.Prelude.{ℕ, ◌%◌, List, [], ◌∷◌, Bytes, codes, map, length, ◌==◌, if◌then◌else◌}
use redis_shake.Go.Outcome.{logged}
use redis_shake.Structure.Reader.{Reader, ◌>>=◌, return, fail, lift}
use redis_shake.Structure.Length.{read_length}
use redis_shake.Structure.Text.{read_string}
use redis_shake.Structure.Intset.{read_intset}
use redis_shake.Structure.Listpack.{read_listpack}
use redis_shake.Structure.Ziplist.{read_zip_list}
use redis_shake.Structure.Float.{FloatText, read_float, read_double}
use redis_shake.Rdb.Commands.{RedisCmd, int_bound, repeat, after_del, pairs}

unfoldable pub rewrite_string : Bytes → Reader (List RedisCmd)
rewrite_string key = do value ← read_string; return ((codes "set" ∷ key ∷ value ∷ []) ∷ [])

-- A command that adds one element.
abbrev pub rpush : Bytes → Bytes → RedisCmd
rpush key ele = codes "rpush" ∷ key ∷ ele ∷ []

abbrev pub sadd : Bytes → Bytes → RedisCmd
sadd key ele = codes "sadd" ∷ key ∷ ele ∷ []

abbrev pub zadd : Bytes → Bytes × Bytes → RedisCmd
zadd key (member, score) = codes "zadd" ∷ key ∷ score ∷ member ∷ []

-- `for i := 0; i < size; i++` over strings, one command each.
abbrev pub each_string : (Bytes → RedisCmd) → Reader (List RedisCmd)
each_string cmd = do
  size ← read_length
  repeat (int_bound size) (do ele ← read_string; return (cmd ele ∷ []))

unfoldable pub read_list : Bytes → Reader (List RedisCmd)
unfolding repeat
read_list key = each_string (rpush key)

unfoldable pub read_list_ziplist : Bytes → Reader (List RedisCmd)
read_list_ziplist key = do elements ← read_zip_list; return (map (rpush key) elements)

unfoldable pub read_quicklist : Bytes → Reader (List RedisCmd)
read_quicklist key = do size ← read_length; repeat (int_bound size) (read_list_ziplist key)

-- A node of a quicklist, plain or packed.
unfoldable pub read_node : Bytes → ℕ → Reader (List RedisCmd)
read_node key container =
    if container == 1
    then (do ele ← read_string; return (rpush key ele ∷ []))
    else if container == 2
    then (do elements ← read_listpack; return (map (rpush key) elements))
    else fail logged

unfoldable pub read_quicklist2 : Bytes → Reader (List RedisCmd)
read_quicklist2 key = do
  size ← read_length
  repeat (int_bound size) (do container ← read_length; read_node key container)

unfoldable pub rewrite_list : Bytes → ℕ → Reader (List RedisCmd)
rewrite_list key type_byte = after_del key (
    if type_byte == 1
    then read_list key
    else if type_byte == 10
    then read_list_ziplist key
    else if type_byte == 14
    then read_quicklist key
    else if type_byte == 18
    then read_quicklist2 key
    else fail logged)

unfoldable pub read_set : Bytes → Reader (List RedisCmd)
unfolding repeat
read_set key = each_string (sadd key)

unfoldable pub read_set_intset : Bytes → Reader (List RedisCmd)
read_set_intset key = do elements ← read_intset; return (map (sadd key) elements)

unfoldable pub read_set_listpack : Bytes → Reader (List RedisCmd)
read_set_listpack key = do elements ← read_listpack; return (map (sadd key) elements)

unfoldable pub rewrite_set : Bytes → ℕ → Reader (List RedisCmd)
rewrite_set key type_byte = after_del key (
    if type_byte == 2
    then read_set key
    else if type_byte == 11
    then read_set_intset key
    else if type_byte == 20
    then read_set_listpack key
    else fail logged)

-- One round over members with their scores.
unfoldable pub read_member : (ℕ → Bytes) → Bytes → Reader ℕ → Reader (List RedisCmd)
read_member format key read_score = do
  member ← read_string
  score ← read_score
  return (zadd key (member, format score) ∷ [])

unfoldable pub read_zset : FloatText → Bytes → Reader (List RedisCmd)
read_zset floats key = do
  size ← read_length
  repeat (int_bound size) (read_member floats.format_17g key (read_float floats))

unfoldable pub read_zset2 : FloatText → Bytes → Reader (List RedisCmd)
read_zset2 floats key = do
  size ← read_length
  repeat (int_bound size) (read_member floats.format_17g key read_double)

-- The members and scores of a ziplist or listpack, which must be even in number.
unfoldable pub zadd_pairs : Bytes → List Bytes → Reader (List RedisCmd)
zadd_pairs key list =
    if length list % 2 == 0
    then (do ps ← lift (pairs list); return (map (zadd key) ps))
    else fail logged

unfoldable pub read_zset_ziplist : Bytes → Reader (List RedisCmd)
read_zset_ziplist key = do list ← read_zip_list; zadd_pairs key list

unfoldable pub read_zset_listpack : Bytes → Reader (List RedisCmd)
read_zset_listpack key = do list ← read_listpack; zadd_pairs key list

unfoldable pub rewrite_zset : FloatText → Bytes → ℕ → Reader (List RedisCmd)
rewrite_zset floats key type_byte = after_del key (
    if type_byte == 3
    then read_zset floats key
    else if type_byte == 5
    then read_zset2 floats key
    else if type_byte == 12
    then read_zset_ziplist key
    else if type_byte == 17
    then read_zset_listpack key
    else fail logged)
