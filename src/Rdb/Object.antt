-- ===== src/Rdb/Object.antt =====
-- `ParseObject` and `ModuleTypeNameByID` of backend/internal/rdb/types/interface.go, and
-- `PareseModuleType` of module2.go: the object behind a type byte, with the commands of `Rewrite`.
use redis_shake.Prelude.{
  ℕ, zero, suc, ◌/◌, ◌%◌, ◌^◌, Bool, ◌||◌, List, [], ◌∷◌, Bytes, codes, get_or, ◌==◌, bytes_eq,
  if◌then◌else◌,
}
use redis_shake.Go.Outcome.{logged}
use redis_shake.Structure.Reader.{Reader, ◌>>=◌, fail, lift}
use redis_shake.Structure.Length.{read_length}
use redis_shake.Structure.Float.{FloatText}
use redis_shake.Rdb.Commands.{RedisCmd}
use redis_shake.Rdb.Collections.{rewrite_string, rewrite_list, rewrite_set, rewrite_zset}
use redis_shake.Rdb.Hashes.{rewrite_hash}
use redis_shake.Rdb.Streams.{rewrite_stream}
use redis_shake.Rdb.Tair.{rewrite_tair_string, rewrite_tair_hash, rewrite_tair_zset}
use redis_shake.Rdb.Bloom.{load_bloom, rewrite_bloom}

-- `moduleTypeNameCharSet`.
abbrev pub module_type_name_char_set : Bytes
module_type_name_char_set = codes "ABCDEFGHIJKLMNOPQRSTUVWXYZabcdefghijklmnopqrstuvwxyz0123456789-_"

-- The last `n` characters of the name, in front of `name`.
unfoldable pub name_chars : ℕ → ℕ → Bytes → Bytes
name_chars zero module_id name = name
name_chars (suc n) module_id name =
    name_chars n (module_id / 2 ^ 6) (get_or module_type_name_char_set (module_id % 64) 0 ∷ name)

unfoldable pub module_type_name_by_id : ℕ → Bytes
module_type_name_by_id module_id = name_chars 9 (module_id / 2 ^ 10) []

-- What the objects are read with: the texts of floats, the version of RedisBloom at the target, and
-- whether the file is one of Valkey.
pub record ObjectOptions : Type 0 where
  pub floats : FloatText
  pub target_mbbloom_version : ℕ
  pub is_valkey : Bool

unfoldable pub rewrite_module_named : ObjectOptions → Bytes → ℕ → Bytes → Reader (List RedisCmd)
rewrite_module_named options key module_id module_name =
    if bytes_eq module_name (codes "exstrtype")
    then rewrite_tair_string key
    else if bytes_eq module_name (codes "tairhash-")
    then rewrite_tair_hash
    else if bytes_eq module_name (codes "tairzset_")
    then rewrite_tair_zset options.floats key
    else if bytes_eq module_name (codes "MBbloom--")
    then (do
      sb ← load_bloom options.floats (module_id % 1024)
      lift (rewrite_bloom options.target_mbbloom_version key (module_id % 1024) sb))
    else fail logged

unfoldable pub rewrite_module : ObjectOptions → Bytes → ℕ → Reader (List RedisCmd)
rewrite_module options key type_byte = if type_byte == 6 then fail logged else (do
  module_id ← read_length
  rewrite_module_named options key module_id (module_type_name_by_id module_id))

unfoldable pub is_hash_type : ℕ → Bool
is_hash_type t = t == 4 || t == 9 || t == 13 || t == 16 || t == 22 || t == 23 || t == 24 || t == 25

-- `ParseObject(rd, typeByte, key, isValkey).Rewrite()`.
unfoldable pub parse_object : ObjectOptions → ℕ → Bytes → Reader (List RedisCmd)
unfolding is_hash_type
parse_object options t key =
    if t == 0
    then rewrite_string key
    else if t == 1 || t == 10 || t == 14 || t == 18
    then rewrite_list key t
    else if t == 2 || t == 11 || t == 20
    then rewrite_set key t
    else if t == 3 || t == 5 || t == 12 || t == 17
    then rewrite_zset options.floats key t
    else if is_hash_type t
    then rewrite_hash options.is_valkey key t
    else if t == 15 || t == 19 || t == 21
    then rewrite_stream key t
    else if t == 6 || t == 7
    then rewrite_module options key t
    else fail logged
