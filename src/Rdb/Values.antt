-- ===== src/Rdb/Values.antt =====
-- The values of backend/internal/rdb/types but for streams and modules, and for the zipmap, which
-- the code refuses: the encodings and the commands that each value stands for.
use redis_shake.Prelude.{ℕ, List, [], ◌∷◌, ◌++◌, Bytes, codes, map, ◌≡◌, refl, ◌∙◌}
use redis_shake.Go.Outcome.{ok}
use redis_shake.Structure.Text.Saved.{Saved, save_text, text, IsSaved, read_string-save_text}
use redis_shake.Rdb.Commands.{RedisCmd}
use redis_shake.Rdb.Collections.{rpush, sadd, zadd, rewrite_string, rewrite_zset}
use redis_shake.Rdb.Collections.Lists.{
  ListValue, list_type, save_list, list_texts, IsList, parse_object-save_list,
}
use redis_shake.Rdb.Collections.Sets.{
  SetValue, set_type, save_set, set_texts, IsSetValue, parse_object-save_set,
}
use redis_shake.Rdb.Collections.Zsets.{
  ZsetValue, zset_type, save_zset, scored, IsZset, rewrite_zset-save_zset,
}
use redis_shake.Rdb.Hashes.{rewrite_hash}
use redis_shake.Rdb.Hashes.Fields.{
  HashValue, hash_type, save_hash, hash_fields, IsHash, fields_cmds,
}
use redis_shake.Rdb.Hashes.RoundTrip.{rewrite_hash-save_hash}
use redis_shake.Rdb.Object.{ObjectOptions, parse_object}

pub data Value : Type 0 where
  string : Saved → Value
  list : ListValue → Value
  set : SetValue → Value
  zset : ZsetValue → Value
  hash : HashValue → Value

abbrev pub type_of : Value → ℕ
type_of (string s) = 0
type_of (list v) = list_type v
type_of (set v) = set_type v
type_of (zset v) = zset_type v
type_of (hash v) = hash_type v

abbrev pub save : Value → Bytes
save (string s) = save_text s
save (list v) = save_list v
save (set v) = save_set v
save (zset v) = save_zset v
save (hash v) = save_hash v

abbrev pub built : Bytes → List RedisCmd → List RedisCmd
built key cmds = (codes "del" ∷ key ∷ []) ∷ cmds

-- The commands that build the value.
abbrev pub commands : ObjectOptions → Bytes → Value → List RedisCmd
commands options key (string s) = (codes "set" ∷ key ∷ text s ∷ []) ∷ []
commands options key (list v) = built key (map (rpush key) (list_texts v))
commands options key (set v) = built key (map (sadd key) (set_texts v))
commands options key (zset v) = built key (map (zadd key) (scored options.floats v))
commands options key (hash v) = built key (fields_cmds key (hash_fields v))

abbrev pub IsSound : ObjectOptions → Value → Type 0
IsSound options (string s) = IsSaved s
IsSound options (list v) = IsList v
IsSound options (set v) = IsSetValue v
IsSound options (zset v) = IsZset options.floats v
IsSound options (hash v) = IsHash options.is_valkey v

zset-parse :
    (options : ObjectOptions) (key : Bytes) (v : ZsetValue) (s : Bytes)
    → parse_object options (zset_type v) key s ≡ rewrite_zset options.floats key (zset_type v) s
unfolding parse_object
zset-parse options key (ZsetValue.zset ms) s = refl
zset-parse options key (ZsetValue.zset2 ms) s = refl
zset-parse options key (ZsetValue.ziplist z) s = refl
zset-parse options key (ZsetValue.listpack p) s = refl

hash-parse :
    (options : ObjectOptions) (key : Bytes) (v : HashValue) (s : Bytes)
    → parse_object options (hash_type v) key s ≡ rewrite_hash options.is_valkey key (hash_type v) s
unfolding parse_object
hash-parse options key (HashValue.table fs) s = refl
hash-parse options key (HashValue.ziplist z) s = refl
hash-parse options key (HashValue.listpack p) s = refl
hash-parse options key (HashValue.valkey fs) s = refl
hash-parse options key (HashValue.metadata_pre fs) s = refl
hash-parse options key (HashValue.listpack_ex_pre p fs) s = refl
hash-parse options key (HashValue.metadata smallest fs) s = refl
hash-parse options key (HashValue.listpack_ex smallest p fs) s = refl

-- A string, list, set, sorted set or hash in an encoding with one of the type bytes 0 to 5, 10 to
-- 14, 16 to 18, 20 and 22 to 25 (not 9, the zipmap, which the code refuses), its ziplists, listpacks
-- and intsets stored as strings in any encoding of a string, raw or compressed, is read to its last
-- byte and no further, and sent as the commands that build it from nothing. Its lengths, numbers and
-- times fit their fields (a ziplist has fewer than 65535 elements and a listpack at most that
-- number), packed hashes and sorted sets have all their pairs, the score of a member of type 3 has a
-- text of fewer than 253 bytes that `ParseFloat` takes, and type 22 is Valkey's exactly in its files.
pub parse_object-save :
    (options : ObjectOptions) (key : Bytes) (v : Value) (rest : Bytes)
    → IsSound options v
    → parse_object options (type_of v) key (save v ++ rest) ≡ ok (commands options key v, rest)
unfolding parse_object rewrite_string
parse_object-save options key (string s) rest h = rw (read_string-save_text s rest h) refl
parse_object-save options key (list v) rest h = parse_object-save_list options key v rest h
parse_object-save options key (set v) rest h = parse_object-save_set options key v rest h
parse_object-save options key (zset v) rest h =
    zset-parse options key v (save_zset v ++ rest)
    ∙ rewrite_zset-save_zset options.floats key v rest h
parse_object-save options key (hash v) rest h =
    hash-parse options key v (save_hash v ++ rest)
    ∙ rewrite_hash-save_hash options.is_valkey key v rest h
