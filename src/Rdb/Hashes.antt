-- ===== src/Rdb/Hashes.antt =====
-- The hashes of backend/internal/rdb/types/hash.go, with the formats whose fields expire.
pub mod Fields
pub mod RoundTrip
use redis_shake.Prelude.{
  ℕ, Bool, true, false, List, [], ◌∷◌, ◌++◌, Bytes, codes, map, ◌==◌, if◌then◌else◌,
}
use redis_shake.Prelude.Int.{ℤ, pos, eq_ℤ}
use redis_shake.Go.Outcome
use redis_shake.Go.Outcome.{Outcome, ok, panic, logged, out_of_range}
use redis_shake.Go.Int64.{add, sub}
use redis_shake.Go.Strconv.{Parsed, format_int, parse_int}
use redis_shake.Structure.Reader.{Reader, ◌>>=◌, return, fail, lift, read_uint64, signed}
use redis_shake.Structure.Length.{read_length}
use redis_shake.Structure.Text.{read_string}
use redis_shake.Structure.Listpack.{read_listpack}
use redis_shake.Structure.Ziplist.{read_zip_list}
use redis_shake.Rdb.Commands.{RedisCmd, int_bound, repeat, after_del, pairs}

abbrev pub hset : Bytes → Bytes × Bytes → RedisCmd
hset key (field, value) = codes "hset" ∷ key ∷ field ∷ value ∷ []

abbrev pub hpexpireat : Bytes → Bytes → ℤ → RedisCmd
hpexpireat key field expire_at =
    codes "hpexpireat" ∷ key ∷ format_int expire_at ∷ codes "fields" ∷ codes "1" ∷ field ∷ []

-- A field and, where it expires, the command that says when.
abbrev pub with_expiry : Bytes → Bytes × Bytes → ℤ → List RedisCmd
with_expiry key pair expire_at =
    hset key pair ∷ (if eq_ℤ expire_at (pos 0) then [] else hpexpireat key pair.0 expire_at ∷ [])

-- One round over the fields.
unfoldable pub read_field : Bytes → Reader (List RedisCmd)
read_field key = do field ← read_string; value ← read_string; return (hset key (field, value) ∷ [])

unfoldable pub read_hash : Bytes → Reader (List RedisCmd)
read_hash key = do size ← read_length; repeat (int_bound size) (read_field key)

unfoldable pub read_hash_ziplist : Bytes → Reader (List RedisCmd)
read_hash_ziplist key = do list ← read_zip_list; ps ← lift (pairs list); return (map (hset key) ps)

unfoldable pub read_hash_listpack : Bytes → Reader (List RedisCmd)
read_hash_listpack key = do list ← read_listpack; ps ← lift (pairs list); return (map (hset key) ps)

-- The format of Valkey: field, value, and eight bytes of the time.
unfoldable pub read_field_valkey : Bytes → Reader (List RedisCmd)
read_field_valkey key = do
  field ← read_string
  value ← read_string
  expire_at ← read_uint64
  return (with_expiry key (field, value) (signed 64 expire_at))

unfoldable pub read_hash_valkey : Bytes → Reader (List RedisCmd)
read_hash_valkey key = do size ← read_length; repeat (int_bound size) (read_field_valkey key)

-- `minExpire`, which the formats before the release do not have.
unfoldable pub read_min_expire : Bool → Reader ℤ
read_min_expire is_pre =
    if is_pre then return (pos 0) else (do n ← read_uint64; return (signed 64 n))

-- The time of a field: 0, or as written, or relative to the smallest.
unfoldable pub field_expire : Bool → ℤ → ℤ → ℤ
field_expire is_pre min_expire expire_at =
    if is_pre
    then expire_at
    else if eq_ℤ expire_at (pos 0)
    then expire_at
    else sub (add expire_at min_expire) (pos 1)

unfoldable pub read_field_ttl : Bool → ℤ → Bytes → Reader (List RedisCmd)
read_field_ttl is_pre min_expire key = do
  expire_at ← read_length
  field ← read_string
  value ← read_string
  return (with_expiry key (field, value) (field_expire is_pre min_expire (signed 64 expire_at)))

unfoldable pub read_hash_ttl : Bool → Bytes → Reader (List RedisCmd)
read_hash_ttl is_pre key = do
  min_expire ← read_min_expire is_pre
  size ← read_length
  repeat (int_bound size) (read_field_ttl is_pre min_expire key)

-- `for i := 0; i < size; i += 3`.
unfoldable pub triples : Bytes → List Bytes → Outcome (List RedisCmd)
triples key [] = ok []
triples key (x ∷ []) = panic out_of_range
triples key (x ∷ y ∷ []) = panic out_of_range
triples key (x ∷ y ∷ z ∷ rest) = elim (parse_int z) [
  | Parsed.parsed expire_at ↦
      Outcome.◌>>=◌ (triples key rest) (λ cmds. ok (with_expiry key (x, y) expire_at ++ cmds))
  | _ ↦ panic logged
]

unfoldable pub read_hash_listpack_ttl : Bool → Bytes → Reader (List RedisCmd)
read_hash_listpack_ttl is_pre key = do
  min_expire ← read_min_expire is_pre
  list ← read_listpack
  lift (triples key list)

-- A zipmap is not implemented, and panics. The type 22 has another format in a file of Valkey.
unfoldable pub rewrite_hash : Bool → Bytes → ℕ → Reader (List RedisCmd)
rewrite_hash is_valkey key type_byte = after_del key (
    if type_byte == 4
    then read_hash key
    else if type_byte == 9
    then fail logged
    else if type_byte == 13
    then read_hash_ziplist key
    else if type_byte == 16
    then read_hash_listpack key
    else if type_byte == 22
    then (if is_valkey then read_hash_valkey key else read_hash_ttl true key)
    else if type_byte == 23
    then read_hash_listpack_ttl true key
    else if type_byte == 24
    then read_hash_ttl false key
    else if type_byte == 25
    then read_hash_listpack_ttl false key
    else fail logged)
