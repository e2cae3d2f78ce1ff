-- ===== src/Rdb/Hashes/Fields.antt =====
-- The hashes of Redis and Valkey in the encodings that the code reads, for backend/internal/rdb/types/hash.go.
use redis_shake.Prelude.{
  ◌^◌, ◌<◌, ◌≤◌, ◌%◌, ◌-◌, ◌+◌, ℕ, Bool, true, false, List, [], ◌∷◌, ◌++◌, map, length, All, Bytes,
  codes, ◌==◌, if◌then◌else◌, ◌≡◌,
}
use redis_shake.Go.Strconv.{format_uint}
use redis_shake.Structure.Reader.Laws.{le_bytes}
use redis_shake.Structure.Length.RoundTrip.{save_length}
use redis_shake.Structure.Text.Saved.{Saved, save_text, text, IsSaved}
use redis_shake.Rdb.Packs.{
  Zip, save_zip, zip_texts, IsZip, Pack, save_pack, pack_texts, IsPack, flat, save_counted,
}
use redis_shake.Rdb.Pairs.{pairing}
use redis_shake.Rdb.Commands.{RedisCmd}

-- A field that expires at a time in milliseconds, or never where that is 0.
pub record Field : Type 0 where
  pub name : Saved
  pub value : Saved
  pub expire_at : ℕ

abbrev pub field_cmds : Bytes → Bytes → Bytes → ℕ → List RedisCmd
field_cmds key name value expire_at =
    (codes "hset" ∷ key ∷ name ∷ value ∷ [])
    ∷ (if expire_at == 0
        then []
        else (codes "hpexpireat"
            ∷ key
            ∷ format_uint expire_at
            ∷ codes "fields"
            ∷ codes "1"
            ∷ name
            ∷ [])
          ∷ [])

-- A time relative to the smallest of a hash, where 0 stays for none.
abbrev pub relative : ℕ → ℕ → ℕ
relative smallest expire_at = if expire_at == 0 then 0 else expire_at - smallest + 1

-- The encodings that the code reads, with the type byte of each: not the zipmap (type 9), at which
-- `rewrite_hash` panics. The fields of a packed encoding whose fields expire
-- are those that its elements are.
pub data HashValue : Type 0 where
  table : List (Saved × Saved) → HashValue
  ziplist : Zip → HashValue
  listpack : Pack → HashValue
  valkey metadata_pre : List Field → HashValue
  metadata : ℕ → List Field → HashValue
  listpack_ex_pre : Pack → List (Bytes × (Bytes × ℕ)) → HashValue
  listpack_ex : ℕ → Pack → List (Bytes × (Bytes × ℕ)) → HashValue

abbrev pub hash_type : HashValue → ℕ
hash_type (table fs) = 4
hash_type (ziplist z) = 13
hash_type (listpack p) = 16
hash_type (valkey fs) = 22
hash_type (metadata_pre fs) = 22
hash_type (listpack_ex_pre p fs) = 23
hash_type (metadata smallest fs) = 24
hash_type (listpack_ex smallest p fs) = 25

abbrev pub save_pair : Saved × Saved → Bytes
save_pair f = save_text f.0 ++ save_text f.1

abbrev pub save_valkey : Field → Bytes
save_valkey f = save_text f.name ++ (save_text f.value ++ le_bytes 8 f.expire_at)

abbrev pub save_ttl : (ℕ → ℕ) → Field → Bytes
save_ttl encode f = save_length (encode f.expire_at) ++ (save_text f.name ++ save_text f.value)

abbrev pub save_hash : HashValue → Bytes
save_hash (table fs) = save_counted save_pair fs
save_hash (ziplist z) = save_zip z
save_hash (listpack p) = save_pack p
save_hash (valkey fs) = save_counted save_valkey fs
save_hash (metadata_pre fs) = save_counted (save_ttl (λ n. n)) fs
save_hash (listpack_ex_pre p fs) = save_pack p
save_hash (metadata smallest fs) =
    le_bytes 8 smallest ++ save_counted (save_ttl (relative smallest)) fs
save_hash (listpack_ex smallest p fs) = le_bytes 8 smallest ++ save_pack p

abbrev pub never : List (Bytes × Bytes) → List (Bytes × (Bytes × ℕ))
never [] = []
never (f ∷ fs) = (f.0, (f.1, 0)) ∷ never fs

-- The fields of a hash: name, value, and expiry.
abbrev pub hash_fields : HashValue → List (Bytes × (Bytes × ℕ))
hash_fields (table fs) = never (map (λ f. (text f.0, text f.1)) fs)
hash_fields (ziplist z) = never (pairing (zip_texts z))
hash_fields (listpack p) = never (pairing (pack_texts p))
hash_fields (valkey fs) = map (λ f. (text f.name, (text f.value, f.expire_at))) fs
hash_fields (metadata_pre fs) = map (λ f. (text f.name, (text f.value, f.expire_at))) fs
hash_fields (listpack_ex_pre p fs) = fs
hash_fields (metadata smallest fs) = map (λ f. (text f.name, (text f.value, f.expire_at))) fs
hash_fields (listpack_ex smallest p fs) = fs

-- The elements of a packed hash whose fields expire.
abbrev pub field_texts : List (Bytes × (Bytes × ℕ)) → List Bytes
field_texts [] = []
field_texts (f ∷ fs) = f.0 ∷ f.1.0 ∷ format_uint f.1.1 ∷ field_texts fs

abbrev pub IsField : (ℕ → Type 0) → Field → Type 0
IsField P f = IsSaved f.name × (IsSaved f.value × P f.expire_at)

abbrev pub IsTime : ℕ → Type 0
IsTime n = n < 2 ^ 63

-- A time that is not 0 is not below the smallest.
abbrev pub IsLater : ℕ → ℕ → Type 0
IsLater smallest n = (n < 2 ^ 63) × ((n == 0) ≡ false → smallest ≤ n)

abbrev pub IsHash : Bool → HashValue → Type 0
IsHash v (table fs) = (length fs < 2 ^ 63) × All (λ f. IsSaved f.0 × IsSaved f.1) fs
IsHash v (ziplist z) = IsZip z × (length (zip_texts z) % 2 ≡ 0)
IsHash v (listpack p) = IsPack p × (length (pack_texts p) % 2 ≡ 0)
IsHash v (valkey fs) = (v ≡ true) × ((length fs < 2 ^ 63) × All (IsField IsTime) fs)
IsHash v (metadata_pre fs) = (v ≡ false) × ((length fs < 2 ^ 63) × All (IsField IsTime) fs)
IsHash v (listpack_ex_pre p fs) =
    IsPack p × ((pack_texts p ≡ field_texts fs) × All (λ f. IsTime f.1.1) fs)
IsHash v (metadata smallest fs) =
    (smallest < 2 ^ 63) × ((length fs < 2 ^ 63) × All (IsField (IsLater smallest)) fs)
IsHash v (listpack_ex smallest p fs) =
    (smallest < 2 ^ 63)
    × (IsPack p × ((pack_texts p ≡ field_texts fs) × All (λ f. IsTime f.1.1) fs))

abbrev pub fields_cmds : Bytes → List (Bytes × (Bytes × ℕ)) → List RedisCmd
fields_cmds key fs = flat (λ f. field_cmds key f.0 f.1.0 f.1.1) fs
