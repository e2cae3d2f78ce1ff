-- ===== src/Rdb/Hashes/RoundTrip.antt =====
-- Hashes in their encodings are sent field by field.
use redis_shake.Prelude.{
  ◌^◌, ◌<◌, ℕ, zero, suc, Bool, true, false, List, [], ◌∷◌, ◌++◌, append_assoc, map, length, All,
  Bytes, codes, ◌≡◌, refl, arith,
}
use redis_shake.Prelude.Int.{ℤ, pos}
use redis_shake.Go.Outcome.{ok}
use redis_shake.Go.Int64.{int64, uint64}
use redis_shake.Go.Strconv.{format_int}
use redis_shake.Go.Strconv.RoundTrip.{parse_int-format_uint}
use redis_shake.Structure.Reader.Laws.{le_bytes, read_uint-le_bytes}
use redis_shake.Structure.Length.RoundTrip.{save_length, read_length-save_length}
use redis_shake.Structure.Text.Saved.{Saved, save_text, text, IsSaved, read_string-save_text}
use redis_shake.Rdb.Packs.{
  zip_texts, read_zip_list-save_zip, save_pack, pack_texts, read_listpack-save_pack, flat,
  flat-singletons, save_counted, counted,
}
use redis_shake.Rdb.Pairs.{pairing, pairs-even}
use redis_shake.Rdb.Commands.{int_bound, repeat}
use redis_shake.Rdb.Hashes.{
  hset, with_expiry, read_field, read_hash, read_hash_ziplist, read_hash_listpack,
  read_field_valkey, read_hash_valkey, read_min_expire, field_expire, read_field_ttl, read_hash_ttl,
  triples, read_hash_listpack_ttl, rewrite_hash,
}
use redis_shake.Rdb.Hashes.Fields.{
  Field, field_cmds, relative, HashValue, table, ziplist, listpack, valkey, metadata_pre, metadata,
  listpack_ex_pre, listpack_ex, hash_type, save_pair, save_valkey, save_ttl, save_hash, never,
  hash_fields, field_texts, IsField, IsTime, IsLater, IsHash, fields_cmds,
}
use redis_shake.Structure.Reader.{signed, ◌>>=◌}
use redis_shake.Structure.Length.{read_length}

signed-small : (n : ℕ) → n < 2 ^ 63 → signed 64 n ≡ pos n
signed-small n h = ground arith

relative_ok :
    (smallest e : ℕ)
    → smallest < 2 ^ 63
    → IsLater smallest e
    → field_expire false (pos smallest) (signed 64 (relative smallest e)) ≡ pos e
unfolding field_expire int64 uint64
relative_ok smallest zero k h = refl
relative_ok smallest (suc e) k h = ground arith

with_expiry-field_cmds :
    (key name value : Bytes) (e : ℕ)
    → with_expiry key (name, value) (pos e) ≡ field_cmds key name value e
unfolding format_int
with_expiry-field_cmds key name value e = refl

module _ (key : Bytes) where
  pair_ok :
      (f : Saved × Saved) (rest : Bytes)
      → IsSaved f.0 × IsSaved f.1
      → read_field key (save_pair f ++ rest) ≡ ok (hset key (text f.0, text f.1) ∷ [], rest)
  unfolding read_field
  pair_ok (n, v) rest h =
      rw
        (
          append_assoc (save_text n) (save_text v) rest,
          read_string-save_text n (save_text v ++ rest) h.0,
          read_string-save_text v rest h.1,
        )
        refl

  valkey_ok :
      (f : Field) (rest : Bytes)
      → IsField IsTime f
      → read_field_valkey key (save_valkey f ++ rest)
        ≡ ok (field_cmds key (text f.name) (text f.value) f.expire_at, rest)
  unfolding read_field_valkey
  valkey_ok f rest h =
      rw
        (
          append_assoc (save_text f.name) (save_text f.value ++ le_bytes 8 f.expire_at) rest,
          append_assoc (save_text f.value) (le_bytes 8 f.expire_at) rest,
          read_string-save_text f.name (save_text f.value ++ (le_bytes 8 f.expire_at ++ rest)) h.0,
          read_string-save_text f.value (le_bytes 8 f.expire_at ++ rest) h.1.0,
          (read_uint-le_bytes f.expire_at rest).3 (omega arith),
          signed-small f.expire_at h.1.1,
          with_expiry-field_cmds key (text f.name) (text f.value) f.expire_at,
        )
        refl

  ttl_ok :
      (encode : ℕ → ℕ) (is_pre : Bool) (smallest : ℤ) (f : Field) (rest : Bytes)
      → IsSaved f.name
      → IsSaved f.value
      → encode f.expire_at < 2 ^ 64
      → field_expire is_pre smallest (signed 64 (encode f.expire_at)) ≡ pos f.expire_at
      → read_field_ttl is_pre smallest key (save_ttl encode f ++ rest)
        ≡ ok (field_cmds key (text f.name) (text f.value) f.expire_at, rest)
  unfolding read_field_ttl
  ttl_ok encode is_pre smallest f rest hn hv he e =
      rw
        (
          append_assoc (save_length (encode f.expire_at)) (save_text f.name ++ save_text f.value)
              rest,
          append_assoc (save_text f.name) (save_text f.value) rest,
          read_length-save_length (encode f.expire_at)
              (save_text f.name ++ (save_text f.value ++ rest)) he,
          read_string-save_text f.name (save_text f.value ++ rest) hn,
          read_string-save_text f.value rest hv,
          e,
          with_expiry-field_cmds key (text f.name) (text f.value) f.expire_at,
        )
        refl

  triples-field_texts :
      (fs : List (Bytes × (Bytes × ℕ)))
      → All (λ f. IsTime f.1.1) fs
      → triples key (field_texts fs) ≡ ok (fields_cmds key fs)
  unfolding triples format_int
  triples-field_texts [] h = refl
  triples-field_texts ((n, (v, e)) ∷ fs) h =
      rw (triples, parse_int-format_uint e h.0, triples-field_texts fs h.1) refl

  fields_never : (ps : List (Bytes × Bytes)) → fields_cmds key (never ps) ≡ map (hset key) ps
  fields_never [] = refl
  fields_never (p ∷ ps) = rw (fields_never ps) refl

  fields_map :
      {X : Type 0} (g : X → Bytes × (Bytes × ℕ)) (xs : List X)
      → flat (λ x. field_cmds key (g x).0 (g x).1.0 (g x).1.1) xs ≡ fields_cmds key (map g xs)
  fields_map g [] = refl
  fields_map g (x ∷ xs) = rw (fields_map g xs) refl

min_expire_ok :
    (smallest : ℕ) (rest : Bytes)
    → smallest < 2 ^ 63
    → read_min_expire false (le_bytes 8 smallest ++ rest) ≡ ok (pos smallest, rest)
unfolding read_min_expire
min_expire_ok smallest rest h =
    rw ((read_uint-le_bytes smallest rest).3 (omega arith), signed-small smallest h) refl

relative-lt : (smallest e : ℕ) → IsLater smallest e → relative smallest e < 2 ^ 64
relative-lt smallest e h = ground arith

abbrev entry_of : Field → Bytes × (Bytes × ℕ)
entry_of f = (text f.name, (text f.value, f.expire_at))

module _ (key : Bytes) (encode : ℕ → ℕ) (is_pre : Bool) (smallest : ℤ) (P : ℕ → Type 0)
    (small : (e : ℕ) → P e → encode e < 2 ^ 64)
    (decode : (e : ℕ) → P e → field_expire is_pre smallest (signed 64 (encode e)) ≡ pos e) where
  field_ok :
      (f : Field) (rest : Bytes)
      → IsField P f
      → read_field_ttl is_pre smallest key (save_ttl encode f ++ rest)
        ≡ ok (field_cmds key (text f.name) (text f.value) f.expire_at, rest)
  field_ok f rest h =
      ttl_ok key encode is_pre smallest f rest h.0 h.1.0 (small f.expire_at h.1.1)
        (decode f.expire_at h.1.1)

  counted_ttl :
      (fs : List Field) (rest : Bytes)
      → length fs < 2 ^ 63
      → All (IsField P) fs
      → (read_length >>= (λ size. repeat (int_bound size) (read_field_ttl is_pre smallest key)))
          (save_counted (save_ttl encode) fs ++ rest)
        ≡ ok (fields_cmds key (map entry_of fs), rest)
  counted_ttl fs rest l h =
      rw
        (
          counted (save_ttl encode) (λ f. field_cmds key (text f.name) (text f.value) f.expire_at)
              (IsField P) (read_field_ttl is_pre smallest key) field_ok fs rest l h,
          fields_map key entry_of fs,
        )
        refl

-- A hash as a table, a ziplist, a listpack, Valkey's table with expiry, or Redis' table or listpack
-- with expiry before and after its release (types 4, 13, 16 and 22 to 25: not the zipmap, type 9,
-- which the code refuses), its ziplist or listpack stored as a string in any encoding of a string,
-- raw or compressed, is sent as one command that deletes its key, and for each of its fields in order
-- an HSET, with an HPEXPIREAT behind it where the field expires, at the time that the encoding stands
-- for. Its lengths and times fit their fields, a packed hash has the values of all its fields, the
-- smallest time of a hash is no later than the others, and type 22 is Valkey's exactly in its files.
pub rewrite_hash-save_hash :
    (is_valkey : Bool) (key : Bytes) (v : HashValue) (rest : Bytes)
    → IsHash is_valkey v
    → rewrite_hash is_valkey key (hash_type v) (save_hash v ++ rest)
      ≡ ok ((codes "del" ∷ key ∷ []) ∷ fields_cmds key (hash_fields v), rest)
unfolding rewrite_hash read_hash read_hash_ziplist read_hash_listpack read_hash_valkey
    read_min_expire field_expire read_hash_ttl read_hash_listpack_ttl
rewrite_hash-save_hash is_valkey key (table fs) rest h =
    rw
      (
        counted save_pair (λ f. hset key (text f.0, text f.1) ∷ []) (λ f. IsSaved f.0 × IsSaved f.1)
            (read_field key) (pair_ok key) fs rest h.0 h.1,
        fields_never key (map (λ f. (text f.0, text f.1)) fs),
        flat-singletons (hset key) (λ f. (text f.0, text f.1)) fs,
      )
      refl
rewrite_hash-save_hash is_valkey key (ziplist z) rest h =
    rw
      (
        read_zip_list-save_zip z rest h.0,
        pairs-even (zip_texts z) h.1,
        fields_never key (pairing (zip_texts z)),
      )
      refl
rewrite_hash-save_hash is_valkey key (listpack p) rest h =
    rw
      (
        read_listpack-save_pack p rest h.0,
        pairs-even (pack_texts p) h.1,
        fields_never key (pairing (pack_texts p)),
      )
      refl
rewrite_hash-save_hash is_valkey key (valkey fs) rest h =
    rw
      (
        h.0,
        counted save_valkey (λ f. field_cmds key (text f.name) (text f.value) f.expire_at)
            (IsField IsTime) (read_field_valkey key) (valkey_ok key) fs rest h.1.0 h.1.1,
        fields_map key entry_of fs,
      )
      refl
rewrite_hash-save_hash is_valkey key (metadata_pre fs) rest h =
    rw
      (
        h.0,
        counted_ttl key (λ n. n) true (pos 0) IsTime (λ e k. omega arith) signed-small fs rest h.1.0
            h.1.1,
      )
      refl
rewrite_hash-save_hash is_valkey key (listpack_ex_pre p fs) rest h =
    rw (read_listpack-save_pack p rest h.0, h.1.0, triples-field_texts key fs h.1.1) refl
rewrite_hash-save_hash is_valkey key (metadata smallest fs) rest h =
    rw
      (
        append_assoc (le_bytes 8 smallest) (save_counted (save_ttl (relative smallest)) fs) rest,
        min_expire_ok smallest (save_counted (save_ttl (relative smallest)) fs ++ rest) h.0,
        counted_ttl key (relative smallest) false (pos smallest) (IsLater smallest)
            (relative-lt smallest) (λ e k. relative_ok smallest e h.0 k) fs rest h.1.0 h.1.1,
      )
      refl
rewrite_hash-save_hash is_valkey key (listpack_ex smallest p fs) rest h =
    rw
      (
        append_assoc (le_bytes 8 smallest) (save_pack p) rest,
        min_expire_ok smallest (save_pack p ++ rest) h.0,
        read_listpack-save_pack p rest h.1.0,
        h.1.1.0,
        triples-field_texts key fs h.1.1.1,
      )
      refl
