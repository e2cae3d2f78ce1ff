-- ===== src/Rdb/Total.antt =====
-- The readers of the objects of backend/internal/rdb/types end on every input.
use redis_shake.Prelude.{ℕ, zero, suc, List, [], ◌∷◌, Bytes, length, ◌==◌, ◌%◌, Bool, true, false}
use redis_shake.Prelude.Int.{ℤ}
use redis_shake.Go.Outcome.{Outcome, panic, logged}
use redis_shake.Go.Outcome.Rules.{Ends, ended, stopped, bind-Ends}
use redis_shake.Go.Strconv.{Parsed, parse_int}
use redis_shake.Structure.Reader.{Reader, ◌>>=◌, return, lift}
use redis_shake.Structure.Length.{read_length}
use redis_shake.Structure.Reader.Takes.{
  Takes, return-Takes, fail-Takes, lift-Takes, any-Takes, if-Takes, bind-Takes, read_uint-Takes,
}
use redis_shake.Structure.Total.{
  read_length-Takes, read_string-Takes, read_float-Takes, read_double-Takes,
}
use redis_shake.Structure.PackedTotal.{read_intset-Takes, read_listpack-Takes, read_zip_list-Takes}
use redis_shake.Structure.Float.{FloatText}
use redis_shake.Rdb.Commands.{RedisCmd, int_bound, repeat, pairs, after_del}
use redis_shake.Rdb.Collections.{
  each_string, rewrite_string, read_list, read_list_ziplist, read_quicklist, read_node,
  read_quicklist2, rewrite_list, read_set, read_set_intset, read_set_listpack, rewrite_set,
  read_member, read_zset, read_zset2, zadd_pairs, read_zset_ziplist, read_zset_listpack,
  rewrite_zset,
}
use redis_shake.Rdb.Hashes.{
  read_field, read_hash, read_hash_ziplist, read_hash_listpack, read_field_valkey, read_hash_valkey,
  read_min_expire, read_field_ttl, read_hash_ttl, triples, read_hash_listpack_ttl, rewrite_hash,
}

pub repeat-Takes :
    {A : Type 0} (n : ℕ) {round : Reader (List A)} → Takes 0 round → Takes 0 (repeat n round)
unfolding repeat
repeat-Takes zero h = return-Takes _
repeat-Takes (suc n) h = bind-Takes h (λ a. bind-Takes (repeat-Takes n h) (λ b. return-Takes _))

-- A round for every element behind their number.
pub counted-Takes :
    {A : Type 0} {round : Reader (List A)}
    → Takes 0 round
    → Takes 0 (◌>>=◌ read_length (λ size. repeat (int_bound size) round))
counted-Takes h = bind-Takes (any-Takes read_length-Takes) (λ n. repeat-Takes (int_bound n) h)

pub after_del-Takes :
    (key : Bytes) {m : Reader (List RedisCmd)} → Takes 0 m → Takes 0 (after_del key m)
after_del-Takes key h = bind-Takes h (λ cmds. return-Takes _)

pairs-Ends : (xs : List Bytes) → Ends (λ ps. Unit {0}) (pairs xs)
unfolding pairs
pairs-Ends [] = ended tt
pairs-Ends (x ∷ []) = stopped
pairs-Ends (x ∷ y ∷ xs) = bind-Ends (pairs-Ends xs) (λ ps e h. ended tt)

pub rewrite_string-Takes : (key : Bytes) → Takes 0 (rewrite_string key)
unfolding rewrite_string
rewrite_string-Takes key = bind-Takes (any-Takes read_string-Takes) (λ v. return-Takes _)

each_string-Takes : (cmd : Bytes → RedisCmd) → Takes 0 (each_string cmd)
each_string-Takes cmd =
    counted-Takes (bind-Takes (any-Takes read_string-Takes) (λ e. return-Takes _))

ziplist-Takes : (key : Bytes) → Takes 0 (read_list_ziplist key)
unfolding read_list_ziplist
ziplist-Takes key = bind-Takes (any-Takes read_zip_list-Takes) (λ e. return-Takes _)

node-Takes : (key : Bytes) (container : ℕ) → Takes 0 (read_node key container)
unfolding read_node
node-Takes key container =
    if-Takes (container == 1) (bind-Takes (any-Takes read_string-Takes) (λ e. return-Takes _)) (
      if-Takes (container == 2) (bind-Takes (any-Takes read_listpack-Takes) (λ e. return-Takes _))
        fail-Takes)

pub rewrite_list-Takes : (key : Bytes) (t : ℕ) → Takes 0 (rewrite_list key t)
unfolding rewrite_list read_list read_quicklist read_quicklist2
rewrite_list-Takes key t = after_del-Takes key (
    if-Takes (t == 1) (each_string-Takes _) (
      if-Takes (t == 10) (ziplist-Takes key) (
        if-Takes (t == 14) (counted-Takes (ziplist-Takes key)) (
          if-Takes (t == 18)
            (counted-Takes (bind-Takes (any-Takes read_length-Takes) (node-Takes key)))
            fail-Takes))))

pub rewrite_set-Takes : (key : Bytes) (t : ℕ) → Takes 0 (rewrite_set key t)
unfolding rewrite_set read_set read_set_intset read_set_listpack
rewrite_set-Takes key t = after_del-Takes key (
    if-Takes (t == 2) (each_string-Takes _) (
      if-Takes (t == 11) (bind-Takes (any-Takes read_intset-Takes) (λ e. return-Takes _)) (
        if-Takes (t == 20) (bind-Takes (any-Takes read_listpack-Takes) (λ e. return-Takes _))
          fail-Takes)))

member-Takes :
    (format : ℕ → Bytes) (key : Bytes) {m : Reader ℕ}
    → Takes 0 m
    → Takes 0 (read_member format key m)
unfolding read_member
member-Takes format key h =
    bind-Takes (any-Takes read_string-Takes) (λ s. bind-Takes h (λ c. return-Takes _))

zadd_pairs-Takes : (key : Bytes) (list : List Bytes) → Takes 0 (zadd_pairs key list)
unfolding zadd_pairs
zadd_pairs-Takes key list =
    if-Takes (length list % 2 == 0)
      (bind-Takes (lift-Takes (pairs-Ends list)) (λ ps. return-Takes _)) fail-Takes

pub rewrite_zset-Takes :
    (floats : FloatText) (key : Bytes) (t : ℕ) → Takes 0 (rewrite_zset floats key t)
unfolding rewrite_zset read_zset read_zset2 read_zset_ziplist read_zset_listpack
rewrite_zset-Takes floats key t = after_del-Takes key (
    if-Takes (t == 3) (counted-Takes (member-Takes _ key (read_float-Takes floats))) (
      if-Takes (t == 5) (counted-Takes (member-Takes _ key read_double-Takes)) (
        if-Takes (t == 12) (bind-Takes (any-Takes read_zip_list-Takes) (zadd_pairs-Takes key)) (
          if-Takes (t == 17) (bind-Takes (any-Takes read_listpack-Takes) (zadd_pairs-Takes key))
            fail-Takes))))

pairs-Takes :
    {B : Type 0} (list : List Bytes) (f : List (Bytes × Bytes) → B)
    → Takes 0 (◌>>=◌ (lift (pairs list)) (λ ps. return (f ps)))
pairs-Takes list f = bind-Takes (lift-Takes (pairs-Ends list)) (λ ps. return-Takes (f ps))

pub parsed-Ends :
    {A : Type 0} {P : A → Type 0} (p : Parsed) (f : ℤ → Outcome A)
    → ((n : ℤ) → Ends P (f n))
    → Ends P (elim p [ Parsed.parsed n ↦ f n | _ ↦ panic logged ])
parsed-Ends (Parsed.parsed n) f h = h n
parsed-Ends Parsed.bad_syntax f h = stopped
parsed-Ends (Parsed.bad_range n) f h = stopped

triples-Ends : (key : Bytes) (xs : List Bytes) → Ends (λ cmds. Unit {0}) (triples key xs)
unfolding triples
triples-Ends key [] = ended tt
triples-Ends key (x ∷ []) = stopped
triples-Ends key (x ∷ y ∷ []) = stopped
triples-Ends key (x ∷ y ∷ z ∷ xs) =
    parsed-Ends (parse_int z) _ (λ n. bind-Ends (triples-Ends key xs) (λ cmds e h. ended tt))

min_expire-Takes : (is_pre : Bool) → Takes 0 (read_min_expire is_pre)
unfolding read_min_expire
min_expire-Takes is_pre =
    if-Takes is_pre (return-Takes _) (bind-Takes read_uint-Takes.1.1.1.1 (λ n. return-Takes _))

field-Takes : (key : Bytes) → Takes 0 (read_field key)
unfolding read_field
field-Takes key =
    bind-Takes (any-Takes read_string-Takes)
      (λ f. bind-Takes (any-Takes read_string-Takes) (λ v. return-Takes _))

valkey-Takes : (key : Bytes) → Takes 0 (read_field_valkey key)
unfolding read_field_valkey
valkey-Takes key = bind-Takes (any-Takes read_string-Takes) (λ f.
    bind-Takes (any-Takes read_string-Takes)
      (λ v. bind-Takes read_uint-Takes.1.1.1.1 (λ e. return-Takes _)))

ttl-Takes : (is_pre : Bool) (key : Bytes) → Takes 0 (read_hash_ttl is_pre key)
unfolding read_hash_ttl read_field_ttl
ttl-Takes is_pre key = bind-Takes (min_expire-Takes is_pre) (λ m. counted-Takes (
    bind-Takes (any-Takes read_length-Takes) (λ e.
      bind-Takes (any-Takes read_string-Takes)
        (λ f. bind-Takes (any-Takes read_string-Takes) (λ v. return-Takes _)))))

listpack_ttl-Takes : (is_pre : Bool) (key : Bytes) → Takes 0 (read_hash_listpack_ttl is_pre key)
unfolding read_hash_listpack_ttl
listpack_ttl-Takes is_pre key =
    bind-Takes (min_expire-Takes is_pre)
      (λ m. bind-Takes (any-Takes read_listpack-Takes) (λ l. lift-Takes (triples-Ends key l)))

pub rewrite_hash-Takes : (v : Bool) (key : Bytes) (t : ℕ) → Takes 0 (rewrite_hash v key t)
unfolding rewrite_hash read_hash read_hash_ziplist read_hash_listpack read_hash_valkey
rewrite_hash-Takes v key t = after_del-Takes key (
    if-Takes (t == 4) (counted-Takes (field-Takes key)) (
      if-Takes (t == 9) fail-Takes (
        if-Takes (t == 13) (bind-Takes (any-Takes read_zip_list-Takes) (λ l. pairs-Takes l _)) (
          if-Takes (t == 16) (bind-Takes (any-Takes read_listpack-Takes) (λ l. pairs-Takes l _)) (
            if-Takes (t == 22) (if-Takes v (counted-Takes (valkey-Takes key)) (ttl-Takes true key))
              (if-Takes (t == 23) (listpack_ttl-Takes true key) (
                if-Takes (t == 24) (ttl-Takes false key)
                  (if-Takes (t == 25) (listpack_ttl-Takes false key) fail-Takes))))))))
