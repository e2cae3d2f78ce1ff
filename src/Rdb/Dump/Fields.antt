-- ===== src/Rdb/Dump/Fields.antt =====
-- The records of a dump have fields that fit, and values that are read.
use redis_shake.Prelude.{
  ℕ, Bytes, ◌≤◌, Bool, List, [], ◌∷◌, ◌++◌, length, length-append, All, Option, none, some, arith,
}
use redis_shake.Structure.Text.Saved.{Saved, IsSaved}
use redis_shake.Rdb.Restore.{Options}
use redis_shake.Rdb.Loader.{object_options}
use redis_shake.Rdb.Values.{Value, type_of, save, commands, IsSound, parse_object-save}
use redis_shake.Rdb.Items.{Item, IsItem, IsValue, payload, save_items}
use redis_shake.Rdb.Dump.{
  Expiry, Key, Db, Aux, Dump, expiry_items, hint_items, value_items, key_items, keys_items,
  db_items, dbs_items, aux_items, function_items, dump_items, IsExpiry, IsHint, IsKey, IsDb, IsAux,
  IsDump,
}

All-append : {A : Type 0} (P : A → Type 0) (xs ys : List A) → All P xs → All P ys → All P (xs ++ ys)
All-append P [] ys h k = k
All-append P (x ∷ xs) ys h k = (h.0, All-append P xs ys h.1 k)

pub length-save_items : (is : List Item) → length is ≤ length (save_items is)
length-save_items [] = omega arith
length-save_items (i ∷ is) =
    omega (arith, length-append (payload i) (save_items is), length-save_items is)

module _ (options : Options) (is_valkey : Bool) where
  hints-IsItem :
      (lru lfu : Option ℕ) → IsHint lru → All (IsItem options is_valkey) (hint_items lru lfu)
  hints-IsItem none none h = tt
  hints-IsItem (some l) none h = (h, tt)
  hints-IsItem none (some f) h = (tt, tt)
  hints-IsItem (some l) (some f) h = (h, (tt, tt))

  expiry-IsItem : (e : Expiry) → IsExpiry e → All (IsItem options is_valkey) (expiry_items e)
  expiry-IsItem Expiry.never h = tt
  expiry-IsItem (Expiry.at_ms n) h = (omega arith, tt)
  expiry-IsItem (Expiry.at_s n) h = (h, tt)

  key-IsItem : (k : Key) → IsKey options is_valkey k → All (IsItem options is_valkey) (key_items k)
  key-IsItem k h =
      All-append (IsItem options is_valkey) (expiry_items k.expiry) (value_items k)
        (expiry-IsItem k.expiry h.1.1.1.0)
        (All-append (IsItem options is_valkey) (hint_items k.lru k.lfu) _
          (hints-IsItem k.lru k.lfu h.1.1.1.1) ((h.0, (h.1.0, h.1.1.0)), tt))

  keys-IsItem :
      (ks : List Key)
      → All (IsKey options is_valkey) ks
      → All (IsItem options is_valkey) (keys_items ks)
  keys-IsItem [] h = tt
  keys-IsItem (k ∷ ks) h =
      All-append (IsItem options is_valkey) (key_items k) (keys_items ks) (key-IsItem k h.0)
        (keys-IsItem ks h.1)

  dbs-IsItem :
      (ds : List Db)
      → All (IsDb options is_valkey) ds
      → All (IsItem options is_valkey) (dbs_items ds)
  dbs-IsItem [] h = tt
  dbs-IsItem (d ∷ ds) h =
      All-append (IsItem options is_valkey) (db_items d) (dbs_items ds)
        (omega arith, (h.0.1.0, keys-IsItem d.keys h.0.1.1)) (dbs-IsItem ds h.1)

  aux-IsItem :
      (more : List Aux)
      → All (IsAux options is_valkey) more
      → All (IsItem options is_valkey) (aux_items more)
  aux-IsItem [] h = tt
  aux-IsItem (Aux.repl_stream_db k v n ∷ more) h = (h.0.0, aux-IsItem more h.1)
  aux-IsItem (Aux.lua k v ∷ more) h = (h.0.0, aux-IsItem more h.1)
  aux-IsItem (Aux.other k v ∷ more) h = (h.0.0, aux-IsItem more h.1)

  functions-IsItem :
      (fs : List Saved) → All IsSaved fs → All (IsItem options is_valkey) (function_items fs)
  functions-IsItem [] h = tt
  functions-IsItem (f ∷ fs) h = (h.0, functions-IsItem fs h.1)

  pub dump-IsItem :
      (d : Dump) → IsDump options is_valkey d → All (IsItem options is_valkey) (dump_items d)
  dump-IsItem d h =
      All-append (IsItem options is_valkey) (aux_items d.aux) _ (aux-IsItem d.aux h.0) (
        All-append (IsItem options is_valkey) (function_items d.functions) _
          (functions-IsItem d.functions h.1.0) (dbs-IsItem d.dbs h.1.1))

  -- The values of Rdb/Values are values to the reader of the objects.
  pub save-IsValue :
      (key : Bytes) (v : Value)
      → IsSound (object_options options is_valkey) v
      → IsValue options is_valkey
          (type_of v)
          key
          (save v)
          (commands (object_options options is_valkey) key v)
  save-IsValue key v h = λ rest. parse_object-save (object_options options is_valkey) key v rest h
