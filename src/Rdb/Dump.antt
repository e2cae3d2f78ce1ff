-- ===== src/Rdb/Dump.antt =====
-- A whole database as Redis saves it, and the entries that the loader of
-- backend/internal/rdb/rdb.go has to send for it.
pub mod Runs
pub mod Fields
pub mod Restored
use redis_shake.Prelude.{
  ℕ, suc, ◌+◌, ◌-◌, ◌*◌, ◌^◌, ◌<◌, Bool, false, List, [], ◌∷◌, ◌++◌, Bytes, codes, length, Option,
  none, some, All, ltb, ◌==◌, bytes_eq, if◌then◌else◌, ◌≡◌,
}
use redis_shake.Prelude.Int.{ℤ, pos}
use redis_shake.Go.Strconv.{format_uint}
use redis_shake.Structure.Text.Saved.{Saved, text, IsSaved}
use redis_shake.Entry.{Entry}
use redis_shake.Rdb.Commands.{RedisCmd}
use redis_shake.Rdb.Restore.{Options, create_value_dump, send, send_all}
use redis_shake.Rdb.Items.{Item, IsValue}

pub data Expiry : Type 0 where
  never : Expiry
  at_ms at_s : ℕ → Expiry

-- A key with its value in the encoding of `type_byte`, which stands for `cmds`.
pub record Key : Type 0 where
  pub name : Saved
  pub type_byte : ℕ
  pub value : Bytes
  pub cmds : List RedisCmd
  pub expiry : Expiry
  pub lru : Option ℕ
  pub lfu : Option ℕ

pub record Db : Type 0 where
  pub number : ℕ
  pub size : ℕ
  pub expires_size : ℕ
  pub keys : List Key

-- A name and a text, each in any encoding of a string: Redis writes the number of the database of
-- the replication stream as an integer.
pub data Aux : Type 0 where
  repl_stream_db : Saved → Saved → ℕ → Aux
  lua other : Saved → Saved → Aux

pub record Dump : Type 0 where
  pub aux : List Aux
  pub functions : List Saved
  pub dbs : List Db

-- The records of a dump, in the order in which Redis writes them.
abbrev pub expiry_items : Expiry → List Item
expiry_items Expiry.never = []
expiry_items (Expiry.at_ms n) = Item.expire_ms n ∷ []
expiry_items (Expiry.at_s n) = Item.expire n ∷ []

abbrev pub hint_items : Option ℕ → Option ℕ → List Item
hint_items none none = []
hint_items (some l) none = Item.idle l ∷ []
hint_items none (some f) = Item.freq f ∷ []
hint_items (some l) (some f) = Item.idle l ∷ Item.freq f ∷ []

abbrev pub value_items : Key → List Item
value_items k = hint_items k.lru k.lfu ++ Item.object k.type_byte k.name k.value k.cmds ∷ []

abbrev pub key_items : Key → List Item
key_items k = expiry_items k.expiry ++ value_items k

abbrev pub keys_items : List Key → List Item
keys_items [] = []
keys_items (k ∷ ks) = key_items k ++ keys_items ks

abbrev pub db_items : Db → List Item
db_items d = Item.select d.number ∷ Item.resize_db d.size d.expires_size ∷ keys_items d.keys

abbrev pub dbs_items : List Db → List Item
dbs_items [] = []
dbs_items (d ∷ ds) = db_items d ++ dbs_items ds

abbrev pub aux_item : Aux → Item
aux_item (Aux.repl_stream_db k v n) = Item.aux k v
aux_item (Aux.lua k v) = Item.aux k v
aux_item (Aux.other k v) = Item.aux k v

abbrev pub aux_items : List Aux → List Item
aux_items [] = []
aux_items (a ∷ more) = aux_item a ∷ aux_items more

abbrev pub function_items : List Saved → List Item
function_items [] = []
function_items (f ∷ fs) = Item.function2 f ∷ function_items fs

abbrev pub dump_items : Dump → List Item
dump_items d = aux_items d.aux ++ (function_items d.functions ++ dbs_items d.dbs)

-- The database of the replication stream: the last one named, and `n` before that.
abbrev pub repl_db : ℕ → List Aux → ℕ
repl_db n [] = n
repl_db n (Aux.repl_stream_db k v m ∷ more) = repl_db m more
repl_db n (Aux.lua k v ∷ more) = repl_db n more
repl_db n (Aux.other k v ∷ more) = repl_db n more

abbrev pub aux_entries : List Aux → List Entry
aux_entries [] = []
aux_entries (Aux.repl_stream_db k v m ∷ more) = aux_entries more
aux_entries (Aux.lua k v ∷ more) =
    send (pos 0) (codes "script" ∷ codes "load" ∷ text v ∷ []) ∷ aux_entries more
aux_entries (Aux.other k v ∷ more) = aux_entries more

abbrev pub function_entries : List Saved → List Entry
function_entries [] = []
function_entries (f ∷ fs) =
    send (pos 0) (codes "function" ∷ codes "load" ∷ codes "replace" ∷ text f ∷ [])
    ∷ function_entries fs

-- The time to live at the time `now`, where 0 is none: 1 where it has passed.
abbrev pub remaining : ℕ → ℕ → ℕ
remaining now at = if ltb at now then 1 else at - now

abbrev pub ttl : ℕ → Expiry → ℕ
ttl now Expiry.never = 0
ttl now (Expiry.at_ms n) = remaining now n
ttl now (Expiry.at_s n) = remaining now (n * 1000)

module _ (options : Options) where
  -- One RESTORE, or the commands of the value where the dump is too long for an argument.
  abbrev pub live_entries : ℕ → ℕ → Key → List Entry
  live_entries live db k =
      if ltb options.target_redis_proto_max_bulk_len (1 + length k.value + 2 + 8)
      then send_all (pos db) k.cmds
        ++ (if live == 0
            then []
            else send (pos db) (codes "PEXPIRE" ∷ text k.name ∷ format_uint live ∷ []) ∷ [])
      else send (pos db) (
          codes "RESTORE"
          ∷ text k.name
          ∷ format_uint live
          ∷ create_value_dump k.type_byte k.value
          ∷ (if bytes_eq options.rdb_restore_command_behavior (codes "rewrite")
              then codes "replace" ∷ []
              else []))
        ∷ []

  abbrev pub key_entries : ℕ → ℕ → Key → List Entry
  key_entries now db k = live_entries (ttl now k.expiry) db k

  -- The keys of a database. `clock i` is the time of the record `i`.
  abbrev pub keys_entries : (ℕ → ℕ) → ℕ → ℕ → List Key → List Entry
  keys_entries clock i db [] = []
  keys_entries clock i db (k ∷ ks) =
      key_entries (clock i) db k ++ keys_entries clock (i + length (key_items k)) db ks

  abbrev pub dbs_entries : (ℕ → ℕ) → ℕ → List Db → List Entry
  dbs_entries clock i [] = []
  dbs_entries clock i (d ∷ ds) =
      keys_entries clock (suc (suc i)) d.number d.keys
      ++ dbs_entries clock (i + length (db_items d)) ds

  abbrev pub dump_entries : (ℕ → ℕ) → Dump → List Entry
  dump_entries clock d =
      aux_entries d.aux
      ++ (function_entries d.functions
          ++ dbs_entries clock (length (aux_items d.aux) + length (function_items d.functions))
              d.dbs)

-- What fits the fields of the file.
abbrev pub IsExpiry : Expiry → Type 0
IsExpiry Expiry.never = Unit
IsExpiry (Expiry.at_ms n) = n < 2 ^ 63
IsExpiry (Expiry.at_s n) = n < 2 ^ 32

abbrev pub IsHint : Option ℕ → Type 0
IsHint none = Unit
IsHint (some n) = n < 2 ^ 64

module _ (options : Options) (is_valkey : Bool) where
  abbrev pub IsKey : Key → Type 0
  IsKey k =
      (k.type_byte < 244)
      × (IsSaved k.name
          × (IsValue options is_valkey k.type_byte (text k.name) k.value k.cmds
              × (IsExpiry k.expiry × IsHint k.lru)))

  abbrev pub IsDb : Db → Type 0
  IsDb d =
      (d.number < 2 ^ 63) × (((d.size < 2 ^ 64) × (d.expires_size < 2 ^ 64)) × All IsKey d.keys)

  abbrev pub IsAux : Aux → Type 0
  IsAux (Aux.repl_stream_db k v n) =
      (IsSaved k × IsSaved v)
      × ((text k ≡ codes "repl-stream-db") × ((text v ≡ format_uint n) × (n < 2 ^ 31)))
  IsAux (Aux.lua k v) = (IsSaved k × IsSaved v) × (text k ≡ codes "lua")
  IsAux (Aux.other k v) =
      (IsSaved k × IsSaved v)
      × ((bytes_eq (text k) (codes "repl-stream-db") ≡ false)
          × (bytes_eq (text k) (codes "lua") ≡ false))

  abbrev pub IsDump : Dump → Type 0
  IsDump d = All IsAux d.aux × (All IsSaved d.functions × All IsDb d.dbs)
