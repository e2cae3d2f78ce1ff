-- ===== src/Rdb/Restore.antt =====
-- The state of the loader of backend/internal/rdb/rdb.go, `createValueDump`, and the entries that an
-- object is sent as.
pub mod Verified
use redis_shake.Prelude.{
  ℕ, ◌+◌, List, [], ◌∷◌, ◌++◌, Bytes, codes, length, ltb, bytes_eq, if◌then◌else◌,
}
use redis_shake.Prelude.Int.{ℤ, pos, ltb_ℤ, eq_ℤ}
use redis_shake.Go.Strconv.{format_int}
use redis_shake.Hash.Crc64.{calc_crc64}
use redis_shake.Structure.Reader.Laws.{le_bytes}
use redis_shake.Structure.Float.{FloatText}
use redis_shake.Entry.{Entry, new_entry}
use redis_shake.Rdb.Commands.{RedisCmd}

-- The fields of the loader that the opcodes change.
pub record Loader : Type 0 where
  pub repl_stream_db_id : ℤ
  pub now_db_id : ℤ
  pub expire_ms : ℤ
  pub idle : ℤ
  pub freq : ℤ

unfoldable pub new_loader : Loader
new_loader = record {
  repl_stream_db_id = pos 0;
  now_db_id = pos 0;
  expire_ms = pos 0;
  idle = pos 0;
  freq = pos 0;
}

-- The options of the configuration.
pub record Options : Type 0 where
  pub floats : FloatText
  pub target_mbbloom_version : ℕ
  pub target_redis_proto_max_bulk_len : ℕ
  pub rdb_restore_command_behavior : Bytes

-- The type byte, the value, the version 6 and the checksum of all that.
unfoldable pub create_value_dump : ℕ → Bytes → Bytes
create_value_dump type_byte val =
    let body = (type_byte ∷ val) ++ le_bytes 2 6 in body ++ le_bytes 8 (calc_crc64 body)

abbrev pub send : ℤ → RedisCmd → Entry
send db_id argv = record new_entry { db_id = db_id; argv = argv }

abbrev pub send_all : ℤ → List RedisCmd → List Entry
send_all db_id [] = []
send_all db_id (cmd ∷ cmds) = send db_id cmd ∷ send_all db_id cmds

-- The entries of an object whose dump is too long for one argument.
unfoldable pub separate_commands : Loader → Bytes → List RedisCmd → List Entry
unfolding new_entry
separate_commands ld key cmds =
    send_all ld.now_db_id cmds
    ++ (if eq_ℤ ld.expire_ms (pos 0)
        then []
        else send ld.now_db_id (codes "PEXPIRE" ∷ key ∷ format_int ld.expire_ms ∷ []) ∷ [])

unfoldable pub restore : Options → Loader → Bytes → ℕ → Bytes → Entry
unfolding new_entry create_value_dump
restore options ld key type_byte value =
    let pttl = if ltb_ℤ (pos 0) ld.expire_ms then ld.expire_ms else pos 0 in
    send ld.now_db_id (
      codes "RESTORE"
      ∷ key
      ∷ format_int pttl
      ∷ create_value_dump type_byte value
      ∷ (if bytes_eq options.rdb_restore_command_behavior (codes "rewrite")
          then codes "replace" ∷ []
          else []))

unfoldable pub object_entries : Options → Loader → Bytes → ℕ → Bytes → List RedisCmd → List Entry
unfolding separate_commands restore
object_entries options ld key type_byte value cmds =
    if ltb options.target_redis_proto_max_bulk_len (1 + length value + 2 + 8)
    then separate_commands ld key cmds
    else restore options ld key type_byte value ∷ []
