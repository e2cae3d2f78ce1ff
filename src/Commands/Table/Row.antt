-- ===== src/Commands/Table/Row.antt =====
-- A table of commands: its names with their entries.
use redis_shake.Prelude.{List, Bytes, codes, String}
use redis_shake.Commands.Types.{KeySpec, RedisCommand}

abbrev pub Table : Type 0
Table = List (Bytes × RedisCommand)

abbrev pub row : String → String → List KeySpec → Bytes × RedisCommand
row name group specs = (codes name, record { group = codes group; key_spec = specs })
