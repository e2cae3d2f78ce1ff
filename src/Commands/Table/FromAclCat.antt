-- ===== src/Commands/Table/FromAclCat.antt =====
-- Entries `ACL-CAT` to `DELEX` of backend/internal/commands/table.go.
use redis_shake.Prelude.{[], ◌∷◌}
use redis_shake.Prelude.Int.{pos}
use redis_shake.Commands.Types.{index_range}
use redis_shake.Commands.Table.Row.{Table, row}

abbrev pub from_acl_cat : Table
from_acl_cat =
    row "ACL-CAT" "SERVER" []
    ∷ row "ACL-DELUSER" "SERVER" []
    ∷ row "ACL-DRYRUN" "SERVER" []
    ∷ row "ACL-GENPASS" "SERVER" []
    ∷ row "ACL-GETUSER" "SERVER" []
    ∷ row "ACL-HELP" "SERVER" []
    ∷ row "ACL-LIST" "SERVER" []
    ∷ row "ACL-LOAD" "SERVER" []
    ∷ row "ACL-LOG" "SERVER" []
    ∷ row "ACL-SAVE" "SERVER" []
    ∷ row "ACL-SETUSER" "SERVER" []
    ∷ row "ACL-USERS" "SERVER" []
    ∷ row "ACL-WHOAMI" "SERVER" []
    ∷ row "ACL" "SERVER" []
    ∷ row "BGREWRITEAOF" "SERVER" []
    ∷ row "BGSAVE" "SERVER" []
    ∷ row "COMMAND-COUNT" "SERVER" []
    ∷ row "COMMAND-DOCS" "SERVER" []
    ∷ row "COMMAND-GETKEYS" "SERVER" []
    ∷ row "COMMAND-GETKEYSANDFLAGS" "SERVER" []
    ∷ row "COMMAND-HELP" "SERVER" []
    ∷ row "COMMAND-INFO" "SERVER" []
    ∷ row "COMMAND-LIST" "SERVER" []
    ∷ row "COMMAND" "SERVER" []
    ∷ row "COMMANDLOG-GET" "SERVER" []
    ∷ row "COMMANDLOG-HELP" "SERVER" []
    ∷ row "COMMANDLOG-LEN" "SERVER" []
    ∷ row "COMMANDLOG-RESET" "SERVER" []
    ∷ row "COMMANDLOG" "SERVER" []
    ∷ row "CONFIG-GET" "SERVER" []
    ∷ row "CONFIG-HELP" "SERVER" []
    ∷ row "CONFIG-RESETSTAT" "SERVER" []
    ∷ row "CONFIG-REWRITE" "SERVER" []
    ∷ row "CONFIG-SET" "SERVER" []
    ∷ row "CONFIG" "SERVER" []
    ∷ row "DBSIZE" "SERVER" []
    ∷ row "DEBUG" "SERVER" []
    ∷ []

abbrev pub from_failover : Table
from_failover =
    row "FAILOVER" "SERVER" []
    ∷ row "FLUSHALL" "SERVER" []
    ∷ row "FLUSHDB" "SERVER" []
    ∷ row "INFO" "SERVER" []
    ∷ row "LASTSAVE" "SERVER" []
    ∷ row "LATENCY-DOCTOR" "SERVER" []
    ∷ row "LATENCY-GRAPH" "SERVER" []
    ∷ row "LATENCY-HELP" "SERVER" []
    ∷ row "LATENCY-HISTOGRAM" "SERVER" []
    ∷ row "LATENCY-HISTORY" "SERVER" []
    ∷ row "LATENCY-LATEST" "SERVER" []
    ∷ row "LATENCY-RESET" "SERVER" []
    ∷ row "LATENCY" "SERVER" []
    ∷ row "LOLWUT" "SERVER" []
    ∷ row "MEMORY-DOCTOR" "SERVER" []
    ∷ row "MEMORY-HELP" "SERVER" []
    ∷ row "MEMORY-MALLOC-STATS" "SERVER" []
    ∷ row "MEMORY-PURGE" "SERVER" []
    ∷ row "MEMORY-STATS" "SERVER" []
    ∷ row "MEMORY-USAGE" "SERVER" (index_range 2 (pos 0) 1 ∷ [])
    ∷ row "MEMORY" "SERVER" []
    ∷ row "MODULE-HELP" "SERVER" []
    ∷ row "MODULE-LIST" "SERVER" []
    ∷ row "MODULE-LOAD" "SERVER" []
    ∷ row "MODULE-LOADEX" "SERVER" []
    ∷ row "MODULE-UNLOAD" "SERVER" []
    ∷ row "MODULE" "SERVER" []
    ∷ row "MONITOR" "SERVER" []
    ∷ row "PSYNC" "SERVER" []
    ∷ row "REPLCONF" "SERVER" []
    ∷ row "REPLICAOF" "SERVER" []
    ∷ []

abbrev pub from_restore_asking : Table
from_restore_asking =
    row "RESTORE-ASKING" "SERVER" (index_range 1 (pos 0) 1 ∷ [])
    ∷ row "ROLE" "SERVER" []
    ∷ row "SAVE" "SERVER" []
    ∷ row "SFLUSH" "SERVER" []
    ∷ row "SHUTDOWN" "SERVER" []
    ∷ row "SLAVEOF" "SERVER" []
    ∷ row "SLOWLOG-GET" "SERVER" []
    ∷ row "SLOWLOG-HELP" "SERVER" []
    ∷ row "SLOWLOG-LEN" "SERVER" []
    ∷ row "SLOWLOG-RESET" "SERVER" []
    ∷ row "SLOWLOG" "SERVER" []
    ∷ row "SWAPDB" "SERVER" []
    ∷ row "SYNC" "SERVER" []
    ∷ row "TIME" "SERVER" []
    ∷ row "TRIMSLOTS" "SERVER" []
    ∷ row "APPEND" "STRING" (index_range 1 (pos 0) 1 ∷ [])
    ∷ row "DECR" "STRING" (index_range 1 (pos 0) 1 ∷ [])
    ∷ row "DECRBY" "STRING" (index_range 1 (pos 0) 1 ∷ [])
    ∷ row "DELEX" "STRING" (index_range 1 (pos 0) 1 ∷ [])
    ∷ []
