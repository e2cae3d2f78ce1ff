-- ===== src/Commands/Table/FromEvalsha.antt =====
-- Entries `EVALSHA` to `GEOSEARCH` of backend/internal/commands/table.go.
use redis_shake.Prelude.{[], ◌∷◌}
use redis_shake.Prelude.Int.{pos}
use redis_shake.Commands.Types.{index_keynum, index_range, keyword_range}
use redis_shake.Commands.Table.Row.{Table, row}

abbrev pub from_evalsha : Table
from_evalsha =
    row "EVALSHA" "SCRIPTING" (index_keynum 2 1 ∷ [])
    ∷ row "EVALSHA_RO" "SCRIPTING" (index_keynum 2 1 ∷ [])
    ∷ row "FCALL" "SCRIPTING" (index_keynum 2 1 ∷ [])
    ∷ row "FCALL_RO" "SCRIPTING" (index_keynum 2 1 ∷ [])
    ∷ row "FUNCTION-DELETE" "SCRIPTING" []
    ∷ row "FUNCTION-DUMP" "SCRIPTING" []
    ∷ row "FUNCTION-FLUSH" "SCRIPTING" []
    ∷ row "FUNCTION-HELP" "SCRIPTING" []
    ∷ row "FUNCTION-KILL" "SCRIPTING" []
    ∷ row "FUNCTION-LIST" "SCRIPTING" []
    ∷ row "FUNCTION-LOAD" "SCRIPTING" []
    ∷ row "FUNCTION-RESTORE" "SCRIPTING" []
    ∷ row "FUNCTION-STATS" "SCRIPTING" []
    ∷ row "FUNCTION" "SCRIPTING" []
    ∷ row "SCRIPT-DEBUG" "SCRIPTING" []
    ∷ row "SCRIPT-EXISTS" "SCRIPTING" []
    ∷ row "SCRIPT-FLUSH" "SCRIPTING" []
    ∷ row "SCRIPT-HELP" "SCRIPTING" []
    ∷ row "SCRIPT-KILL" "SCRIPTING" []
    ∷ row "SCRIPT-LOAD" "SCRIPTING" []
    ∷ row "SCRIPT-SHOW" "SCRIPTING" []
    ∷ row "SCRIPT" "SCRIPTING" []
    ∷ []

abbrev pub from_exhset : Table
from_exhset =
    row "EXHSET" "TAIRHASH" (index_range 1 (pos 0) 1 ∷ [])
    ∷ row "EXSET" "TAIRSTRING" (index_range 1 (pos 0) 1 ∷ [])
    ∷ row "EXZADD" "TAIRZSET" (index_range 1 (pos 0) 1 ∷ [])
    ∷ row "GEOADD" "GEO" (index_range 1 (pos 0) 1 ∷ [])
    ∷ row "GEODIST" "GEO" (index_range 1 (pos 0) 1 ∷ [])
    ∷ row "GEOHASH" "GEO" (index_range 1 (pos 0) 1 ∷ [])
    ∷ row "GEOPOS" "GEO" (index_range 1 (pos 0) 1 ∷ [])
    ∷ []

abbrev pub from_georadius : Table
from_georadius =
    row "GEORADIUS" "GEO" (
      index_range 1 (pos 0) 1
      ∷ keyword_range "STORE" 6 (pos 0) 0
      ∷ keyword_range "STOREDIST" 6 (pos 0) 0
      ∷ [])
    ∷ row "GEORADIUS_RO" "GEO" (index_range 1 (pos 0) 1 ∷ [])
    ∷ row "GEORADIUSBYMEMBER" "GEO" (
        index_range 1 (pos 0) 1
        ∷ keyword_range "STORE" 5 (pos 0) 0
        ∷ keyword_range "STOREDIST" 5 (pos 0) 0
        ∷ [])
    ∷ row "GEORADIUSBYMEMBER_RO" "GEO" (index_range 1 (pos 0) 1 ∷ [])
    ∷ row "GEOSEARCH" "GEO" (index_range 1 (pos 0) 1 ∷ [])
    ∷ []
