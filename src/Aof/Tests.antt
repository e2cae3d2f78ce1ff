-- ===== src/Aof/Tests.antt =====
-- The loader at a small file.
use redis_shake.Prelude.{◌≡◌, ◌≢◌, List, [], ◌∷◌, codes, arith}
use redis_shake.Prelude.Int.{pos}
use redis_shake.Go.Outcome.{ok, diverges}
use redis_shake.Aof.{truncated, load}
use redis_shake.Aof.Total.{load-ne-diverges}
use redis_shake.Aof.Replay.{Item, run, stamp, save_items, entry_of, load-save_items}

abbrev items : List Item
items =
    stamp (pos 1700000000)
    ∷ run (codes "PING" ∷ [])
    ∷ stamp (pos 1700000009)
    ∷ run (codes "FLUSHALL" ∷ [])
    ∷ []

load-save_items_example :
    load (pos 1700000005) (save_items items) ≡ ok (truncated, entry_of (codes "PING" ∷ []) ∷ [])
load-save_items_example = load-save_items (pos 1700000005) items (ground arith)

load-ne-diverges_example : load (pos 0) (codes "*1") ≢ diverges
load-ne-diverges_example = load-ne-diverges (pos 0) (codes "*1")
