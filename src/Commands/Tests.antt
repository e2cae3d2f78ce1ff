-- ===== src/Commands/Tests.antt =====
-- Runs of `CalcKeys` and `CalcSlots` on the commands of keys_test.go, and the theorems at them.
use redis_shake.Prelude.{◌%◌, ◌++◌, ◌≢◌, arith, List, [], ◌∷◌, Bytes, codes, ◌≡◌, refl}
use redis_shake.Prelude.Int.{ℤ, pos}
use redis_shake.Go.Outcome.{ok, panic, diverges, out_of_range}
use redis_shake.Commands.Keys.{run_calc_keys, calc_keys}
use redis_shake.Commands.Table.{lookup_command, is_container, redis_commands}
use redis_shake.Commands.Keys.Loops.{calc_keys-rest}
use redis_shake.Commands.Keys.Located.{Located, calc_keys-Located}
use redis_shake.Commands.Keys.Streams.{calc_keys-xread}
use redis_shake.Commands.Keys.Total.{calc_keys-ne-diverges}
use redis_shake.Commands.Slots.{find_hash_tag, key_hash}
use redis_shake.Commands.Slots.HashTag.{key_hash-hashed_part}
use redis_shake.Go.Strings.{to_upper}
use redis_shake.Hash.Crc16.{crc16}

abbrev zunionstore : List Bytes
zunionstore = codes "zunionstore" ∷ codes "key" ∷ codes "2" ∷ codes "key1" ∷ codes "key2" ∷ []

calc_keys-zunionstore :
    run_calc_keys zunionstore
    ≡ ok (record {
      cma_name = codes "ZUNIONSTORE";
      group = codes "SORTED_SET";
      found = record {
        keys = codes "key" ∷ codes "key1" ∷ codes "key2" ∷ [];
        indexes = pos 2 ∷ pos 4 ∷ pos 5 ∷ [];
      };
    })
unfolding run_calc_keys
calc_keys-zunionstore = refl

abbrev storedist : List Bytes
storedist =
    codes "GEORADIUS"
    ∷ codes "Sicily"
    ∷ codes "15"
    ∷ codes "37"
    ∷ codes "200"
    ∷ codes "km"
    ∷ codes "STOREDIST"
    ∷ codes "dest"
    ∷ []

calc_keys-storedist :
    run_calc_keys storedist
    ≡ ok (record {
      cma_name = codes "GEORADIUS";
      group = codes "GEO";
      found = record { keys = codes "Sicily" ∷ codes "dest" ∷ []; indexes = pos 2 ∷ pos 8 ∷ [] };
    })
unfolding run_calc_keys
calc_keys-storedist = refl

-- The count is missing: the guard lets `argc` itself through, and the index panics.
calc_keys_no_count : run_calc_keys (codes "EVAL" ∷ codes "return 1" ∷ []) ≡ panic out_of_range
unfolding run_calc_keys
calc_keys_no_count = refl

abbrev mset : List Bytes
mset = codes "k" ∷ codes "1" ∷ codes "l" ∷ codes "2" ∷ []

calc_keys-rest_example :
    (is : List ℤ) × (calc_keys redis_commands (codes "mset" ∷ mset)
      ≡ ok (record {
        cma_name = codes "MSET";
        group = codes "STRING";
        found = record { keys = codes "k" ∷ codes "l" ∷ []; indexes = is };
      }))
unfolding lookup_command is_container to_upper
calc_keys-rest_example =
    calc_keys-rest redis_commands (codes "mset") mset (codes "STRING") 1 (omega arith) refl refl

calc_keys-Located_example :
    Located zunionstore
      (codes "key" ∷ codes "key1" ∷ codes "key2" ∷ [])
      (pos 2 ∷ pos 4 ∷ pos 5 ∷ [])
unfolding run_calc_keys
calc_keys-Located_example = calc_keys-Located redis_commands zunionstore calc_keys-zunionstore

calc_keys-ne-diverges_example : calc_keys redis_commands zunionstore ≢ diverges
calc_keys-ne-diverges_example = calc_keys-ne-diverges zunionstore

abbrev read_args : List Bytes
read_args = codes "s" ∷ codes "t" ∷ codes "0-0" ∷ codes "5-1" ∷ []

calc_keys-xread_example :
    (is : List ℤ) × (calc_keys redis_commands
        (codes "xread" ∷ (codes "COUNT" ∷ codes "2" ∷ []) ++ codes "streams" ∷ read_args)
      ≡ ok (record {
        cma_name = codes "XREAD";
        group = codes "STREAM";
        found = record { keys = read_args; indexes = is };
      }))
unfolding to_upper
calc_keys-xread_example =
    calc_keys-xread (codes "xread") (codes "streams") (codes "COUNT" ∷ codes "2" ∷ []) read_args
      refl (refl, (refl, tt)) refl (omega arith)

key_hash-hashed_part_example : key_hash (codes "x{ab}y") ≡ crc16 (codes "ab") % 16384
key_hash-hashed_part_example = key_hash-hashed_part (codes "x{ab}y")

-- Some of TestKeyHash in keys_test.go.
key_hash_tests :
    (key_hash (codes "abcde") ≡ 16097)
    × (key_hash (codes "abcde{") ≡ 14689)
    × (key_hash (codes "abcde}") ≡ 6567)
    × (key_hash (codes "{abcde}") ≡ 16097)
    × (key_hash (codes "abcdefghi{same}abcdefghi") ≡ 13447)
unfolding key_hash find_hash_tag crc16
key_hash_tests = (refl, refl, refl, refl, refl)
