-- ===== src/Commands/Keys.antt =====
-- `CalcKeys` of backend/internal/commands/keys.go. The table of commands is an argument: the
-- program's own is `Table.redis_commands`. A map lookup that finds nothing is `none`.
pub mod Loops
pub mod Located
pub mod Streams
pub mod Total
use redis_shake.Prelude.{
  ℕ, zero, suc, ◌+◌, ◌/◌, ◌-◌, ◌^◌, Bool, true, false, ◌&&◌, ◌||◌, List, [], ◌∷◌, ◌++◌, length,
  Bytes, bytes_eq, codes, Option, none, some, ltb, if◌then◌else◌,
}
use redis_shake.Prelude.Int.{ℤ, pos, negsuc, ◌+ℤ◌, ◌-ℤ◌, ltb_ℤ, leb_ℤ, pos_part, neg_part}
use redis_shake.Go.Outcome.{Outcome, ok, panic, diverges, logged, ◌>>=◌, index}
use redis_shake.Go.Strings.{to_upper}
use redis_shake.Go.Strconv.{Parsed, parse_int}
use redis_shake.Commands.Types.{KeySpec, RedisCommand}
use redis_shake.Commands.Table.{Table, lookup_command, is_container, redis_commands}

-- The two result slices, `keys` and `keysIndexes`.
pub record Found : Type 0 where
  pub keys : List Bytes
  pub indexes : List ℤ

abbrev pub no_keys : Found
no_keys = record { keys = []; indexes = [] }

-- `keys = append(keys, argv[inx]); keysIndexes = append(keysIndexes, inx+1)`.
unfoldable pub append_key : List Bytes → ℤ → Found → Outcome Found
append_key argv inx found = do
  key ← index argv inx
  ok (record { keys = found.keys ++ key ∷ []; indexes = found.indexes ++ (inx +ℤ pos 1) ∷ [] })

-- The search for a keyword: the place behind it, or `none`.
unfoldable pub find_keyword : ℕ → List Bytes → Bytes → ℤ → ℤ → Outcome (Option ℤ)
find_keyword zero argv word inx step = diverges
find_keyword (suc fuel) argv word inx step =
    let next = find_keyword fuel argv word (inx +ℤ step) step in
    if leb_ℤ (pos 0) inx && ltb_ℤ inx (pos (length argv))
    then (do
      arg ← index argv inx
      if bytes_eq (to_upper arg) word then ok (some (inx +ℤ pos 1)) else next)
    else ok none

-- The first `switch`: where the keys begin, `none` for a keyword that is not there.
unfoldable pub begin_search : ℕ → List Bytes → KeySpec → Outcome (Option ℤ)
begin_search fuel argv spec =
    if bytes_eq spec.begin_search_type (codes "index")
    then ok (some spec.begin_search_index)
    else if bytes_eq spec.begin_search_type (codes "keyword")
    then (if ltb_ℤ (pos 0) spec.begin_search_start_from
        then find_keyword fuel argv spec.begin_search_keyword spec.begin_search_start_from (pos 1)
        else find_keyword fuel argv spec.begin_search_keyword
            (pos 0 -ℤ spec.begin_search_start_from) (negsuc 0))
    else panic logged

-- `for inx := begin; inx <= lastKeyInx && limitCount > 0; inx += keyStep`.
unfoldable pub range_keys : ℕ → List Bytes → ℤ → ℤ → ℤ → ℤ → Found → Outcome Found
range_keys zero argv inx last step limit found = diverges
range_keys (suc fuel) argv inx last step limit found =
    let body = (do
      found' ← append_key argv inx found
      range_keys fuel argv (inx +ℤ step) last step (limit -ℤ pos 1) found') in
    if leb_ℤ inx last && ltb_ℤ (pos 0) limit then body else ok found

-- `for inx := begin + firstKey; keyCount > 0; inx += step`.
unfoldable pub counted_keys : ℕ → List Bytes → ℤ → ℤ → ℤ → Found → Outcome Found
counted_keys zero argv inx step count found = diverges
counted_keys (suc fuel) argv inx step count found =
    let body = (do
      found' ← append_key argv inx found
      counted_keys fuel argv (inx +ℤ step) step (count -ℤ pos 1) found') in
    if ltb_ℤ (pos 0) count then body else ok found

-- Go's division of an `int` by a positive one: towards zero.
abbrev pub quotient : ℤ → ℕ → ℤ
quotient (pos n) d = pos (n / d)
quotient (negsuc n) d = pos 0 -ℤ pos (suc n / d)

-- `limitCount`; math.MaxInt32 where the specification sets no limit.
unfoldable pub limit_count : ℤ → ℤ → ℤ → ℤ
limit_count argc begin limit =
    if leb_ℤ limit (negsuc 1) then quotient (argc -ℤ begin) (neg_part limit) else pos (2 ^ 31 - 1)

unfoldable pub last_key_index : ℤ → ℤ → ℤ → ℤ
last_key_index argc begin last = if leb_ℤ (pos 0) last then begin +ℤ last else argc +ℤ last

-- `if err != nil { log.Panicf("%v", err) }`.
unfoldable pub parsed_or_panic : Parsed → Outcome ℤ
parsed_or_panic (Parsed.parsed n) = ok n
parsed_or_panic Parsed.bad_syntax = panic logged
parsed_or_panic (Parsed.bad_range n) = panic logged

-- `strconv.Atoi`, whose error is a panic here.
unfoldable pub key_count : Bytes → Outcome ℤ
unfolding parsed_or_panic
key_count arg = parsed_or_panic (parse_int arg)

-- `case "keynum"`, from where the keys begin. The guard lets `argc` itself through.
unfoldable pub keynum_keys : ℕ → List Bytes → KeySpec → ℤ → Found → Outcome Found
keynum_keys fuel argv spec begin found =
    let argc = pos (length argv) in
    let keynum_idx = begin +ℤ spec.find_keys_keynum_index in
    if ltb_ℤ keynum_idx (pos 0) || ltb_ℤ argc keynum_idx then panic logged else (do
      arg ← index argv keynum_idx
      count ← key_count arg
      counted_keys fuel argv (begin +ℤ spec.find_keys_keynum_first_key)
          spec.find_keys_keynum_key_step count found)

-- The second `switch`.
unfoldable pub find_keys : ℕ → List Bytes → KeySpec → ℤ → Found → Outcome Found
find_keys fuel argv spec begin found =
    let argc = pos (length argv) in
    if bytes_eq spec.find_keys_type (codes "range")
    then range_keys fuel argv begin (last_key_index argc begin spec.find_keys_range_last_key)
        spec.find_keys_range_key_step (limit_count argc begin spec.find_keys_range_limit) found
    else if bytes_eq spec.find_keys_type (codes "keynum")
    then keynum_keys fuel argv spec begin found
    else panic logged

-- `continue` where the keyword is not there.
unfoldable pub keys_from : ℕ → List Bytes → KeySpec → Found → Option ℤ → Outcome Found
keys_from fuel argv spec found none = ok found
keys_from fuel argv spec found (some begin) = find_keys fuel argv spec begin found

-- The body of `for _, spec := range cmd.keySpec`.
unfoldable pub spec_keys : ℕ → List Bytes → KeySpec → Found → Outcome Found
spec_keys fuel argv spec found = do
  begin ← begin_search fuel argv spec
  keys_from fuel argv spec found begin

unfoldable pub specs_keys : ℕ → List Bytes → List KeySpec → Found → Outcome Found
specs_keys fuel argv [] found = ok found
specs_keys fuel argv (spec ∷ specs) found = do
  found' ← spec_keys fuel argv spec found
  specs_keys fuel argv specs found'

-- The four results of `CalcKeys`.
pub record Calculated : Type 0 where
  pub cma_name : Bytes
  pub group : Bytes
  pub found : Found

-- `cmaName`: the command, with its subcommand behind a dash for a container.
unfoldable pub command_name : List Bytes → Outcome Bytes
command_name [] = index [] (pos 0)
command_name (name ∷ []) = ok (to_upper name)
command_name (name ∷ sub ∷ rest) =
    if is_container (to_upper name)
    then ok (to_upper name ++ (b'-' ∷ to_upper sub))
    else ok (to_upper name)

-- The results for the entry that the table has, if it has one. Each loop is given the number of
-- arguments and two as fuel.
unfoldable pub entry_keys : List Bytes → Bytes → Option RedisCommand → Outcome Calculated
entry_keys argv name none =
    ok (record { cma_name = name; group = codes "unknown"; found = no_keys })
entry_keys argv name (some cmd) = do
  found ← specs_keys (length argv + 2) argv cmd.key_spec no_keys
  ok (record { cma_name = name; group = cmd.group; found = found })

unfoldable pub calc_keys : Table → List Bytes → Outcome Calculated
calc_keys table argv = do name ← command_name argv; entry_keys argv name (lookup_command table name)

-- `CalcKeys` on the program's table, open to the last helper.
unfoldable pub run_calc_keys : List Bytes → Outcome Calculated
unfolding calc_keys entry_keys specs_keys spec_keys keys_from find_keys keynum_keys range_keys
    counted_keys limit_count last_key_index key_count append_key begin_search find_keyword
    command_name lookup_command to_upper is_container parse_int
run_calc_keys = calc_keys redis_commands
