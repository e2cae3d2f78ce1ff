-- ===== src/Aof.antt =====
-- `ReadCompleteLine` and `LoadSingleAppendOnlyFile` of backend/internal/aof/aof.go, on the bytes of a
-- file that is open. What goes to the channel is collected in order; the context is not cancelled.
pub mod Lines
pub mod Replay
pub mod Total
mod Tests
use redis_shake.Prelude.{
  ℕ, zero, suc, ◌+◌, ◌-◌, ◌*◌, ◌%◌, ◌^◌, Bool, true, false, ◌&&◌, not, List, [], ◌∷◌, ◌++◌, length,
  take, drop, Bytes, codes, Option, none, some, ltb, leb, ◌==◌, if◌then◌else◌,
}
use redis_shake.Prelude.Int.{ℤ, pos, negsuc, pos_part, ◌+ℤ◌, ltb_ℤ, leb_ℤ, eq_ℤ}
use redis_shake.Go.Outcome.{Outcome, ok, panic, diverges, logged, out_of_range, ◌>>=◌}
use redis_shake.Go.Strings.{has_prefix}
use redis_shake.Go.Strconv.{Parsed, parse_int, value_of}
use redis_shake.Entry.{Entry, new_entry}

-- A line and what is behind it. A carriage return goes with the line feed behind it.
unfoldable pub split_line : Bytes → Bytes × Bytes
split_line [] = ([], [])
split_line (c ∷ s) =
    let (line, rest) = split_line s in
    if c == 10
    then ([], s)
    else if c == 13 && has_prefix s (10 ∷ [])
    then (line, rest)
    else (c ∷ line, rest)

-- `ReadCompleteLine`; `none` is the error at the end of the file.
unfoldable pub read_line : Bytes → Option (Bytes × Bytes)
read_line [] = none
read_line (c ∷ s) = some (split_line (c ∷ s))

-- The constants that the loader returns here.
pub data Ret : Type 0 where
  ret_ok failed truncated : Ret

-- `make([]byte, v64+2)`, `io.ReadFull`, `buf[:v64]`: `none` where the file is too short.
-- A length that `make` refuses counts as one that the file is too short for.
unfoldable pub read_payload : ℤ → Bytes → Outcome (Option (Bytes × Bytes))
read_payload (negsuc v) s =
    if ltb 1 v
    then panic out_of_range
    else if ltb (length s) (1 - v)
    then ok none
    else panic out_of_range
read_payload (pos v) s =
    if leb (2 ^ 63) (v + 2)
    then panic out_of_range
    else if ltb (length s) (v + 2)
    then ok none
    else ok (some (take v s, drop (v + 2) s))

-- One round of the loop over the arguments, behind `$`.
unfoldable pub read_arg : Bytes → Outcome (Option (Bytes × Bytes))
read_arg s = elim (read_line s) [
  | none ↦ ok none
  | some (line, rest) ↦ elim line [
    | [] ↦ ok none
    | (c ∷ number) ↦ if c == b'$' then read_payload (value_of (parse_int number)) rest else ok none
  ]
]

unfoldable pub read_args : ℕ → Bytes → Outcome (Option (List Bytes × Bytes))
read_args zero s = ok (some ([], s))
read_args (suc argc) s = do
  arg ← read_arg s
  elim arg [
    | none ↦ ok none
    | some (v, rest) ↦ (do
      args ← read_args argc rest
      elim args [ none ↦ ok none | some (vs, end) ↦ ok (some (v ∷ vs, end)) ])
  ]

-- What a line leads to: the next one, an end, or a command of so many arguments.
pub data Line : Type 0 where
  skip stop : Line
  command : ℕ → Line

-- The annotation `#TS:` against the timestamp to recover to.
unfoldable pub annotation : ℤ → Bytes → Outcome Line
annotation timestamp line =
    if not (eq_ℤ timestamp (pos 0)) && has_prefix line (codes "#TS:")
    then elim (parse_int (drop 4 line)) [
      | Parsed.parsed ts ↦ if ltb_ℤ timestamp ts then ok stop else ok skip
      | Parsed.bad_syntax ↦ panic logged
      | Parsed.bad_range n ↦ panic logged
    ]
    else ok skip

unfoldable pub read_head : ℤ → Bytes → Outcome Line
read_head timestamp [] = panic out_of_range
read_head timestamp (c ∷ line) =
    if c == b'#'
    then annotation timestamp (c ∷ line)
    else if c == b'*'
    then (let argc = value_of (parse_int line) in
        if ltb_ℤ argc (pos 1) then panic logged else ok (command (pos_part argc)))
    else panic logged

-- The loop of the loader, on fuel: every round takes at least one byte.
unfoldable pub load_loop : ℕ → ℤ → Bytes → List Entry → Outcome (Ret × List Entry)
load_loop zero timestamp s ch = diverges
load_loop (suc fuel) timestamp s ch = elim (read_line s) [
  | none ↦ ok (ret_ok, ch)
  | some (line, rest) ↦ (do
    head ← read_head timestamp line
    elim head [
      | skip ↦ load_loop fuel timestamp rest ch
      | stop ↦ ok (truncated, ch)
      | command argc ↦ (do
        args ← read_args argc rest
        elim args [
          | none ↦ ok (failed, ch)
          | some (argv, end) ↦
              load_loop fuel timestamp end (ch ++ record new_entry { argv = argv } ∷ [])
        ])
    ])
]

unfoldable pub load : ℤ → Bytes → Outcome (Ret × List Entry)
load timestamp s = load_loop (length s + 1) timestamp s []
