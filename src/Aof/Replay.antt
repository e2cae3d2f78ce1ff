-- ===== src/Aof/Replay.antt =====
-- An AOF file of commands and annotations is loaded up to the timestamp that was asked for.
use redis_shake.Prelude.{
  ℕ, zero, suc, ◌+◌, ◌-◌, ◌<◌, ◌≤◌, ◌^◌, Bool, true, false, ◌&&◌, not, List, [], ◌∷◌, ◌++◌,
  append_assoc, length, length-append, All, Bytes, codes, some, if◌then◌else◌, ◌≡◌, refl, ◌∙◌, ap,
  arith, Bool-cases, inl, inr,
}
use redis_shake.Prelude.Int.{ℤ, pos, negsuc, ◌≤ℤ◌, ltb_ℤ, eq_ℤ}
use redis_shake.Go.Outcome.{ok}
use redis_shake.Go.Strings.{has_prefix}
use redis_shake.Go.Strconv.{format_uint, format_int, value_of}
use redis_shake.Go.Strconv.RoundTrip.{
  format_uint-All, format_int-All, parse_int-format_uint, parse_int-format_int,
}
use redis_shake.Entry.{Entry, new_entry}
use redis_shake.Resp.{crlf, write_args, write_len, write_each}
use redis_shake.Aof.{
  read_line, read_args, Ret, skip, stop, command, ret_ok, truncated, annotation, read_head,
  load_loop, load,
}
use redis_shake.Aof.Lines.{read_line-crlf, read_args-write_each}

-- What Redis appends to the file: commands, and the time at which it does.
pub data Item : Type 0 where
  run : List Bytes → Item
  stamp : ℤ → Item

abbrev pub save_item : Item → Bytes
save_item (run argv) = write_args argv
save_item (stamp ts) = codes "#TS:" ++ (format_int ts ++ crlf)

abbrev pub save_items : List Item → Bytes
save_items [] = []
save_items (i ∷ is) = save_item i ++ save_items is

abbrev pub IsItem : Item → Type 0
IsItem (run argv) =
    (0 < length argv) × (length argv < 2 ^ 63) × All (λ b. length b + 2 < 2 ^ 63) argv
IsItem (stamp ts) = (negsuc (2 ^ 63 - 1) ≤ℤ ts) × (ts ≤ℤ pos (2 ^ 63 - 1))

abbrev pub entry_of : List Bytes → Entry
entry_of argv = record new_entry { argv = argv }

-- A time is too late if there is a timestamp to recover to, and it is earlier.
abbrev pub too_late : ℤ → ℤ → Bool
too_late timestamp ts = not (eq_ℤ timestamp (pos 0)) && ltb_ℤ timestamp ts

-- The commands in front of the first time that is too late.
abbrev pub replay : ℤ → List Item → List Entry → Ret × List Entry
replay timestamp [] ch = (ret_ok, ch)
replay timestamp (run argv ∷ is) ch = replay timestamp is (ch ++ entry_of argv ∷ [])
replay timestamp (stamp ts ∷ is) ch =
    let rest = replay timestamp is ch in if too_late timestamp ts then (truncated, ch) else rest

-- One round of the loader, for each thing that a line can lead to.
load_command :
    (fuel argc : ℕ) (timestamp : ℤ) (s line rest end : Bytes) (argv : List Bytes) (ch : List Entry)
    → read_line s ≡ some (line, rest)
    → read_head timestamp line ≡ ok (command argc)
    → read_args argc rest ≡ ok (some (argv, end))
    → load_loop (suc fuel) timestamp s ch ≡ load_loop fuel timestamp end (ch ++ entry_of argv ∷ [])
unfolding load_loop
load_command fuel argc timestamp s line rest end argv ch e h a = rw (load_loop, e, h, a)

load_stop :
    (fuel : ℕ) (timestamp : ℤ) (s line rest : Bytes) (ch : List Entry)
    → read_line s ≡ some (line, rest)
    → read_head timestamp line ≡ ok stop
    → load_loop (suc fuel) timestamp s ch ≡ ok (truncated, ch)
unfolding load_loop
load_stop fuel timestamp s line rest ch e h = rw (load_loop, e, h)

load_skip :
    (fuel : ℕ) (timestamp : ℤ) (s line rest : Bytes) (ch : List Entry)
    → read_line s ≡ some (line, rest)
    → read_head timestamp line ≡ ok skip
    → load_loop (suc fuel) timestamp s ch ≡ load_loop fuel timestamp rest ch
unfolding load_loop
load_skip fuel timestamp s line rest ch e h = rw (load_loop, e, h)

head_count :
    (n : ℕ) (timestamp : ℤ)
    → 0 < n
    → n < 2 ^ 63
    → read_head timestamp (b'*' ∷ format_uint n) ≡ ok (command n)
unfolding read_head value_of
head_count n timestamp p q = rw (parse_int-format_uint n q) (ground arith)

late_or_not : (b : Bool) → (if b then ok stop else ok skip) ≡ ok (if b then stop else skip)
late_or_not true = refl
late_or_not false = refl

head_stamp :
    (timestamp ts : ℤ)
    → IsItem (stamp ts)
    → read_head timestamp (codes "#TS:" ++ format_int ts)
      ≡ ok (if too_late timestamp ts then stop else skip)
unfolding read_head annotation has_prefix
head_stamp timestamp ts h = elim (Bool-cases (eq_ℤ timestamp (pos 0))) [
  | inl e ↦ rw e
  | inr e ↦ rw (e, parse_int-format_int ts h.0 h.1) (late_or_not (ltb_ℤ timestamp ts))
]

args_append :
    (argv : List Bytes) (rest : Bytes)
    → write_args argv ++ rest
      ≡ b'*' ∷ (format_uint (length argv) ++ (crlf ++ (write_each argv ++ rest)))
unfolding write_args write_len
args_append argv rest =
    let n = format_uint (length argv) in
    ap (◌∷◌ b'*') (
      append_assoc (n ++ crlf) (write_each argv) rest
      ∙ append_assoc n crlf (write_each argv ++ rest))

load_run :
    (fuel : ℕ) (timestamp : ℤ) (argv : List Bytes) (rest : Bytes) (ch : List Entry)
    → IsItem (run argv)
    → load_loop (suc fuel) timestamp (write_args argv ++ rest) ch
      ≡ load_loop fuel timestamp rest (ch ++ entry_of argv ∷ [])
load_run fuel timestamp argv rest ch h =
    let n = format_uint (length argv) in
    ap (λ s. load_loop (suc fuel) timestamp s ch) (args_append argv rest)
    ∙ load_command fuel (length argv) timestamp (b'*' ∷ (n ++ (crlf ++ (write_each argv ++ rest))))
        (b'*' ∷ n) (write_each argv ++ rest) rest argv ch
        (read_line-crlf b'*' n (write_each argv ++ rest)
          (omega arith, format_uint-All (length argv)))
        (head_count (length argv) timestamp h.0 h.1) (read_args-write_each argv rest h.2)

stamp_line :
    (ts : ℤ) (rest : Bytes)
    → read_line (save_item (stamp ts) ++ rest) ≡ some (codes "#TS:" ++ format_int ts, rest)
stamp_line ts rest =
    ap read_line (append_assoc (codes "#TS:" ++ format_int ts) crlf rest)
    ∙ read_line-crlf b'#' (codes "TS:" ++ format_int ts) rest
        (omega arith, (omega arith, (omega arith, (omega arith, format_int-All ts))))

load_loop-replay :
    (fuel : ℕ) (timestamp : ℤ) (is : List Item) (ch : List Entry)
    → All IsItem is
    → length is < fuel
    → load_loop fuel timestamp (save_items is) ch ≡ ok (replay timestamp is ch)
unfolding load_loop read_line
load_loop-replay zero timestamp is ch h l = absurd (omega arith)
load_loop-replay (suc fuel) timestamp [] ch h l = refl
load_loop-replay (suc fuel) timestamp (run argv ∷ is) ch h l =
    load_run fuel timestamp argv (save_items is) ch h.0
    ∙ load_loop-replay fuel timestamp is (ch ++ entry_of argv ∷ []) h.1 (omega arith)
load_loop-replay (suc fuel) timestamp (stamp ts ∷ is) ch h l =
    let s = save_item (stamp ts) ++ save_items is in
    let line = codes "#TS:" ++ format_int ts in
    elim (Bool-cases (too_late timestamp ts)) [
      | inl e ↦ rw e (
          load_stop fuel timestamp s line (save_items is) ch (stamp_line ts (save_items is))
            (head_stamp timestamp ts h.0 ∙ rw e))
      | inr e ↦ rw e (
          load_skip fuel timestamp s line (save_items is) ch (stamp_line ts (save_items is))
            (head_stamp timestamp ts h.0 ∙ rw e)
          ∙ load_loop-replay fuel timestamp is ch h.1 (omega arith))
    ]

length-save_item : (i : Item) → 1 ≤ length (save_item i)
unfolding write_args
length-save_item (run argv) = omega arith
length-save_item (stamp ts) = omega arith

length-save_items : (is : List Item) → length is ≤ length (save_items is)
length-save_items [] = omega arith
length-save_items (i ∷ is) =
    omega
      (arith, length-append (save_item i) (save_items is), length-save_item i, length-save_items is)

-- A file of commands and times is loaded as the entries of its commands, in order, up to the first
-- time that is later than the timestamp to recover to, where the load is truncated. With the
-- timestamp 0 all of it is loaded.
pub load-save_items :
    (timestamp : ℤ) (is : List Item)
    → All IsItem is
    → load timestamp (save_items is) ≡ ok (replay timestamp is [])
unfolding load
load-save_items timestamp is h =
    load_loop-replay (length (save_items is) + 1) timestamp is [] h
      (omega (arith, length-save_items is))
