-- ===== src/Aof/Lines.antt =====
-- The lines and the arguments that `Serialize` writes are read back.
use redis_shake.Prelude.{
  ℕ, suc, ◌+◌, ◌<◌, ◌^◌, List, [], ◌∷◌, ◌++◌, append_assoc, length, length-append, drop,
  take-length-append, All, Bytes, some, ◌≡◌, refl, ◌∙◌, ap, arith,
}
use redis_shake.Prelude.Int.{pos}
use redis_shake.Go.Outcome.{ok}
use redis_shake.Go.Strings.{has_prefix}
use redis_shake.Go.Strconv.{format_uint, value_of}
use redis_shake.Go.Strconv.RoundTrip.{format_uint-All, parse_int-format_uint}
use redis_shake.Resp.{crlf, write_arg, write_each}
use redis_shake.Aof.{split_line, read_line, read_payload, read_arg, read_args}

-- Bytes that break no line.
abbrev pub NoBreak : Bytes → Type 0
NoBreak = All (λ c. 13 < c)

split_line-crlf :
    (line rest : Bytes) → NoBreak line → split_line (line ++ (crlf ++ rest)) ≡ (line, rest)
unfolding split_line has_prefix
split_line-crlf [] rest h = refl
split_line-crlf (c ∷ line) rest h = rw (split_line-crlf line rest h.1) (ground (arith, h.0))

pub read_line-crlf :
    (c : ℕ) (line rest : Bytes)
    → NoBreak (c ∷ line)
    → read_line (c ∷ (line ++ (crlf ++ rest))) ≡ some (c ∷ line, rest)
unfolding read_line
read_line-crlf c line rest h = ap some (split_line-crlf (c ∷ line) rest h)

drop_payload : (b rest : Bytes) → drop (length b + 2) (b ++ (crlf ++ rest)) ≡ rest
drop_payload [] rest = refl
drop_payload (x ∷ b) rest =
    let e : suc (length b) + 2 ≡ suc (length b + 2) = omega arith in
    ap (λ n. drop n (x ∷ (b ++ (crlf ++ rest)))) e ∙ drop_payload b rest

read_payload-ok :
    (b rest : Bytes)
    → length b + 2 < 2 ^ 63
    → read_payload (pos (length b)) (b ++ (crlf ++ rest)) ≡ ok (some (b, rest))
unfolding read_payload
read_payload-ok b rest h = ground (
  arith,
  length-append b (crlf ++ rest),
  take-length-append b (crlf ++ rest),
  drop_payload b rest,
)

-- The bytes of an argument, with what is behind it on the right.
arg_append :
    (b rest : Bytes)
    → write_arg b ++ rest ≡ b'$' ∷ (format_uint (length b) ++ (crlf ++ (b ++ (crlf ++ rest))))
unfolding write_arg
arg_append b rest =
    let n = format_uint (length b) in
    ap (◌∷◌ b'$') (
      append_assoc (n ++ crlf) (b ++ crlf) rest
      ∙ append_assoc n crlf ((b ++ crlf) ++ rest)
      ∙ ap (λ t. n ++ (crlf ++ t)) (append_assoc b crlf rest))

read_arg-write_arg :
    (b rest : Bytes) → length b + 2 < 2 ^ 63 → read_arg (write_arg b ++ rest) ≡ ok (some (b, rest))
unfolding read_arg value_of
read_arg-write_arg b rest h = rw (
  arg_append b rest,
  read_arg,
  read_line-crlf b'$' (format_uint (length b)) (b ++ (crlf ++ rest))
      (omega arith, format_uint-All (length b)),
  parse_int-format_uint (length b) (omega arith),
  read_payload-ok b rest h,
)

-- The arguments of a command are read back.
pub read_args-write_each :
    (argv : List Bytes) (rest : Bytes)
    → All (λ b. length b + 2 < 2 ^ 63) argv
    → read_args (length argv) (write_each argv ++ rest) ≡ ok (some (argv, rest))
unfolding read_args write_each
read_args-write_each [] rest h = refl
read_args-write_each (b ∷ argv) rest h = rw (
  append_assoc (write_arg b) (write_each argv) rest,
  read_arg-write_arg b (write_each argv ++ rest) h.0,
  read_args-write_each argv rest h.1,
)
