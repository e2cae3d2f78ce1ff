-- ===== src/Aof/Total.antt =====
-- The loader ends on every file.
use redis_shake.Prelude.{
  ℕ, zero, suc, ◌+◌, ◌-◌, ◌<◌, ◌≤◌, ◌^◌, List, [], ◌∷◌, ◌++◌, length, drop, Bytes, Option, none,
  some, ltb, leb, ◌==◌, if◌then◌else◌, ◌≡◌, ◌≢◌, refl, arith, Option-cases, inl, inr,
}
use redis_shake.Prelude.Int.{ℤ, pos, negsuc, ltb_ℤ}
use redis_shake.Go.Outcome.{Outcome, ok, panic, logged, diverges, ◌>>=◌}
use redis_shake.Go.Outcome.Rules.{
  Ends, ended, stopped, Ends-ne-diverges, if-Ends, weaken, bind-Ends,
}
use redis_shake.Go.Strconv.{Parsed, parse_int, value_of}
use redis_shake.Entry.{Entry, new_entry}
use redis_shake.Aof.{
  split_line, read_line, read_payload, read_arg, read_args, failed, truncated, Line, skip, stop,
  command, Ret, annotation, read_head, load_loop, load,
}

-- What is left to read is no more than there was.
abbrev Shrinks : {A : Type 0} → Bytes → Option (A × Bytes) → Type 0
Shrinks s none = Unit
Shrinks s (some r) = length r.1 ≤ length s

split_line-Shrinks : (s : Bytes) → length (split_line s).1 ≤ length s
unfolding split_line
split_line-Shrinks [] = omega arith
split_line-Shrinks (c ∷ s) = ground (arith, split_line-Shrinks s)

read_line-shorter : (s line rest : Bytes) → read_line s ≡ some (line, rest) → length rest < length s
unfolding read_line split_line
read_line-shorter [] line rest e = cc
read_line-shorter (c ∷ s) line rest e = ground (arith, e, split_line-Shrinks s)

length-drop : (n : ℕ) (s : Bytes) → length (drop n s) ≤ length s
length-drop zero s = omega arith
length-drop (suc n) [] = omega arith
length-drop (suc n) (c ∷ s) = omega (arith, length-drop n s)

read_payload-Ends : (v : ℤ) (s : Bytes) → Ends (Shrinks s) (read_payload v s)
unfolding read_payload
read_payload-Ends (negsuc v) s =
    if-Ends (ltb 1 v) stopped (if-Ends (ltb (length s) (1 - v)) (ended tt) stopped)
read_payload-Ends (pos v) s =
    if-Ends (leb (2 ^ 63) (v + 2)) stopped
      (if-Ends (ltb (length s) (v + 2)) (ended tt) (ended (length-drop (v + 2) s)))

Shrinks-later :
    {A : Type 0} (s t : Bytes)
    → length t < length s
    → (o : Option (A × Bytes)) → Shrinks t o
    → Shrinks s o
Shrinks-later s t lt none h = tt
Shrinks-later s t lt (some r) h = omega (arith, h)

read_arg-Ends : (s : Bytes) → Ends (Shrinks s) (read_arg s)
unfolding read_arg
read_arg-Ends s = elim (Option-cases (read_line s)) [
  | inl e ↦ rw (read_arg, e) (ended tt)
  | inr ((line, rest), e) ↦ rw (read_arg, e) (behind s rest (read_line-shorter s line rest e) line)
]
  where
    behind :
        (s rest : Bytes)
        → length rest < length s
        → (line : Bytes)
        → Ends (Shrinks s) (elim line [
          | [] ↦ ok none
          | (c ∷ number) ↦
              if c == b'$' then read_payload (value_of (parse_int number)) rest else ok none
        ])
    behind s rest lt [] = ended tt
    behind s rest lt (c ∷ number) =
        if-Ends (c == b'$')
          (weaken (read_payload-Ends (value_of (parse_int number)) rest) (Shrinks-later s rest lt))
          (ended tt)

joined_args :
    (s v rest : Bytes) (args : Option (List Bytes × Bytes))
    → length rest ≤ length s
    → Shrinks rest args
    → Ends (Shrinks s) (elim args [ none ↦ ok none | some (vs, end) ↦ ok (some (v ∷ vs, end)) ])
joined_args s v rest none h k = ended tt
joined_args s v rest (some (vs, end)) h k = ended (omega (arith, h, k))

more_args :
    (argc : ℕ) (s : Bytes) (arg : Option (Bytes × Bytes))
    → ((t : Bytes) → Ends (Shrinks t) (read_args argc t))
    → Shrinks s arg
    → Ends (Shrinks s) (elim arg [
      | none ↦ ok none
      | some (v, rest) ↦ (do
        args ← read_args argc rest
        elim args [ none ↦ ok none | some (vs, end) ↦ ok (some (v ∷ vs, end)) ])
    ])
more_args argc s none ih h = ended tt
more_args argc s (some (v, rest)) ih h =
    bind-Ends (ih rest) (λ args e k. joined_args s v rest args h k)

read_args-Ends : (argc : ℕ) (s : Bytes) → Ends (Shrinks s) (read_args argc s)
unfolding read_args
read_args-Ends zero s = ended (omega arith)
read_args-Ends (suc argc) s =
    bind-Ends (read_arg-Ends s) (λ arg e h. more_args argc s arg (read_args-Ends argc) h)

annotation-Ends : (timestamp : ℤ) (line : Bytes) → Ends (λ _. Unit {0}) (annotation timestamp line)
unfolding annotation
annotation-Ends timestamp line = if-Ends _ (parsed_time (parse_int (drop 4 line))) (ended tt)
  where
    parsed_time :
        (p : Parsed)
        → Ends
            (λ _. Unit {0})
            (elim p [
              | Parsed.parsed ts ↦ if ltb_ℤ timestamp ts then ok stop else ok skip
              | Parsed.bad_syntax ↦ panic logged
              | Parsed.bad_range n ↦ panic logged
            ])
    parsed_time (Parsed.parsed ts) = if-Ends (ltb_ℤ timestamp ts) (ended tt) (ended tt)
    parsed_time Parsed.bad_syntax = stopped
    parsed_time (Parsed.bad_range n) = stopped

read_head-Ends : (timestamp : ℤ) (line : Bytes) → Ends (λ _. Unit {0}) (read_head timestamp line)
unfolding read_head
read_head-Ends timestamp [] = stopped
read_head-Ends timestamp (c ∷ line) = if-Ends (c == b'#') (annotation-Ends timestamp (c ∷ line)) (
    if-Ends (c == b'*') (if-Ends (ltb_ℤ (value_of (parse_int line)) (pos 1)) stopped (ended tt))
      stopped)

-- The rest of a round, behind its line.
abbrev after_args : ℕ → ℤ → List Entry → Option (List Bytes × Bytes) → Outcome (Ret × List Entry)
after_args fuel timestamp ch none = ok (failed, ch)
after_args fuel timestamp ch (some (argv, end)) =
    load_loop fuel timestamp end (ch ++ record new_entry { argv = argv } ∷ [])

abbrev after_head : ℕ → ℤ → List Entry → Bytes → Line → Outcome (Ret × List Entry)
after_head fuel timestamp ch rest skip = load_loop fuel timestamp rest ch
after_head fuel timestamp ch rest stop = ok (truncated, ch)
after_head fuel timestamp ch rest (command argc) =
    read_args argc rest >>= after_args fuel timestamp ch

bind_pointwise :
    {A B : Type 0} (m : Outcome A) (f g : A → Outcome B)
    → ((a : A) → f a ≡ g a)
    → (m >>= f) ≡ (m >>= g)
bind_pointwise (ok a) f g h = h a
bind_pointwise (panic p) f g h = refl
bind_pointwise diverges f g h = refl

-- The rest of a round ends where the rounds behind it do.
after_head-Ends :
    (fuel : ℕ) (timestamp : ℤ) (ch : List Entry) (rest : Bytes) (head : Line)
    → ((t : Bytes) (ch : List Entry)
        → length t ≤ length rest
        → Ends (λ _. Unit {0}) (load_loop fuel timestamp t ch))
    → Ends (λ _. Unit {0}) (after_head fuel timestamp ch rest head)
after_head-Ends fuel timestamp ch rest skip ih = ih rest ch (omega arith)
after_head-Ends fuel timestamp ch rest stop ih = ended tt
after_head-Ends fuel timestamp ch rest (command argc) ih =
    bind-Ends (read_args-Ends argc rest) (λ args e h. behind args h)
  where
    behind :
        (args : Option (List Bytes × Bytes))
        → Shrinks rest args
        → Ends (λ _. Unit {0}) (after_args fuel timestamp ch args)
    behind none h = ended tt
    behind (some (argv, end)) h = ih end _ h

load_loop-line :
    (fuel : ℕ) (timestamp : ℤ) (s line rest : Bytes) (ch : List Entry)
    → read_line s ≡ some (line, rest)
    → load_loop (suc fuel) timestamp s ch
      ≡ (read_head timestamp line >>= after_head fuel timestamp ch rest)
unfolding load_loop
load_loop-line fuel timestamp s line rest ch e =
    rw (load_loop, e)
      (bind_pointwise (read_head timestamp line) _ _
        (λ head. elim head [ skip ↦ refl | stop ↦ refl | command argc ↦ refl ]))

load_loop-Ends :
    (fuel : ℕ) (timestamp : ℤ) (s : Bytes) (ch : List Entry)
    → length s < fuel
    → Ends (λ _. Unit {0}) (load_loop fuel timestamp s ch)
unfolding load_loop
load_loop-Ends zero timestamp s ch l = absurd (omega arith)
load_loop-Ends (suc fuel) timestamp s ch l = elim (Option-cases (read_line s)) [
  | inl e ↦ rw (load_loop, e) (ended tt)
  | inr ((line, rest), e) ↦
      let shorter = read_line-shorter s line rest e in
      rw (load_loop-line fuel timestamp s line rest ch e) (
        bind-Ends (read_head-Ends timestamp line) (λ head _ _.
          after_head-Ends fuel timestamp ch rest head
            (λ t ch' le. load_loop-Ends fuel timestamp t ch' (omega (arith, le, shorter)))))
]

-- The loader ends on every file, whatever its bytes: it returns, or it panics. The length of the
-- file and one is enough fuel.
pub load-ne-diverges : (timestamp : ℤ) (s : Bytes) → load timestamp s ≢ diverges
unfolding load
load-ne-diverges timestamp s =
    Ends-ne-diverges (load_loop-Ends (length s + 1) timestamp s [] (omega arith))
