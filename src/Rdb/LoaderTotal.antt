-- ===== src/Rdb/LoaderTotal.antt =====
-- The loader of backend/internal/rdb/rdb.go ends on every file.
use redis_shake.Prelude.{
  ℕ, zero, suc, ◌+◌, ◌<◌, ◌≤◌, Bool, true, false, ◌||◌, Bytes, length, take, ◌==◌, bytes_eq, codes,
  ◌≢◌, arith,
}
use redis_shake.Prelude.Int.{ℤ}
use redis_shake.Go.Outcome.{diverges}
use redis_shake.Go.Outcome.Rules.{
  Ends, ended, stopped, Ends-ne-diverges, if-Ends, bind-Ends, weaken,
}
use redis_shake.Go.Strconv.{Parsed, parse_int}
use redis_shake.Structure.Reader.{Reader}
use redis_shake.Structure.Reader.Takes.{
  Takes, return-Takes, fail-Takes, lift-Takes, any-Takes, if-Takes, bind-Takes, read_bytes-Takes,
  read_byte-Takes, read_uint-Takes,
}
use redis_shake.Structure.Total.{
  read_length-Takes, read_string-Takes, read_float-Takes, read_double-Takes,
}
use redis_shake.Structure.Float.{FloatText}
use redis_shake.Rdb.StreamTotal.{skip_lengths-Takes}
use redis_shake.Rdb.Restore.{Loader, Options, new_loader}
use redis_shake.Rdb.Loader.{
  skip_aux_value, skip_aux_values, skip_module_aux, set_repl_stream_db, aux_field, tee, read_object,
  parse_record, Rounds, rdb_round, parse_rdb_entry, magic, check_version, parse_rdb,
}
use redis_shake.Rdb.ObjectTotal.{parse_object-Takes}

aux_value-Takes : (floats : FloatText) (opcode : ℕ) → Takes 0 (skip_aux_value floats opcode)
unfolding skip_aux_value
aux_value-Takes floats o = if-Takes (o == 1 || o == 2) (any-Takes read_length-Takes) (
    if-Takes (o == 3) (read_float-Takes floats) (
      if-Takes (o == 4) read_double-Takes (
        if-Takes (o == 5) (bind-Takes (any-Takes read_string-Takes) (λ s. return-Takes 0))
          fail-Takes)))

choose-Ends :
    {A : Type 0} {P : A × Bytes → Type 0} (b : Bool) (x y : Reader A) (s : Bytes)
    → Ends P (x s)
    → Ends P (y s)
    → Ends P ((elim b as (λ c. Reader A) [ true ↦ x | false ↦ y ]) s)
choose-Ends true x y s hx hy = hx
choose-Ends false x y s hx hy = hy

aux_values-Ends :
    (fuel : ℕ) (floats : FloatText) (s : Bytes)
    → length s < fuel
    → Ends (λ r. 0 + length r.1 ≤ length s) (skip_aux_values fuel floats s)
unfolding skip_aux_values
aux_values-Ends zero floats s h = absurd (omega arith)
aux_values-Ends (suc fuel) floats s h = bind-Ends (read_length-Takes.ends s) (λ r e l.
    choose-Ends (r.0 == 0) _ _ r.1 (ended (omega (arith, l))) (
      bind-Ends ((aux_value-Takes floats r.0).ends r.1) (λ v e' l'.
        weaken (aux_values-Ends fuel floats v.1 (omega (arith, l, l')))
          (λ q l''. omega (arith, l, l', l'')))))

aux-Takes : (floats : FloatText) → Takes 0 (skip_module_aux floats)
unfolding skip_module_aux
aux-Takes floats = record {
  ends = λ s. bind-Ends ((skip_lengths-Takes 3).ends s) (λ r e l.
      weaken (aux_values-Ends (length s + 1) floats r.1 (omega (arith, l)))
        (λ q l'. omega (arith, l, l')));
}

repl-Ends : (p : Parsed) (ld : Loader) → Ends (λ l. Unit {0}) (set_repl_stream_db p ld)
unfolding set_repl_stream_db
repl-Ends (Parsed.parsed n) ld = ended tt
repl-Ends Parsed.bad_syntax ld = stopped
repl-Ends (Parsed.bad_range n) ld = stopped

field-Ends : (key value : Bytes) (ld : Loader) → Ends (λ r. Unit {0}) (aux_field key value ld)
unfolding aux_field
field-Ends key value ld =
    if-Ends _ (bind-Ends (repl-Ends (parse_int value) ld) (λ l e h. ended tt))
      (if-Ends _ (ended tt) (ended tt))

tee-Takes : {A : Type 0} {m : Reader A} → Takes 0 m → Takes 0 (tee m)
unfolding tee
tee-Takes h = record { ends = λ s. bind-Ends (h.ends s) (λ r e l. ended l) }

module _ (options : Options) (is_valkey : Bool) where
  object-Takes : (ld : Loader) (t : ℕ) → Takes 0 (read_object options is_valkey ld t)
  unfolding read_object
  object-Takes ld t =
      bind-Takes (any-Takes read_string-Takes)
        (λ key. bind-Takes (tee-Takes (parse_object-Takes _ key t)) (λ r. return-Takes _))

  record-Takes : (now : ℤ) (ld : Loader) (t : ℕ) → Takes 0 (parse_record options is_valkey now ld t)
  unfolding parse_record
  record-Takes now ld t =
      if-Takes (t == 244) (bind-Takes (skip_lengths-Takes 3) (λ s. return-Takes _)) (
        if-Takes (t == 246) fail-Takes (
          if-Takes (t == 245) (bind-Takes (any-Takes read_string-Takes) (λ f. return-Takes _)) (
            if-Takes (t == 247) (bind-Takes (aux-Takes options.floats) (λ a. return-Takes _)) (
              if-Takes (t == 248) (bind-Takes (any-Takes read_length-Takes) (λ n. return-Takes _)) (
                if-Takes (t == 249) (bind-Takes (any-Takes read_byte-Takes) (λ n. return-Takes _)) (
                  if-Takes (t == 250)
                    (bind-Takes (any-Takes read_string-Takes) (λ k.
                      bind-Takes (any-Takes read_string-Takes)
                        (λ v. lift-Takes (field-Ends k v ld))))
                    (if-Takes (t == 251) (bind-Takes (skip_lengths-Takes 2) (λ s. return-Takes _)) (
                      if-Takes (t == 252) (bind-Takes read_uint-Takes.1.1.1.1 (λ n. return-Takes _))
                        (if-Takes (t == 253)
                          (bind-Takes read_uint-Takes.1.1.1.0 (λ n. return-Takes _))
                          (if-Takes (t == 254)
                            (bind-Takes (any-Takes read_length-Takes) (λ n. return-Takes _))
                            (object-Takes ld t)))))))))))

  round-Takes :
      (rounds : Rounds) (i : ℕ) (ld : Loader) (t : ℕ)
      → Takes 0 (rdb_round options is_valkey rounds i ld t)
  unfolding rdb_round
  round-Takes rounds i ld t =
      if-Takes (t == 255) (return-Takes _)
        (bind-Takes (record-Takes (rounds.now i) ld t) (λ r. return-Takes _))

  entries-Ends :
      (fuel : ℕ) (rounds : Rounds) (i : ℕ) (ld : Loader) (s : Bytes)
      → length s < fuel
      → Ends (λ r. Unit {0}) (parse_rdb_entry fuel options is_valkey rounds i ld s)
  unfolding parse_rdb_entry
  entries-Ends zero rounds i ld s h = absurd (omega arith)
  entries-Ends (suc fuel) rounds i ld s h = bind-Ends (read_byte-Takes.ends s) (λ b e l.
      bind-Ends ((round-Takes rounds i ld b.0).ends b.1) (λ r e' l'.
        choose-Ends r.0.1 _ _ r.1 (ended tt) (
          bind-Ends (entries-Ends fuel rounds (suc i) r.0.0.0 r.1 (omega (arith, l, l')))
            (λ q e'' k. ended tt))))

magic-Ends : (buf : Bytes) → Ends (λ m. Unit {0}) (magic buf)
unfolding magic
magic-Ends buf =
    if-Ends (bytes_eq (take 5 buf) (codes "REDIS")) (ended tt)
      (if-Ends (bytes_eq (take 6 buf) (codes "VALKEY")) (ended tt) stopped)

version-Ends : (p : Parsed) → Ends (λ n. Unit {0}) (check_version p)
unfolding check_version
version-Ends (Parsed.parsed n) = ended tt
version-Ends Parsed.bad_syntax = stopped
version-Ends (Parsed.bad_range n) = stopped

-- On every file, with every clock and cancelled whenever it may be, the loader returns or panics: no
-- loop goes on for ever.
pub parse_rdb-ne-diverges :
    (options : Options) (rounds : Rounds) (file : Bytes) → parse_rdb options rounds file ≢ diverges
unfolding parse_rdb
parse_rdb-ne-diverges options rounds file = Ends-ne-diverges {P = λ r. Unit {0}} (
    bind-Ends ((read_bytes-Takes 9).ends file) (λ r e l. bind-Ends (magic-Ends r.0) (λ m e' h.
      bind-Ends (version-Ends (parse_int m.1)) (λ v e'' h'.
        bind-Ends (entries-Ends options m.0 (length r.1 + 1) rounds 0 new_loader r.1 (omega arith))
          (λ q w h''. ended tt)))))
