-- ===== src/Structure/PackedTotal.antt =====
-- Every reader of the packed encodings in backend/internal/rdb/structure ends on every input, and so
-- do the readers of a module's values.
use redis_shake.Prelude.{
  Bool, true, false, ◌<◌, ℕ, zero, suc, ◌+◌, ◌/◌, ◌^◌, ◌≤◌, length, Bytes, ◌==◌, if◌then◌else◌,
  arith,
}
use redis_shake.Go.Outcome.Rules.{Ends, ended, bind-Ends}
use redis_shake.Structure.Reader.{Reader}
use redis_shake.Structure.Reader.Takes.{
  Takes, return-Takes, fail-Takes, any-Takes, if-Takes, bind-Takes, read_from-Takes,
  read_bytes-Takes, read_byte-Takes, read_uint-Takes, read_int-Takes,
}
use redis_shake.Structure.Intset.{read_ints, intset_body, read_intset}
use redis_shake.Structure.Listpack.{
  finish_int, finish_string, listpack_entry_after, read_listpack_entry, read_listpack_entries,
  check_end, listpack_body, read_listpack,
}
use redis_shake.Structure.Ziplist.{
  skip_prevlen, zip_int_04, zip_int_after, zip_entry_after, read_zip_list_entry, read_until_end,
  read_zip_entries, check_last, sized_zip_list, zip_list_after, zip_list_body, read_zip_list,
}
use redis_shake.Structure.Total.{read_string-Takes}

read_ints-Takes : (w n : ℕ) → Takes 0 (read_ints w n)
unfolding read_ints
read_ints-Takes w zero = return-Takes _
read_ints-Takes w (suc n) =
    bind-Takes (read_bytes-Takes w) (λ i. bind-Takes (read_ints-Takes w n) (λ is. return-Takes _))

pub read_intset-Takes : Takes 1 read_intset
unfolding read_intset intset_body
read_intset-Takes = bind-Takes read_string-Takes (λ buf. read_from-Takes buf (
    bind-Takes read_uint-Takes.1.1.1.0
      (λ w. bind-Takes read_uint-Takes.1.1.1.0 (read_ints-Takes w))))

if-reader :
    {A : Type 0} {P : A × Bytes → Type 0} (b : Bool) (x y : Reader A) (s : Bytes)
    → Ends P (x s)
    → Ends P (y s)
    → Ends P ((if b then x else y) s)
if-reader true x y s hx hy = hx
if-reader false x y s hx hy = hy

finish_int-Takes : (len negstart negmax uval : ℕ) → Takes 0 (finish_int len negstart negmax uval)
unfolding finish_int
finish_int-Takes len negstart negmax uval = bind-Takes (read_bytes-Takes _) (λ b. return-Takes _)

finish_string-Takes : (head length : ℕ) → Takes 0 (finish_string head length)
unfolding finish_string
finish_string-Takes head length =
    bind-Takes (read_bytes-Takes length)
      (λ e. bind-Takes (read_bytes-Takes _) (λ b. return-Takes e))

listpack_entry_after-Takes : (b : ℕ) → Takes 0 (listpack_entry_after b)
unfolding listpack_entry_after
listpack_entry_after-Takes b = if-Takes (b / 2 ^ 7 == 0) (finish_int-Takes _ _ _ _) (
    if-Takes (b / 2 ^ 6 == 2) (finish_string-Takes _ _) (
      if-Takes (b / 2 ^ 5 == 6)
        (bind-Takes (any-Takes read_byte-Takes) (λ c. finish_int-Takes _ _ _ _))
        (if-Takes (b == 0xf1) (bind-Takes read_uint-Takes.1.0 (finish_int-Takes _ _ _)) (
          if-Takes (b == 0xf2) (bind-Takes read_uint-Takes.1.1.0 (finish_int-Takes _ _ _)) (
            if-Takes (b == 0xf3) (bind-Takes read_uint-Takes.1.1.1.0 (finish_int-Takes _ _ _)) (
              if-Takes (b == 0xf4) (bind-Takes read_uint-Takes.1.1.1.1 (finish_int-Takes _ _ _)) (
                if-Takes (b / 2 ^ 4 == 14)
                  (bind-Takes (any-Takes read_byte-Takes) (λ c. finish_string-Takes _ _))
                  (if-Takes (b == 0xf0) (bind-Takes read_uint-Takes.1.1.1.0 (finish_string-Takes _))
                    fail-Takes))))))))

read_listpack_entries-Takes : (n : ℕ) → Takes 0 (read_listpack_entries n)
unfolding read_listpack_entries read_listpack_entry
read_listpack_entries-Takes zero = return-Takes _
read_listpack_entries-Takes (suc n) =
    bind-Takes (bind-Takes (any-Takes read_byte-Takes) listpack_entry_after-Takes)
      (λ e. bind-Takes (read_listpack_entries-Takes n) (λ es. return-Takes _))

check_end-Takes : {A : Type 0} (a : A) (b : ℕ) → Takes 0 (check_end a b)
unfolding check_end
check_end-Takes a b = if-Takes (b == 0xff) (return-Takes a) fail-Takes

pub read_listpack-Takes : Takes 1 read_listpack
unfolding read_listpack listpack_body
read_listpack-Takes = bind-Takes read_string-Takes (λ buf. read_from-Takes buf (
    bind-Takes read_uint-Takes.1.1.1.0 (λ bytes. bind-Takes read_uint-Takes.1.0 (λ size.
      bind-Takes (read_listpack_entries-Takes size)
        (λ es. bind-Takes (any-Takes read_byte-Takes) (check_end-Takes es))))))

zip_int_04-Takes : (b : ℕ) → Takes 0 (zip_int_04 b)
unfolding zip_int_04
zip_int_04-Takes b = if-Takes _ fail-Takes (return-Takes _)

zip_int_after-Takes : (b : ℕ) → Takes 0 (zip_int_after b)
unfolding zip_int_after
zip_int_after-Takes b = if-Takes (b == 0xfe) (bind-Takes read_int-Takes.0 (λ v. return-Takes _)) (
    if-Takes (b == 0xc0) (bind-Takes read_int-Takes.1.0 (λ v. return-Takes _)) (
      if-Takes (b == 0xf0) (bind-Takes read_int-Takes.1.1.0 (λ v. return-Takes _)) (
        if-Takes (b == 0xd0) (bind-Takes read_int-Takes.1.1.1.0 (λ v. return-Takes _)) (
          if-Takes (b == 0xe0) (bind-Takes read_int-Takes.1.1.1.1 (λ v. return-Takes _))
            (if-Takes (b / 2 ^ 4 == 0x0f) (zip_int_04-Takes b) fail-Takes)))))

zip_entry_after-Takes : (b : ℕ) → Takes 0 (zip_entry_after b)
unfolding zip_entry_after
zip_entry_after-Takes b = if-Takes (b / 2 ^ 6 == 0) (read_bytes-Takes _) (
    if-Takes (b / 2 ^ 6 == 1) (bind-Takes (any-Takes read_byte-Takes) (λ c. read_bytes-Takes _)) (
      if-Takes (b / 2 ^ 6 == 2) (bind-Takes (read_bytes-Takes 4) (λ l. read_bytes-Takes _))
        (zip_int_after-Takes b)))

read_zip_list_entry-Takes : (b : ℕ) → Takes 0 (read_zip_list_entry b)
unfolding read_zip_list_entry skip_prevlen
read_zip_list_entry-Takes b =
    bind-Takes (if-Takes (b == 0xfe) read_uint-Takes.1.1.1.0 (return-Takes 0))
      (λ p. bind-Takes (any-Takes read_byte-Takes) zip_entry_after-Takes)

read_zip_entries-Takes : (n : ℕ) → Takes 0 (read_zip_entries n)
unfolding read_zip_entries
read_zip_entries-Takes zero = return-Takes _
read_zip_entries-Takes (suc n) = bind-Takes (any-Takes read_byte-Takes) (λ b.
    bind-Takes (read_zip_list_entry-Takes b)
      (λ e. bind-Takes (read_zip_entries-Takes n) (λ es. return-Takes _)))

-- More fuel than bytes is enough for the loop.
read_until_end-Ends :
    (fuel : ℕ) (s : Bytes)
    → length s < fuel
    → Ends (λ r. 0 + length r.1 ≤ length s) (read_until_end fuel s)
unfolding read_until_end
read_until_end-Ends zero s h = absurd (omega arith)
read_until_end-Ends (suc fuel) s h = bind-Ends (read_byte-Takes.ends s) (λ r e l.
    if-reader (r.0 == 0xfe) _ _ r.1 (ended (omega (arith, l))) (
      bind-Ends ((read_zip_list_entry-Takes r.0).ends r.1) (λ q e' l'.
        bind-Ends (read_until_end-Ends fuel q.1 (omega (arith, l, l')))
          (λ t e'' l''. ended (omega (arith, l, l', l''))))))

zip_list_after-Takes : (size : ℕ) → Takes 0 (zip_list_after size)
unfolding zip_list_after sized_zip_list check_last
zip_list_after-Takes size = record {
  ends = λ s. if-reader (size == 65535) _ _ s (read_until_end-Ends (length s + 1) s (omega arith)) (
      (bind-Takes (read_zip_entries-Takes size) (λ es.
          bind-Takes (any-Takes read_byte-Takes)
            (λ b. if-Takes (b == 0xff) (return-Takes es) fail-Takes))).ends
        s);
}

pub read_zip_list-Takes : Takes 1 read_zip_list
unfolding read_zip_list zip_list_body
read_zip_list-Takes = bind-Takes read_string-Takes (λ buf. read_from-Takes buf (
    bind-Takes read_uint-Takes.1.1.1.0 (λ b.
      bind-Takes read_uint-Takes.1.1.1.0
        (λ t. bind-Takes read_uint-Takes.1.0 zip_list_after-Takes))))
