-- ===== src/Structure/Total.antt =====
-- Every reader of backend/internal/rdb/structure ends on every input.
use redis_shake.Prelude.{ℕ, ◌/◌, ◌^◌, length, take, Option-cases, ltb, ◌==◌, arith, inl, inr}
use redis_shake.Go.Outcome.Rules.{ended, stopped, if-Ends}
use redis_shake.Structure.Reader.{Reader}
use redis_shake.Structure.Reader.Takes.{
  Takes, return-Takes, fail-Takes, lift-Takes, any-Takes, if-Takes, bind-Takes, length-drop,
  read_bytes-Takes, read_byte-Takes, read_uint-Takes, read_int-Takes,
}
use redis_shake.Structure.Length.{
  EncodedLength, plain, special, failed, read_full, length_after, read_encoded_length, plain_length,
  read_length,
}
use redis_shake.Structure.Lzf.Total.{lzf_decompress-Ends}
use redis_shake.Structure.Text.{read_compressed, read_special, string_after, read_string}
use redis_shake.Structure.Module2.{
  expect_opcode, read_module_unsigned, read_module_string, read_module_eof,
}
use redis_shake.Structure.Float.{
  FloatText, read_decimal, read_float, read_double, read_module_double,
}

read_full-Takes : (n : ℕ) → Takes 0 (read_full n)
unfolding read_full
read_full-Takes n = record {
  ends = λ s. if-Ends (ltb (length s) n) (ended (omega arith)) (ended (length-drop n s));
}

length_after-Takes : (b : ℕ) → Takes 0 (length_after b)
unfolding length_after
length_after-Takes b = if-Takes (b / 2 ^ 6 == 0) (return-Takes _) (
    if-Takes (b / 2 ^ 6 == 1) (bind-Takes (any-Takes read_byte-Takes) (λ n. return-Takes _)) (
      if-Takes (b / 2 ^ 6 == 2)
        (if-Takes (b == 0x80) (read_full-Takes 4)
          (if-Takes (b == 0x81) (read_full-Takes 8) (return-Takes failed)))
        (return-Takes _)))

read_encoded_length-Takes : Takes 1 read_encoded_length
unfolding read_encoded_length
read_encoded_length-Takes = bind-Takes read_byte-Takes length_after-Takes

plain_length-Takes : (e : EncodedLength) → Takes 0 (plain_length e)
unfolding plain_length
plain_length-Takes (plain n) = return-Takes n
plain_length-Takes (special n) = fail-Takes
plain_length-Takes failed = fail-Takes

pub read_length-Takes : Takes 1 read_length
unfolding read_length
read_length-Takes = bind-Takes read_encoded_length-Takes plain_length-Takes

read_special-Takes : (n : ℕ) → Takes 0 (read_special n)
unfolding read_special read_compressed
read_special-Takes n = if-Takes (n == 0) (bind-Takes read_int-Takes.0 (λ b. return-Takes _)) (
    if-Takes (n == 1) (bind-Takes read_int-Takes.1.0 (λ b. return-Takes _)) (
      if-Takes (n == 2) (bind-Takes read_int-Takes.1.1.1.0 (λ b. return-Takes _)) (
        if-Takes (n == 3)
          (bind-Takes (any-Takes read_length-Takes) (λ in_len.
            bind-Takes (any-Takes read_length-Takes) (λ out_len.
              bind-Takes (read_bytes-Takes in_len)
                (λ input. lift-Takes (lzf_decompress-Ends input out_len)))))
          fail-Takes)))

string_after-Takes : (e : EncodedLength) → Takes 0 (string_after e)
unfolding string_after
string_after-Takes (plain n) = read_bytes-Takes n
string_after-Takes (special n) = read_special-Takes n
string_after-Takes failed = fail-Takes

pub read_string-Takes : Takes 1 read_string
unfolding read_string
read_string-Takes = bind-Takes read_encoded_length-Takes string_after-Takes

pub read_float-Takes : (floats : FloatText) → Takes 0 (read_float floats)
unfolding read_float read_decimal
read_float-Takes floats = bind-Takes read_uint-Takes.0 (λ u. if-Takes (u == 253) (return-Takes _) (
    if-Takes (u == 254) (return-Takes _) (
      if-Takes (u == 255) (return-Takes _) (record {
        ends = λ s.
            if-Ends (ltb (length s) u) (ended (omega arith))
              (elim (Option-cases (floats.parse_float (take u s))) [
                | inl e ↦ rw e stopped
                | inr (v, e) ↦ rw e (ended (length-drop u s))
              ]);
      }))))

pub read_double-Takes : Takes 0 read_double
unfolding read_double
read_double-Takes = bind-Takes (read_bytes-Takes 8) (λ b. return-Takes _)

expect_opcode-Takes :
    {A : Type 0} (expected : ℕ) {m : Reader A} → Takes 0 m → Takes 0 (expect_opcode expected m)
unfolding expect_opcode
expect_opcode-Takes expected h =
    bind-Takes (any-Takes read_byte-Takes) (λ o. if-Takes (o == expected) h fail-Takes)

pub read_module-Takes :
    (floats : FloatText)
    → Takes 0 read_module_unsigned
      × (Takes 0 read_module_string
          × (Takes 0 read_module_eof × Takes 0 (read_module_double floats)))
unfolding read_module_unsigned read_module_string read_module_eof read_module_double
read_module-Takes floats = (
  expect_opcode-Takes 2 (bind-Takes (any-Takes read_length-Takes) (λ v. return-Takes _)),
  (
    expect_opcode-Takes 5 (any-Takes read_string-Takes),
    (
      bind-Takes (any-Takes read_length-Takes)
          (λ e. if-Takes (e == 0) (return-Takes tt) fail-Takes),
      expect_opcode-Takes 4 (bind-Takes read_double-Takes (λ v. return-Takes _)),
    ),
  ),
)
