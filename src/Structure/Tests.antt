-- ===== src/Structure/Tests.antt =====
-- The theorems on backend/internal/rdb/structure at concrete inputs.
use redis_shake.Prelude.{ℕ, List, [], ◌∷◌, ◌++◌, Bytes, codes, ◌≡◌, refl, ◌≢◌, arith}
use redis_shake.Prelude.Int.{ℤ, pos, negsuc}
use redis_shake.Go.Outcome.{ok, panic, logged, diverges}
use redis_shake.Go.Strconv.{format_int, format_uint}
use redis_shake.Structure.Lzf.{
  put_byte, next_byte, copy_literal, copy_back, copy_length, lzf_round, lzf_loop, lzf_decompress,
}
use redis_shake.Structure.Lzf.RoundTrip.{lzf_decompress-encode_all}
use redis_shake.Structure.Lzf.Tokens.{Token, encode_all, AreTokens}
use redis_shake.Structure.Lzf.Total.{lzf_decompress-ne-diverges}
use redis_shake.Structure.Text.{read_string}
use redis_shake.Structure.Text.RoundTrip.{
  save_raw, save_int, save_compressed, read_string-save_int, read_string-save_compressed,
}
use redis_shake.Structure.Intset.{read_intset}
use redis_shake.Structure.Intset.RoundTrip.{Width, save_intset, read_intset-save_intset}
use redis_shake.Structure.Listpack.{read_listpack}
use redis_shake.Structure.Text.Saved.{Saved, save_text}
use redis_shake.Structure.Listpack.Entries
use redis_shake.Structure.Listpack.RoundTrip.{save_listpack, read_listpack-save_listpack}
use redis_shake.Structure.Ziplist.{read_zip_list}
use redis_shake.Structure.Ziplist.Entries as ZipEntries
use redis_shake.Structure.Ziplist.RoundTrip.{save_ziplist, read_zip_list-save_ziplist}
use redis_shake.Structure.Ziplist.Endless.{read_zip_list-unknown_length}
use redis_shake.Structure.Module2.Values.{
  signed_value, read_value, save_value, read_value-save_value,
}

abbrev rest : Bytes
rest = 1 ∷ 2 ∷ []

minus_300 : read_string (save_int (negsuc 299) ++ rest) ≡ ok (codes "-300", rest)
unfolding format_int
minus_300 = read_string-save_int (negsuc 299) rest (omega arith)

abbrev tokens : List Token
tokens = Token.literal (codes "abc") ∷ Token.back 7 3 ∷ []

tokens-AreTokens : AreTokens [] tokens
tokens-AreTokens = ground arith

lzf_decompress-encode_all_example : lzf_decompress (encode_all tokens) 10 ≡ ok (codes "abcabcabca")
lzf_decompress-encode_all_example = lzf_decompress-encode_all tokens tokens-AreTokens (omega arith)

read_string-save_compressed_example :
    read_string (save_compressed tokens ++ rest) ≡ ok (codes "abcabcabca", rest)
read_string-save_compressed_example =
    read_string-save_compressed tokens rest tokens-AreTokens (omega arith) (omega arith)

lzf_decompress-ne-diverges_example : lzf_decompress (encode_all tokens) 11 ≢ diverges
lzf_decompress-ne-diverges_example = lzf_decompress-ne-diverges (encode_all tokens) 11

abbrev ints : List ℤ
ints = pos 5 ∷ negsuc 300 ∷ []

read_intset-save_intset_example :
    read_intset (save_text (Saved.raw (save_intset Width.int16 ints)) ++ rest)
    ≡ ok (codes "5" ∷ codes "-301" ∷ [], rest)
unfolding format_int
read_intset-save_intset_example =
    read_intset-save_intset (Saved.raw (save_intset Width.int16 ints)) Width.int16 ints rest
      (ground arith) (omega arith) refl (omega arith)

abbrev items : List Entries.Item
items = Entries.uint7 9 ∷ Entries.int13 (negsuc 0) ∷ Entries.str6 (codes "ab") ∷ []

read_listpack-save_listpack_example :
    read_listpack (save_text (Saved.raw (save_listpack items)) ++ rest)
    ≡ ok (codes "9" ∷ codes "-1" ∷ codes "ab" ∷ [], rest)
unfolding format_int
read_listpack-save_listpack_example =
    read_listpack-save_listpack (Saved.raw (save_listpack items)) items rest (ground arith)
      (omega arith) (omega arith) refl (omega arith)

abbrev entries : List (ℕ × ZipEntries.Item)
entries = (0, ZipEntries.int8 (negsuc 4)) ∷ (3, ZipEntries.str6 (codes "ab")) ∷ []

read_zip_list-save_ziplist_example :
    read_zip_list (save_text (Saved.raw (save_ziplist 17 13 2 entries)) ++ rest)
    ≡ ok (codes "-5" ∷ codes "ab" ∷ [], rest)
unfolding format_int
read_zip_list-save_ziplist_example =
    read_zip_list-save_ziplist (Saved.raw (save_ziplist 17 13 2 entries)) 17 13 entries rest
      (omega arith) (omega arith) (omega arith) (ground arith) refl (omega arith)

read_zip_list-unknown_length_example :
    read_zip_list (save_raw (save_ziplist 17 13 65535 entries) ++ rest) ≡ panic logged
read_zip_list-unknown_length_example =
    read_zip_list-unknown_length 17 13 entries rest (omega arith) (omega arith) (ground arith)
      (omega arith)

read_value-save_value_example :
    read_value (signed_value (negsuc 0)) (save_value (signed_value (negsuc 0)) ++ rest)
    ≡ ok (codes "18446744073709551615", rest)
unfolding format_uint
read_value-save_value_example = read_value-save_value (signed_value (negsuc 0)) rest (omega arith)

-- `abc`, then five bytes from three back.
overlapping_copy : lzf_decompress (2 ∷ b'a' ∷ b'b' ∷ b'c' ∷ 0x60 ∷ 2 ∷ []) 8 ≡ ok (codes "abcabcab")
unfolding lzf_decompress lzf_loop lzf_round copy_literal copy_back copy_length next_byte put_byte
overlapping_copy = refl
