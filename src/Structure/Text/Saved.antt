-- ===== src/Structure/Text/Saved.antt =====
-- A string in any of the encodings of an RDB file, for backend/internal/rdb/structure/string.go.
use redis_shake.Prelude.{◌^◌, ◌<◌, List, [], ◌++◌, length, Bytes, ◌≡◌}
use redis_shake.Prelude.Int.{ℤ}
use redis_shake.Go.Outcome.{ok}
use redis_shake.Go.Strconv.{format_int}
use redis_shake.Structure.Reader.Laws.{FitsBits}
use redis_shake.Structure.Lzf.Tokens.{Token, encode_all, expand_all, AreTokens}
use redis_shake.Structure.Text.{read_string}
use redis_shake.Structure.Text.RoundTrip.{
  save_raw, save_int, save_compressed, read_string-save_raw, read_string-save_int,
  read_string-save_compressed,
}

pub data Saved : Type 0 where
  raw : Bytes → Saved
  integer : ℤ → Saved
  compressed : List Token → Saved

abbrev pub save_text : Saved → Bytes
save_text (raw s) = save_raw s
save_text (integer v) = save_int v
save_text (compressed ts) = save_compressed ts

abbrev pub text : Saved → Bytes
text (raw s) = s
text (integer v) = format_int v
text (compressed ts) = expand_all [] ts

abbrev pub IsSaved : Saved → Type 0
IsSaved (raw s) = length s < 2 ^ 63
IsSaved (integer v) = FitsBits 32 v
IsSaved (compressed ts) =
    AreTokens [] ts × ((length (encode_all ts) < 2 ^ 63) × (length (expand_all [] ts) < 2 ^ 63))

pub read_string-save_text :
    (s : Saved) (rest : Bytes) → IsSaved s → read_string (save_text s ++ rest) ≡ ok (text s, rest)
read_string-save_text (raw s) rest h = read_string-save_raw s rest h
read_string-save_text (integer v) rest h = read_string-save_int v rest h
read_string-save_text (compressed ts) rest h = read_string-save_compressed ts rest h.0 h.1.0 h.1.1
