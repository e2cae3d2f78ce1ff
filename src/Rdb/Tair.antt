-- ===== src/Rdb/Tair.antt =====
-- The modules of Tair in backend/internal/rdb/types: tairstring.go, tairhash.go and tairzset.go.
use redis_shake.Prelude.{ℕ, List, [], ◌∷◌, ◌++◌, Bytes, codes, if◌then◌else◌}
use redis_shake.Prelude.Int.{pos, pos_part, eq_ℤ}
use redis_shake.Go.Strconv.{parse_int, value_of}
use redis_shake.Structure.Reader.{Reader, ◌>>=◌, return}
use redis_shake.Structure.Module2.{read_module_unsigned, read_module_string, read_module_eof}
use redis_shake.Structure.Float.{FloatText, read_module_double}
use redis_shake.Rdb.Commands.{RedisCmd, repeat, after_del}

unfoldable pub rewrite_tair_string : Bytes → Reader (List RedisCmd)
rewrite_tair_string key = do
  version ← read_module_unsigned
  flags ← read_module_unsigned
  tair_value ← read_module_string
  eof ← read_module_eof
  return
      ((codes "EXSET" ∷ key ∷ tair_value ∷ codes "ABS" ∷ version ∷ codes "FLAGS" ∷ flags ∷ []) ∷ [])

-- `strconv.Atoi` of a text, its error left aside, as the bound of a loop.
abbrev pub rounds : Bytes → ℕ
rounds text = pos_part (value_of (parse_int text))

-- A field, with its expiry where it has one.
unfoldable pub exhset : Bytes → Bytes → Bytes → Bytes → Bytes → RedisCmd
exhset key skey version expire_text field_value =
    if eq_ℤ (value_of (parse_int expire_text)) (pos 0)
    then codes "EXHSET" ∷ key ∷ skey ∷ field_value ∷ []
    else codes "EXHSET"
      ∷ key
      ∷ skey
      ∷ field_value
      ∷ codes "ABS"
      ∷ version
      ∷ codes "PXAT"
      ∷ expire_text
      ∷ []

unfoldable pub read_tair_field : Bytes → Reader (List RedisCmd)
read_tair_field key = do
  skey ← read_module_string
  version ← read_module_unsigned
  expire_text ← read_module_unsigned
  field_value ← read_module_string
  return (exhset key skey version expire_text field_value ∷ [])

-- The key is the one in the value; the key in front of the value is not used.
unfoldable pub rewrite_tair_hash : Reader (List RedisCmd)
rewrite_tair_hash = do
  dict_size ← read_module_unsigned
  key ← read_module_string
  cmds ← after_del key (repeat (rounds dict_size) (read_tair_field key))
  eof ← read_module_eof
  return cmds

-- `strings.Join(values, "#")`.
unfoldable pub join_hash : List Bytes → Bytes
join_hash [] = []
join_hash (v ∷ []) = v
join_hash (v ∷ w ∷ vs) = v ++ b'#' ∷ join_hash (w ∷ vs)

unfoldable pub read_tair_member : FloatText → Bytes → ℕ → Reader (List RedisCmd)
read_tair_member floats zset_key score_num = do
  key ← read_module_string
  values ← repeat score_num (do value ← read_module_double floats; return (value ∷ []))
  return ((codes "EXZADD" ∷ zset_key ∷ join_hash values ∷ key ∷ []) ∷ [])

unfoldable pub rewrite_tair_zset : FloatText → Bytes → Reader (List RedisCmd)
rewrite_tair_zset floats key = after_del key (do
  length ← read_module_unsigned
  score_num ← read_module_unsigned
  cmds ← repeat (rounds length) (read_tair_member floats key (rounds score_num))
  eof ← read_module_eof
  return cmds)
