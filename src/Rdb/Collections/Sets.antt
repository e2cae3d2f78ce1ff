-- ===== src/Rdb/Collections/Sets.antt =====
-- The sets of Redis in their encodings, an intset with the string that it is stored as, for
-- backend/internal/rdb/types/set.go.
use redis_shake.Prelude.{
  ◌^◌, ◌<◌, ℕ, List, [], ◌∷◌, ◌++◌, map, length, All, Bytes, codes, ◌≡◌, refl,
}
use redis_shake.Prelude.Int.{ℤ}
use redis_shake.Go.Outcome.{ok}
use redis_shake.Go.Strconv.{format_int}
use redis_shake.Structure.Reader.Laws.{FitsBits}
use redis_shake.Structure.Text.Saved.{Saved, save_text, text, IsSaved}
use redis_shake.Structure.Intset.RoundTrip.{Width, bits, save_intset, read_intset-save_intset}
use redis_shake.Rdb.Packs.{
  Pack, save_pack, pack_texts, IsPack, read_listpack-save_pack, save_counted,
}
use redis_shake.Rdb.Collections.{sadd, read_set, read_set_intset, read_set_listpack, rewrite_set}
use redis_shake.Rdb.Collections.Strings.{each_string-save_counted}
use redis_shake.Rdb.Object.{ObjectOptions, parse_object}

pub data SetValue : Type 0 where
  table : List Saved → SetValue
  intset : Saved → Width → List ℤ → SetValue
  listpack : Pack → SetValue

abbrev pub set_type : SetValue → ℕ
set_type (table ss) = 2
set_type (intset s k vs) = 11
set_type (listpack p) = 20

abbrev pub save_set : SetValue → Bytes
save_set (table ss) = save_counted save_text ss
save_set (intset s k vs) = save_text s
save_set (listpack p) = save_pack p

abbrev pub set_texts : SetValue → List Bytes
set_texts (table ss) = map text ss
set_texts (intset s k vs) = map format_int vs
set_texts (listpack p) = pack_texts p

abbrev pub IsSetValue : SetValue → Type 0
IsSetValue (table ss) = (length ss < 2 ^ 63) × All IsSaved ss
IsSetValue (intset s k vs) =
    All (FitsBits (bits k)) vs × ((length vs < 2 ^ 32) × ((text s ≡ save_intset k vs) × IsSaved s))
IsSetValue (listpack p) = IsPack p

-- A set in any of its encodings is sent as one command that deletes its key and a SADD for each of
-- its members.
pub parse_object-save_set :
    (options : ObjectOptions) (key : Bytes) (v : SetValue) (rest : Bytes)
    → IsSetValue v
    → parse_object options (set_type v) key (save_set v ++ rest)
      ≡ ok ((codes "del" ∷ key ∷ []) ∷ map (sadd key) (set_texts v), rest)
unfolding parse_object rewrite_set read_set read_set_intset read_set_listpack
parse_object-save_set options key (table ss) rest h =
    rw (each_string-save_counted (sadd key) ss rest h.0 h.1) refl
parse_object-save_set options key (intset s k vs) rest h =
    rw (read_intset-save_intset s k vs rest h.0 h.1.0 h.1.1.0 h.1.1.1) refl
parse_object-save_set options key (listpack p) rest h = rw (read_listpack-save_pack p rest h) refl
