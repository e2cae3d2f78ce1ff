-- ===== src/Rdb/Bloom.antt =====
-- The Bloom filters of backend/internal/rdb/types/mbbloom.go. The loads of a header are those of a
-- machine that stores the lowest byte first.
pub mod Chunks
use redis_shake.Prelude.{
  ℕ, zero, suc, ◌+◌, ◌-◌, Bool, true, false, List, [], ◌∷◌, ◌++◌, Bytes, codes, Option, none, some,
  length, take, drop, min, ltb, leb, ◌==◌, if◌then◌else◌,
}
use redis_shake.Go.Outcome.{Outcome, ok, panic, diverges, logged, out_of_range}
use redis_shake.Go.Strconv.{ParsedUint, format_uint, parse_uint}
use redis_shake.Structure.Reader.{Reader, ◌>>=◌, return, fail}
use redis_shake.Structure.Reader.Laws.{le_bytes}
use redis_shake.Structure.Module2.{read_module_unsigned, read_module_string, read_module_eof}
use redis_shake.Structure.Float.{FloatText, read_module_double}
use redis_shake.Rdb.Commands.{RedisCmd, repeat}

-- `link`, with the fields of its `bloom`.
pub record Link : Type 0 where
  pub hashes : ℕ
  pub n2 : ℕ
  pub entries : ℕ
  pub err : ℕ
  pub bpe : ℕ
  pub bf : Bytes
  pub bits : ℕ
  pub size : ℕ

-- `chain`.
pub record Chain : Type 0 where
  pub filters : List Link
  pub size : ℕ
  pub nfilters : ℕ
  pub options : ℕ
  pub growth : ℕ

abbrev pub uint_of : ParsedUint → Reader ℕ
uint_of (ParsedUint.parsed u) = return u
uint_of _ = fail logged

unfoldable pub read_unsigned : Reader ℕ
read_unsigned = do v ← read_module_unsigned; uint_of (parse_uint v)

abbrev pub float_of : Option ℕ → Reader ℕ
float_of none = fail logged
float_of (some f) = return f

-- The value goes through a text of 15 digits behind the point.
unfoldable pub read_bloom_double : FloatText → Reader ℕ
read_bloom_double floats = do v ← read_module_double floats; float_of (floats.parse_float v)

-- `bits` and `n2`.
unfoldable pub read_sizes : FloatText → ℕ → ℕ → ℕ → Reader (ℕ × ℕ)
read_sizes floats encver entries bpe =
    if encver == 0
    then return (floats.scaled entries bpe, 0)
    else (do bits ← read_unsigned; n2 ← read_unsigned; return (bits, n2))

unfoldable pub read_link : FloatText → ℕ → Reader (List Link)
read_link floats encver = do
  entries ← read_unsigned
  err ← read_bloom_double floats
  hashes ← read_unsigned
  bpe ← read_bloom_double floats
  sizes ← read_sizes floats encver entries bpe
  bf ← read_module_string
  size ← read_unsigned
  return (
      record {
        hashes = hashes;
        n2 = sizes.1;
        entries = entries;
        err = err;
        bpe = bpe;
        bf = bf;
        bits = sizes.0;
        size = size;
      }
      ∷ [])

-- `LoadFromBuffer`.
unfoldable pub load_bloom : FloatText → ℕ → Reader Chain
load_bloom floats encver = do
  size ← read_unsigned
  nfilters ← read_unsigned
  options ← (if leb 2 encver then read_unsigned else return 0)
  growth ← (if leb 4 encver then read_unsigned else return 2)
  filters ← repeat nfilters (read_link floats encver)
  eof ← read_module_eof
  return (record {
    filters = filters;
    size = size;
    nfilters = nfilters;
    options = options;
    growth = growth;
  })

-- `dumpedChainLink`: `entries` in four bytes or in eight, in front of `n2`.
unfoldable pub encode_link : Bool → Link → Bytes
encode_link big_entries l =
    le_bytes 8 (length l.bf)
    ++ (le_bytes 8 l.bits
        ++ (le_bytes 8 l.size
            ++ (le_bytes 8 l.err
                ++ (le_bytes 8 l.bpe
                    ++ (le_bytes 4 l.hashes
                        ++ (le_bytes (if big_entries then 8 else 4) l.entries
                            ++ le_bytes 1 l.n2))))))

abbrev pub encode_links : Bool → List Link → Bytes
encode_links big_entries [] = []
encode_links big_entries (l ∷ ls) = encode_link big_entries l ++ encode_links big_entries ls

-- `dumpedChainHeader`, and the links.
unfoldable pub get_encoded_header : Chain → Bool → Bool → Bytes
unfolding encode_link
get_encoded_header sb with_growth big_entries =
    le_bytes 8 sb.size
    ++ (le_bytes 4 sb.nfilters
        ++ (le_bytes 4 sb.options
            ++ ((if with_growth then le_bytes 4 sb.growth else [])
                ++ encode_links big_entries sb.filters)))

-- The loop of `getLinkPos`: the filter that holds a position, and the offset in it.
unfoldable pub get_link_pos_from : List Link → ℕ → ℕ → Option (Link × ℕ)
get_link_pos_from [] seek_pos cur_iter = none
get_link_pos_from (l ∷ ls) seek_pos cur_iter =
    if ltb cur_iter (seek_pos + length l.bf)
    then some (l, cur_iter - seek_pos)
    else get_link_pos_from ls (seek_pos + length l.bf) cur_iter

-- `curIter` starts at 1 and grows.
unfoldable pub get_link_pos : Chain → ℕ → Option (Link × ℕ)
get_link_pos sb cur_iter = get_link_pos_from sb.filters 0 (cur_iter - 1)

-- The next chunk, and the position behind it.
unfoldable pub get_encoded_chunk : Chain → ℕ → ℕ → Bytes × ℕ
get_encoded_chunk sb cur_iter max_chunk_size = elim (get_link_pos sb cur_iter) [
  | none ↦ ([], 0)
  | some (pl, off) ↦
      let l = min (length pl.bf - off) max_chunk_size in (take l (drop off pl.bf), cur_iter + l)
]

-- The loop of `Rewrite`, until a chunk is empty: the chunks, each behind its position.
unfoldable pub encoded_chunks : ℕ → Chain → ℕ → ℕ → Outcome (List (ℕ × Bytes))
encoded_chunks zero sb cur_iter max_chunk_size = diverges
encoded_chunks (suc fuel) sb cur_iter max_chunk_size =
    let chunk = get_encoded_chunk sb cur_iter max_chunk_size in
    elim chunk.0 [
      | [] ↦ ok []
      | c ∷ cs ↦
          redis_shake.Go.Outcome.◌>>=◌ (encoded_chunks fuel sb chunk.1 max_chunk_size)
            (λ chunks. ok ((chunk.1, c ∷ cs) ∷ chunks))
    ]

-- The bytes of all filters.
abbrev pub filter_bytes : List Link → Bytes
filter_bytes [] = []
filter_bytes (l ∷ ls) = l.bf ++ filter_bytes ls

-- The header in the format of the version of the target.
unfoldable pub bloom_header : ℕ → ℕ → Chain → Bytes
bloom_header target_version encver sb =
    if ltb 20200 target_version
    then get_encoded_header sb true true
    else if target_version == 20200
    then get_encoded_header sb true false
    else if leb 10000 target_version
    then get_encoded_header sb false false
    else if ltb encver 4
    then get_encoded_header sb false false
    else get_encoded_header sb true true

abbrev pub loadchunk : Bytes → ℕ × Bytes → RedisCmd
loadchunk key (iter, chunk) = codes "BF.LOADCHUNK" ∷ key ∷ format_uint iter ∷ chunk ∷ []

abbrev pub loadchunks : Bytes → List (ℕ × Bytes) → List RedisCmd
loadchunks key [] = []
loadchunks key (c ∷ cs) = loadchunk key c ∷ loadchunks key cs

-- A chunk has at least one byte, so the bytes of the filters and one are enough fuel.
unfoldable pub rewrite_bloom : ℕ → Bytes → ℕ → Chain → Outcome (List RedisCmd)
rewrite_bloom target_version key encver sb =
    redis_shake.Go.Outcome.◌>>=◌
      (encoded_chunks (length (filter_bytes sb.filters) + 1) sb 1 10485760)
      (λ chunks. ok (
        (codes "del" ∷ key ∷ [])
        ∷ loadchunk key (1, bloom_header target_version encver sb)
        ∷ loadchunks key chunks))
