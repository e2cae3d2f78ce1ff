-- ===== src/Rdb/Streams.antt =====
-- The streams of backend/internal/rdb/types/stream.go: the listpacks, the last ID, and the groups
-- with their consumers and pending entries.
use redis_shake.Prelude.{
  ℕ, zero, suc, List, [], ◌∷◌, ◌++◌, Bytes, codes, length, take, drop, ltb, leb, ◌==◌, bytes_eq,
  if◌then◌else◌,
}
use redis_shake.Go.Outcome.{logged, out_of_range}
use redis_shake.Go.Strconv.{format_uint}
use redis_shake.Structure.Reader.{
  Reader, ◌>>=◌, return, fail, lift, read_bytes, read_uint64, big_endian, signed,
}
use redis_shake.Structure.Length.{read_length}
use redis_shake.Structure.Text.{read_string}
use redis_shake.Structure.Listpack.{read_listpack}
use redis_shake.Rdb.Commands.{RedisCmd, int_bound, repeat, after_del}
use redis_shake.Rdb.StreamEntries.{stream_id, stream_listpack}

abbrev ignore : {A : Type 0} → Reader A → Reader (Unit {0})
ignore m = do a ← m; return tt

-- `n` lengths that are not used.
unfoldable pub skip_lengths : ℕ → Reader (Unit {0})
skip_lengths zero = return tt
skip_lengths (suc n) = do l ← read_length; skip_lengths n

-- A key of the tree, which is the first ID of the listpack behind it: the first 16 bytes. A shorter
-- key panics.
unfoldable pub read_stream_node : Bytes → Reader (List RedisCmd)
read_stream_node master_key = do
  key ← read_string
  (if ltb (length key) 16 then fail out_of_range else (do
    elements ← read_listpack
    lift (
        stream_listpack master_key (signed 64 (big_endian (take 8 key)))
          (signed 64 (big_endian (take 8 (drop 8 key)))) elements)))

-- An ID in two lengths.
unfoldable pub read_id : Reader Bytes
read_id = do
  ms ← read_length
  seq ← read_length
  return (stream_id (format_uint ms) (format_uint seq))

-- An ID in 16 bytes.
unfoldable pub read_raw_id : Reader Bytes
read_raw_id = do
  bytes ← read_bytes 16
  return (
      stream_id (format_uint (big_endian (take 8 bytes))) (format_uint (big_endian (drop 8 bytes))))

-- `mapId2Time` and `mapId2Count`: the delivery of a pending entry, the last assignment first. A
-- missing key is 0 in both.
abbrev pub Pel : Type 0
Pel = List (Bytes × (ℕ × ℕ))

unfoldable pub delivery : Pel → Bytes → ℕ × ℕ
delivery [] id = (0, 0)
delivery ((i, d) ∷ pel) id = if bytes_eq i id then d else delivery pel id

unfoldable pub read_pel : ℕ → Pel → Reader Pel
read_pel zero pel = return pel
read_pel (suc n) pel = do
  id ← read_raw_id
  delivery_time ← read_uint64
  delivery_count ← read_length
  read_pel n ((id, (delivery_time, delivery_count)) ∷ pel)

unfoldable pub xclaim : Bytes → Bytes → Bytes → Pel → Bytes → RedisCmd
xclaim master_key group_name consumer_name pel id =
    codes "xclaim"
    ∷ master_key
    ∷ group_name
    ∷ consumer_name
    ∷ codes "0"
    ∷ id
    ∷ codes "TIME"
    ∷ format_uint (delivery pel id).0
    ∷ codes "RETRYCOUNT"
    ∷ format_uint (delivery pel id).1
    ∷ codes "JUSTID"
    ∷ codes "FORCE"
    ∷ []

-- Times that are not used: when a consumer was last seen, and from the third format on its last
-- activity.
unfoldable pub skip_times : ℕ → Reader (Unit {0})
skip_times type_byte = do
  seen ← read_uint64
  (if leb 21 type_byte then ignore read_uint64 else return tt)

unfoldable pub read_consumer : Bytes → ℕ → Bytes → Pel → Reader (List RedisCmd)
read_consumer master_key type_byte group_name pel = do
  consumer_name ← read_string
  times ← skip_times type_byte
  n_pel ← read_length
  repeat (int_bound n_pel)
      (do id ← read_raw_id; return (xclaim master_key group_name consumer_name pel id ∷ []))

unfoldable pub read_group : Bytes → ℕ → Reader (List RedisCmd)
read_group master_key type_byte = do
  group_name ← read_string
  last_id ← read_id
  offset ← skip_lengths (if leb 19 type_byte then 1 else 0)
  n_pel ← read_length
  pel ← read_pel (int_bound n_pel) []
  n_consumer ← read_length
  cmds ← repeat (int_bound n_consumer) (read_consumer master_key type_byte group_name pel)
  return ((codes "XGROUP" ∷ codes "CREATE" ∷ master_key ∷ group_name ∷ last_id ∷ []) ∷ cmds)

-- The command that makes an empty stream.
unfoldable pub empty_stream : Bytes → ℕ → List RedisCmd
empty_stream master_key n_listpack =
    if n_listpack == 0
    then (codes "xadd"
        ∷ master_key
        ∷ codes "MAXLEN"
        ∷ codes "0"
        ∷ codes "0-1"
        ∷ codes "x"
        ∷ codes "y"
        ∷ [])
      ∷ []
    else []

-- From the second format on, five lengths stand behind the last ID: the first ID, the largest
-- deleted ID, and the offset.
unfoldable pub read_stream : Bytes → ℕ → Reader (List RedisCmd)
read_stream master_key type_byte = do
  n_listpack ← read_length
  entries ← repeat (int_bound n_listpack) (read_stream_node master_key)
  number ← read_length
  last_id ← read_id
  skipped ← skip_lengths (if leb 19 type_byte then 5 else 0)
  n_consumer_group ← read_length
  groups ← repeat (int_bound n_consumer_group) (read_group master_key type_byte)
  return (
      entries
      ++ (empty_stream master_key n_listpack
          ++ (codes "xsetid" ∷ master_key ∷ last_id ∷ []) ∷ groups))

unfoldable pub rewrite_stream : Bytes → ℕ → Reader (List RedisCmd)
rewrite_stream key type_byte = after_del key (
    if type_byte == 15
    then read_stream key type_byte
    else if type_byte == 19
    then read_stream key type_byte
    else if type_byte == 21
    then read_stream key type_byte
    else fail logged)
