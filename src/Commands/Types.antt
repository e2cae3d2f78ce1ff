-- ===== src/Commands/Types.antt =====
-- backend/internal/commands/types.go. Go's `int` fields are integers here.
use redis_shake.Prelude.{ℕ, List, [], Bytes, codes, String}
use redis_shake.Prelude.Int.{ℤ, pos}

pub record KeySpec : Type 0 where
  pub begin_search_type : Bytes
  pub begin_search_index : ℤ
  pub begin_search_keyword : Bytes
  pub begin_search_start_from : ℤ
  pub find_keys_type : Bytes
  pub find_keys_range_last_key : ℤ
  pub find_keys_range_key_step : ℤ
  pub find_keys_range_limit : ℤ
  pub find_keys_keynum_index : ℤ
  pub find_keys_keynum_first_key : ℤ
  pub find_keys_keynum_key_step : ℤ

pub record RedisCommand : Type 0 where
  pub group : Bytes
  pub key_spec : List KeySpec

-- The three forms of literal that table.go has. Index `begin`, then a range up to `last`:
abbrev pub index_range : ℕ → ℤ → ℕ → KeySpec
index_range begin last step = record {
  begin_search_type = codes "index";
  begin_search_index = pos begin;
  begin_search_keyword = [];
  begin_search_start_from = pos 0;
  find_keys_type = codes "range";
  find_keys_range_last_key = last;
  find_keys_range_key_step = pos step;
  find_keys_range_limit = pos 0;
  find_keys_keynum_index = pos 0;
  find_keys_keynum_first_key = pos 0;
  find_keys_keynum_key_step = pos 0;
}

-- Index `begin`, then a count of keys at `begin`, and the keys from the next place on.
abbrev pub index_keynum : ℕ → ℕ → KeySpec
index_keynum begin step = record {
  begin_search_type = codes "index";
  begin_search_index = pos begin;
  begin_search_keyword = [];
  begin_search_start_from = pos 0;
  find_keys_type = codes "keynum";
  find_keys_range_last_key = pos 0;
  find_keys_range_key_step = pos 0;
  find_keys_range_limit = pos 0;
  find_keys_keynum_index = pos 0;
  find_keys_keynum_first_key = pos 1;
  find_keys_keynum_key_step = pos step;
}

-- A keyword sought from argument `start`, then a range from the next argument on.
abbrev pub keyword_range : String → ℕ → ℤ → ℕ → KeySpec
keyword_range word start last limit = record {
  begin_search_type = codes "keyword";
  begin_search_index = pos 0;
  begin_search_keyword = codes word;
  begin_search_start_from = pos start;
  find_keys_type = codes "range";
  find_keys_range_last_key = last;
  find_keys_range_key_step = pos 1;
  find_keys_range_limit = pos limit;
  find_keys_keynum_index = pos 0;
  find_keys_keynum_first_key = pos 0;
  find_keys_keynum_key_step = pos 0;
}
