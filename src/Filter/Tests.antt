-- ===== src/Filter/Tests.antt =====
-- `Filter` at concrete entries, with an engine whose patterns are the keys that they match.
use redis_shake.Prelude.{◌≡◌, refl, inl, true, [], ◌∷◌, Bytes, bytes_eq, codes, none, some}
use redis_shake.Prelude.Int.{pos}
use redis_shake.Go.Outcome.{panic, logged}
use redis_shake.Go.Strings.{has_suffix, contains, trim_space}
use redis_shake.Entry.{Entry, new_entry}
use redis_shake.Filter.{Engine, FilterOptions, Patterns, is_any, new_keys_pattern, filter}
use redis_shake.Filter.Keys.{Answers}
use redis_shake.Filter.Kept.{filter-kept, filter-refused}

abbrev literal : Engine
literal = record { Regexp = Bytes; compile = λ pattern. some pattern; match_string = bytes_eq }

abbrev options : FilterOptions
options = record {
  allow_keys = [];
  allow_key_prefix = codes "user:" ∷ [];
  allow_key_suffix = [];
  block_keys = [];
  block_key_prefix = [];
  block_key_suffix = codes ":tmp" ∷ [];
  allow_key_regex = [];
  block_key_regex = codes " user:0 " ∷ [];
  allow_db = pos 0 ∷ [];
  block_db = [];
  allow_command = [];
  block_command = codes "FLUSHALL" ∷ [];
  allow_command_group = [];
  block_command_group = [];
}

abbrev entry : Entry
entry = record new_entry { cmd_name = codes "GET"; keys = codes "user:7" ∷ [] }

abbrev fresh : Patterns literal
fresh = record { block_list = none; allow_list = none }

filter-kept_example :
    Answers literal true (codes "user:0" ∷ []) [] (filter literal options entry fresh)
unfolding new_entry new_keys_pattern trim_space has_suffix is_any
filter-kept_example =
    filter-kept literal options (codes "user:0" ∷ []) [] entry fresh refl refl (inl refl, inl refl)

abbrev refusing : Engine
refusing = record { Regexp = Bytes; compile = λ pattern. none; match_string = bytes_eq }

abbrev unread : Patterns refusing
unread = record { block_list = none; allow_list = none }

filter-refused_example : filter refusing options entry unread ≡ panic logged
unfolding new_entry new_keys_pattern trim_space contains
filter-refused_example = filter-refused refusing options entry unread refl refl
