-- ===== src/Rdb/Collections/Strings.antt =====
-- A sequence of strings behind its length, as lists and sets are written that are not packed.
use redis_shake.Prelude.{◌^◌, ◌<◌, List, [], ◌∷◌, ◌++◌, map, length, All, Bytes, ◌≡◌, refl}
use redis_shake.Go.Outcome.{ok}
use redis_shake.Structure.Reader.{◌>>=◌, return}
use redis_shake.Structure.Text.{read_string}
use redis_shake.Structure.Text.Saved.{Saved, save_text, text, IsSaved, read_string-save_text}
use redis_shake.Rdb.Commands.{RedisCmd}
use redis_shake.Rdb.Packs.{flat-singletons, save_counted, counted}
use redis_shake.Rdb.Collections.{each_string}

string_ok :
    (cmd : Bytes → RedisCmd) (s : Saved) (rest : Bytes)
    → IsSaved s
    → (read_string >>= (λ ele. return (cmd ele ∷ []))) (save_text s ++ rest)
      ≡ ok (cmd (text s) ∷ [], rest)
string_ok cmd s rest h = rw (read_string-save_text s rest h) refl

pub each_string-save_counted :
    (cmd : Bytes → RedisCmd) (ss : List Saved) (rest : Bytes)
    → length ss < 2 ^ 63
    → All IsSaved ss
    → each_string cmd (save_counted save_text ss ++ rest) ≡ ok (map cmd (map text ss), rest)
each_string-save_counted cmd ss rest l h =
    rw
      (
        counted save_text (λ s. cmd (text s) ∷ []) IsSaved
            (read_string >>= (λ ele. return (cmd ele ∷ []))) (string_ok cmd) ss rest l h,
        flat-singletons cmd text ss,
      )
      refl
