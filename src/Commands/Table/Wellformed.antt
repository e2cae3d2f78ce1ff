-- ===== src/Commands/Table/Wellformed.antt =====
-- What holds of every entry of the program's table.
use redis_shake.Prelude.{
  Bool, true, ◌&&◌, ◌||◌, [], ◌∷◌, All, all, all-All, Bytes, bytes_eq, codes, some, ◌≡◌, refl,
  arith,
}
use redis_shake.Prelude.Int.{pos, ltb_ℤ}
use redis_shake.Commands.Types.{KeySpec, RedisCommand}
use redis_shake.Commands.Table.{Table, lookup_command, redis_commands}

-- Both types are among those that `CalcKeys` knows, a keyword is sought forwards, and the step of
-- the loop that the find type selects is positive.
unfoldable pub spec_wellformed : KeySpec → Bool
spec_wellformed spec =
    (bytes_eq spec.begin_search_type (codes "index")
      || (bytes_eq spec.begin_search_type (codes "keyword")
          && ltb_ℤ (pos 0) spec.begin_search_start_from))
    && ((bytes_eq spec.find_keys_type (codes "range")
          && ltb_ℤ (pos 0) spec.find_keys_range_key_step)
        || (bytes_eq spec.find_keys_type (codes "keynum")
            && ltb_ℤ (pos 0) spec.find_keys_keynum_key_step))

unfoldable pub command_wellformed : RedisCommand → Bool
command_wellformed cmd = all spec_wellformed cmd.key_spec

redis_commands_wellformed : all (λ row. command_wellformed row.1) redis_commands ≡ true
unfolding command_wellformed spec_wellformed
redis_commands_wellformed = refl

lookup-All :
    (p : RedisCommand → Bool) (t : Table) (name : Bytes) (cmd : RedisCommand)
    → all (λ row. p row.1) t ≡ true
    → lookup_command t name ≡ some cmd
    → p cmd ≡ true
unfolding lookup_command
lookup-All p [] name cmd h e = cc
lookup-All p ((n, c) ∷ t) name cmd h e = ground (arith, lookup-All p t name cmd)

-- Every key specification of a command that the table has is one that `CalcKeys` knows, and its
-- loops make progress on it.
pub lookup-wellformed :
    (name : Bytes) (cmd : RedisCommand)
    → lookup_command redis_commands name ≡ some cmd
    → All (λ spec. spec_wellformed spec ≡ true) cmd.key_spec
lookup-wellformed name cmd e =
    let h : command_wellformed cmd ≡ true =
      lookup-All command_wellformed redis_commands name cmd redis_commands_wellformed e in
    all-All spec_wellformed cmd.key_spec (unfold command_wellformed in h)
