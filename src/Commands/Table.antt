-- ===== src/Commands/Table.antt =====
-- backend/internal/commands/table.go: the container commands, and the key specifications of
-- every command, as an association list in the order of the source.
mod Row
mod FromAclCat
mod FromDelifeq
mod FromClusterFlushslot
mod FromBlpop
mod FromBzmpop
mod FromZrangestore
mod FromMove
mod FromEvalsha
mod FromGeosearchstore
mod FromHset
mod FromSinterstore
mod FromXdel
mod FromBfInsert
pub mod Wellformed
unfoldable pub use Row.{Table, row}
use FromAclCat.{from_acl_cat, from_failover, from_restore_asking}
use FromDelifeq.{from_delifeq, from_incrby, from_set}
use FromClusterFlushslot.{from_cluster_flushslot, from_client_info, from_bitop}
use FromBlpop.{from_blpop, from_lmove, from_lrem}
use FromBzmpop.{from_bzmpop, from_zdiffstore, from_zmpop}
use FromZrangestore.{from_zrangestore, from_zrevrangebylex, from_copy}
use FromMove.{from_move, from_pexpireat, from_touch}
use FromEvalsha.{from_evalsha, from_exhset, from_georadius}
use FromGeosearchstore.{from_geosearchstore, from_hgetall, from_hmset}
use FromHset.{from_hset, from_pfdebug, from_sunsubscribe}
use FromSinterstore.{from_sinterstore, from_srandmember, from_sentinel_master}
use FromXdel.{from_xdel, from_xinfo_consumers, from_xreadgroup}
use FromBfInsert.{from_bf_insert}
use redis_shake.Commands.Types.{RedisCommand}
use redis_shake.Prelude.{
  List, [], ◌∷◌, ◌++◌, Bytes, bytes_eq, codes, Option, none, some, if◌then◌else◌, Bool,
}
use redis_shake.Go.Strings.{contains}

abbrev pub containers : List Bytes
containers =
    codes "ACL"
    ∷ codes "CLIENT"
    ∷ codes "CLUSTER"
    ∷ codes "COMMAND"
    ∷ codes "COMMANDLOG"
    ∷ codes "CONFIG"
    ∷ codes "FUNCTION"
    ∷ codes "LATENCY"
    ∷ codes "MEMORY"
    ∷ codes "MODULE"
    ∷ codes "OBJECT"
    ∷ codes "PUBSUB"
    ∷ codes "SCRIPT"
    ∷ codes "SENTINEL"
    ∷ codes "SLOWLOG"
    ∷ codes "XGROUP"
    ∷ codes "XINFO"
    ∷ []

abbrev pub redis_commands : Table
redis_commands =
    from_acl_cat
    ++ (from_failover
        ++ (from_restore_asking
            ++ (from_delifeq
                ++ (from_incrby
                    ++ (from_set
                        ++ (from_cluster_flushslot
                            ++ (from_client_info
                                ++ (from_bitop
                                    ++ (from_blpop
                                        ++ (from_lmove
                                            ++ (from_lrem
                                                ++ (from_bzmpop
                                                    ++ (from_zdiffstore
                                                        ++ (from_zmpop
                                                            ++ (from_zrangestore
                                                            ++ (from_zrevrangebylex
                                                            ++ (from_copy
                                                            ++ (from_move
                                                            ++ (from_pexpireat
                                                            ++ (from_touch
                                                            ++ (from_evalsha
                                                            ++ (from_exhset
                                                            ++ (from_georadius
                                                            ++ (from_geosearchstore
                                                            ++ (from_hgetall
                                                            ++ (from_hmset
                                                            ++ (from_hset
                                                            ++ (from_pfdebug
                                                            ++ (from_sunsubscribe
                                                            ++ (from_sinterstore
                                                            ++ (from_srandmember
                                                            ++ (from_sentinel_master
                                                            ++ (from_xdel
                                                            ++ (from_xinfo_consumers
                                                            ++ (from_xreadgroup
                                                            ++ (from_bf_insert))))))))))))))))))))))))))))))))))))

-- `redisCommands[name]`, with its second result.
unfoldable pub lookup_command : Table → Bytes → Option RedisCommand
lookup_command [] name = none
lookup_command ((n, c) ∷ t) name = if bytes_eq n name then some c else lookup_command t name

-- `_, ok := containers[name]`.
unfoldable pub is_container : Bytes → Bool
unfolding contains
is_container name = contains containers name
