-- ===== src/Resp.antt =====
-- The commands that are sent and stored: `Writer` of backend/internal/client/proto/writer.go, for
-- arguments that are strings, and `Serialize` of backend/internal/entry/entry.go. The bytes go to a
-- buffer in memory, whose writes do not fail.
use redis_shake.Prelude.{List, [], ◌∷◌, ◌++◌, length, Bytes, codes, ◌≡◌, refl}
use redis_shake.Prelude.Int.{pos}
use redis_shake.Go.Strconv.{format_uint}
use redis_shake.Entry.{Entry}

abbrev pub crlf : Bytes
crlf = 13 ∷ 10 ∷ []

-- `writeLen`.
unfoldable pub write_len : List Bytes → Bytes
write_len args = format_uint (length args) ++ crlf

-- `bytes`, which `WriteArg` calls for a string: the marker, the length, the bytes.
unfoldable pub write_arg : Bytes → Bytes
write_arg b = b'$' ∷ ((format_uint (length b) ++ crlf) ++ (b ++ crlf))

-- The loop of `WriteArgs`.
unfoldable pub write_each : List Bytes → Bytes
write_each [] = []
write_each (arg ∷ args) = write_arg arg ++ write_each args

unfoldable pub write_args : List Bytes → Bytes
write_args args = b'*' ∷ (write_len args ++ write_each args)

-- `Serialize`: the bytes, and the entry with their number.
unfoldable pub serialize : Entry → Bytes × Entry
serialize e = let buf = write_args e.argv in (buf, record e { serialized_size = pos (length buf) })

ping :
    write_args (codes "PING" ∷ [])
    ≡ codes "*1" ++ (crlf ++ (codes "$4" ++ (crlf ++ (codes "PING" ++ crlf))))
unfolding write_args write_len write_each write_arg format_uint
ping = refl
