-- ===== src/Rdb/ObjectTotal.antt =====
-- The modules of backend/internal/rdb/types, and so all its objects, are read to an end on every
-- input.
use redis_shake.Prelude.{ℕ, Bytes, Option, none, some, leb, ◌==◌, bytes_eq, codes, arith}
use redis_shake.Go.Outcome.Rules.{Ends, ended}
use redis_shake.Go.Strconv.{ParsedUint, parse_uint}
use redis_shake.Structure.Reader.Takes.{
  Takes, return-Takes, fail-Takes, lift-Takes, any-Takes, if-Takes, bind-Takes,
}
use redis_shake.Structure.Total.{read_length-Takes, read_module-Takes}
use redis_shake.Structure.Float.{FloatText}
use redis_shake.Structure.Module2.{read_module_unsigned, read_module_string, read_module_eof}
use redis_shake.Rdb.Total.{
  repeat-Takes, after_del-Takes, rewrite_string-Takes, rewrite_list-Takes, rewrite_set-Takes,
  rewrite_zset-Takes, rewrite_hash-Takes,
}
use redis_shake.Rdb.StreamTotal.{rewrite_stream-Takes}
use redis_shake.Rdb.Tair.{
  rewrite_tair_string, read_tair_field, rewrite_tair_hash, read_tair_member, rewrite_tair_zset,
}
use redis_shake.Rdb.Bloom.{
  Chain, uint_of, read_unsigned, float_of, read_bloom_double, read_sizes, read_link, load_bloom,
  rewrite_bloom,
}
use redis_shake.Rdb.Bloom.Chunks.{encoded_chunks-AreChunks}
use redis_shake.Rdb.Object.{ObjectOptions, rewrite_module_named, rewrite_module, parse_object}

module _ (floats : FloatText) where
  unsigned-Takes : Takes 0 read_module_unsigned
  unsigned-Takes = (read_module-Takes floats).0

  string-Takes : Takes 0 read_module_string
  string-Takes = (read_module-Takes floats).1.0

  eof-Takes : Takes 0 read_module_eof
  eof-Takes = (read_module-Takes floats).1.1.0

  tair_string-Takes : (key : Bytes) → Takes 0 (rewrite_tair_string key)
  unfolding rewrite_tair_string
  tair_string-Takes key = bind-Takes unsigned-Takes (λ v.
      bind-Takes unsigned-Takes
        (λ f. bind-Takes string-Takes (λ t. bind-Takes eof-Takes (λ e. return-Takes _))))

  tair_field-Takes : (key : Bytes) → Takes 0 (read_tair_field key)
  unfolding read_tair_field
  tair_field-Takes key = bind-Takes string-Takes (λ s.
      bind-Takes unsigned-Takes
        (λ v. bind-Takes unsigned-Takes (λ e. bind-Takes string-Takes (λ f. return-Takes _))))

  tair_hash-Takes : Takes 0 rewrite_tair_hash
  unfolding rewrite_tair_hash
  tair_hash-Takes = bind-Takes unsigned-Takes (λ n. bind-Takes string-Takes (λ key.
      bind-Takes (after_del-Takes key (repeat-Takes _ (tair_field-Takes key)))
        (λ cmds. bind-Takes eof-Takes (λ e. return-Takes _))))

  tair_member-Takes : (key : Bytes) (n : ℕ) → Takes 0 (read_tair_member floats key n)
  unfolding read_tair_member
  tair_member-Takes key n = bind-Takes string-Takes (λ k.
      bind-Takes
        (repeat-Takes n (bind-Takes (read_module-Takes floats).1.1.1 (λ v. return-Takes _)))
        (λ vs. return-Takes _))

  tair_zset-Takes : (key : Bytes) → Takes 0 (rewrite_tair_zset floats key)
  unfolding rewrite_tair_zset
  tair_zset-Takes key = after_del-Takes key (
      bind-Takes unsigned-Takes (λ l. bind-Takes unsigned-Takes (λ n.
        bind-Takes (repeat-Takes _ (tair_member-Takes key _))
          (λ cmds. bind-Takes eof-Takes (λ e. return-Takes _)))))

  uint-Takes : (p : ParsedUint) → Takes 0 (uint_of p)
  uint-Takes (ParsedUint.parsed u) = return-Takes u
  uint-Takes ParsedUint.bad_syntax = fail-Takes
  uint-Takes ParsedUint.bad_range = fail-Takes

  read_unsigned-Takes : Takes 0 read_unsigned
  unfolding read_unsigned
  read_unsigned-Takes = bind-Takes unsigned-Takes (λ v. uint-Takes (parse_uint v))

  float-Takes : (o : Option ℕ) → Takes 0 (float_of o)
  float-Takes none = fail-Takes
  float-Takes (some f) = return-Takes f

  double-Takes : Takes 0 (read_bloom_double floats)
  unfolding read_bloom_double
  double-Takes =
      bind-Takes (read_module-Takes floats).1.1.1 (λ v. float-Takes (floats.parse_float v))

  link-Takes : (encver : ℕ) → Takes 0 (read_link floats encver)
  unfolding read_link read_sizes
  link-Takes encver = bind-Takes read_unsigned-Takes (λ n. bind-Takes double-Takes (λ e.
      bind-Takes read_unsigned-Takes (λ h. bind-Takes double-Takes (λ b.
        bind-Takes
          (if-Takes (encver == 0) (return-Takes _) (
            bind-Takes read_unsigned-Takes
              (λ x. bind-Takes read_unsigned-Takes (λ y. return-Takes _))))
          (λ sizes.
            bind-Takes string-Takes
              (λ bf. bind-Takes read_unsigned-Takes (λ size. return-Takes _)))))))

  bloom-Takes : (encver : ℕ) → Takes 0 (load_bloom floats encver)
  unfolding load_bloom
  bloom-Takes encver = bind-Takes read_unsigned-Takes (λ s. bind-Takes read_unsigned-Takes (λ n.
      bind-Takes (if-Takes (leb 2 encver) read_unsigned-Takes (return-Takes 0)) (λ o.
        bind-Takes (if-Takes (leb 4 encver) read_unsigned-Takes (return-Takes 2)) (λ g.
          bind-Takes (repeat-Takes n (link-Takes encver))
            (λ ls. bind-Takes eof-Takes (λ e. return-Takes _))))))

rewrite_bloom-Ends :
    (target : ℕ) (key : Bytes) (encver : ℕ) (sb : Chain)
    → Ends (λ cmds. Unit {0}) (rewrite_bloom target key encver sb)
unfolding rewrite_bloom
rewrite_bloom-Ends target key encver sb =
    let (chunks, e, are) = encoded_chunks-AreChunks sb 10485760 (omega arith) in rw e (ended tt)

module _ (options : ObjectOptions) (key : Bytes) where
  module-Takes : (id : ℕ) (name : Bytes) → Takes 0 (rewrite_module_named options key id name)
  unfolding rewrite_module_named
  module-Takes id name =
      if-Takes (bytes_eq name (codes "exstrtype")) (tair_string-Takes options.floats key) (
        if-Takes (bytes_eq name (codes "tairhash-")) (tair_hash-Takes options.floats) (
          if-Takes (bytes_eq name (codes "tairzset_")) (tair_zset-Takes options.floats key) (
            if-Takes (bytes_eq name (codes "MBbloom--"))
              (bind-Takes (bloom-Takes options.floats _)
                (λ sb. lift-Takes (rewrite_bloom-Ends _ key _ sb)))
              fail-Takes)))

  pub parse_object-Takes : (t : ℕ) → Takes 0 (parse_object options t key)
  unfolding parse_object rewrite_module
  parse_object-Takes t = if-Takes (t == 0) (rewrite_string-Takes key) (
      if-Takes _ (rewrite_list-Takes key t) (
        if-Takes _ (rewrite_set-Takes key t) (
          if-Takes _ (rewrite_zset-Takes options.floats key t) (
            if-Takes _ (rewrite_hash-Takes options.is_valkey key t) (
              if-Takes _ (rewrite_stream-Takes key t) (
                if-Takes _
                  (if-Takes (t == 6) fail-Takes
                    (bind-Takes (any-Takes read_length-Takes) (λ id. module-Takes id _)))
                  fail-Takes))))))
