-- ===== src/Rdb/Packs.antt =====
-- What the values of backend/internal/rdb/types are made of, as Redis writes it: sequences behind
-- their length, ziplists and listpacks.
use redis_shake.Prelude.{
  ℕ, ◌+◌, ◌^◌, ◌<◌, List, [], ◌∷◌, ◌++◌, append_assoc, map, length, All, Bytes, leb, false, ◌≡◌,
  refl, sym, ap, ◌∙◌, arith,
}
use redis_shake.Go.Outcome.{ok}
use redis_shake.Structure.Reader
use redis_shake.Structure.Reader.{Reader}
use redis_shake.Structure.Length.{read_length}
use redis_shake.Structure.Length.RoundTrip.{save_length, read_length-save_length}
use redis_shake.Structure.Text.Saved.{Saved, save_text, text, IsSaved}
use redis_shake.Structure.Ziplist.{read_zip_list}
use redis_shake.Structure.Ziplist.Entries as ZipEntries
use redis_shake.Structure.Ziplist.RoundTrip.{
  entry_text, IsEntry, save_ziplist, read_zip_list-save_ziplist,
}
use redis_shake.Structure.Listpack.{read_listpack}
use redis_shake.Structure.Listpack.Entries
use redis_shake.Structure.Listpack.RoundTrip.{
  save_items, save_listpack, read_listpack-save_listpack,
}
use redis_shake.Rdb.Commands.{int_bound, repeat}

module _ {A B : Type 0} (f : A → List B) where
  abbrev pub flat : List A → List B
  flat [] = []
  flat (x ∷ xs) = f x ++ flat xs

map-append : {A B : Type 0} (f : A → B) (xs ys : List A) → map f (xs ++ ys) ≡ map f xs ++ map f ys
map-append f [] ys = refl
map-append f (x ∷ xs) ys = ap (◌∷◌ (f x)) (map-append f xs ys)

pub map-flat :
    {A B C : Type 0} (f : B → C) (g : A → List B) (xs : List A)
    → flat (λ x. map f (g x)) xs ≡ map f (flat g xs)
map-flat f g [] = refl
map-flat f g (x ∷ xs) =
    ap (◌++◌ (map f (g x))) (map-flat f g xs) ∙ sym (map-append f (g x) (flat g xs))

abbrev pub save_counted : {X : Type 0} → (X → Bytes) → List X → Bytes
save_counted save xs = save_length (length xs) ++ flat save xs

pub flat-singletons :
    {A B C : Type 0} (f : B → C) (g : A → B) (xs : List A)
    → flat (λ x. f (g x) ∷ []) xs ≡ map f (map g xs)
flat-singletons f g [] = refl
flat-singletons f g (x ∷ xs) = rw (flat-singletons f g xs) refl

-- One round for each of some things, each of which is read back by a round.
module _ {X A : Type 0} (save : X → Bytes) (sent : X → List A) (P : X → Type 0)
    (round : Reader (List A))
    (round_ok : (x : X) (rest : Bytes) → P x → round (save x ++ rest) ≡ ok (sent x, rest)) where
  pub repeat-flat :
      (xs : List X) (rest : Bytes)
      → All P xs
      → repeat (length xs) round (flat save xs ++ rest) ≡ ok (flat sent xs, rest)
  unfolding repeat
  repeat-flat [] rest h = refl
  repeat-flat (x ∷ xs) rest h =
      rw
        (
          append_assoc (save x) (flat save xs) rest,
          round_ok x (flat save xs ++ rest) h.0,
          repeat-flat xs rest h.1,
        )
        refl

  -- Their number in front of them, read as an `int`.
  pub counted :
      (xs : List X) (rest : Bytes)
      → length xs < 2 ^ 63
      → All P xs
      → Reader.◌>>=◌ read_length
          (λ size. repeat (int_bound size) round)
          (save_counted save xs ++ rest)
        ≡ ok (flat sent xs, rest)
  counted xs rest l h =
      let e : leb (2 ^ 63) (length xs) ≡ false = ground arith in
      rw
        (
          append_assoc (save_length (length xs)) (flat save xs) rest,
          read_length-save_length (length xs) (flat save xs ++ rest) (omega arith),
          e,
        )
        (repeat-flat xs rest h)

-- A ziplist, with the size and the offset that it claims, and the string that it is stored as.
pub record Zip : Type 0 where
  pub stored : Saved
  pub zlbytes : ℕ
  pub zltail : ℕ
  pub entries : List (ℕ × ZipEntries.Item)

abbrev zip_body : Zip → Bytes
zip_body z = save_ziplist z.zlbytes z.zltail (length z.entries) z.entries

abbrev pub save_zip : Zip → Bytes
save_zip z = save_text z.stored

abbrev pub zip_texts : Zip → List Bytes
zip_texts z = map entry_text z.entries

abbrev pub IsZip : Zip → Type 0
IsZip z =
    ((z.zlbytes < 2 ^ 32) × (z.zltail < 2 ^ 32))
    × ((length z.entries < 65535)
        × (All IsEntry z.entries × ((text z.stored ≡ zip_body z) × IsSaved z.stored)))

pub read_zip_list-save_zip :
    (z : Zip) (rest : Bytes) → IsZip z → read_zip_list (save_zip z ++ rest) ≡ ok (zip_texts z, rest)
read_zip_list-save_zip z rest h =
    read_zip_list-save_ziplist z.stored z.zlbytes z.zltail z.entries rest h.0.0 h.0.1 h.1.0 h.1.1.0
      h.1.1.1.0 h.1.1.1.1

-- A listpack, and the string that it is stored as.
pub record Pack : Type 0 where
  pub stored : Saved
  pub elements : List Entries.Item

abbrev pub save_pack : Pack → Bytes
save_pack p = save_text p.stored

abbrev pub pack_texts : Pack → List Bytes
pack_texts p = map Entries.item_text p.elements

abbrev pub IsPack : Pack → Type 0
IsPack p =
    All Entries.IsItem p.elements
    × ((length p.elements < 2 ^ 16)
        × ((7 + length (save_items p.elements) < 2 ^ 32)
            × ((text p.stored ≡ save_listpack p.elements) × IsSaved p.stored)))

pub read_listpack-save_pack :
    (p : Pack) (rest : Bytes)
    → IsPack p
    → read_listpack (save_pack p ++ rest) ≡ ok (pack_texts p, rest)
read_listpack-save_pack p rest h =
    read_listpack-save_listpack p.stored p.elements rest h.0 h.1.0 h.1.1.0 h.1.1.1.0 h.1.1.1.1
