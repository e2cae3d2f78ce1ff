-- ===== src/ControlPlane/Rows/Laws.antt =====
-- How an UPDATE and an INSERT change what a SELECT finds and counts.
use redis_shake.Prelude.{
  ℕ, ◌+◌, ◌≤◌, ◌==◌, Bool, true, false, Option, none, some, List, [], ◌∷◌, ◌++◌, if◌then◌else◌, ◌≡◌,
  refl, Bool-cases, inl, inr, arith,
}
use redis_shake.ControlPlane.Rows.{update_where, count_where, find_where}

abbrev pub map_some : {A B : Type 0} → (A → B) → Option A → Option B
map_some f none = none
map_some f (some x) = some (f x)

abbrev pub one_if : Bool → ℕ
one_if b = if b then 1 else 0

pub changed_le :
    {A : Type 0} (q p : A → Bool) (f : A → A) (x : A)
    → (p x ≡ true → q (f x) ≡ true → q x ≡ true)
    → one_if (q (if p x then f x else x)) ≤ one_if (q x)
changed_le q p f x h = elim (Bool-cases (p x)) [
  | inr e ↦ rw e (omega arith)
  | inl e ↦ rw e (elim (Bool-cases (q (f x))) [
    | inl c ↦ rw (c, h e c) (omega arith)
    | inr c ↦ rw c (omega arith)
  ])
]

module _ {A : Type 0} where
  -- An UPDATE that turns no other row into one that is counted raises no count.
  pub count-update_le :
      (q p : A → Bool) (f : A → A)
      → ((x : A) → p x ≡ true → q (f x) ≡ true → q x ≡ true)
      → (xs : List A) → count_where q (update_where p f xs) ≤ count_where q xs
  unfolding update_where count_where
  count-update_le q p f h [] = omega arith
  count-update_le q p f h (x ∷ xs) =
      omega (arith, count-update_le q p f h xs, changed_le q p f x (h x))

  pub count-append :
      (q : A → Bool) (xs : List A) (x : A)
      → count_where q (xs ++ x ∷ []) ≡ count_where q xs + one_if (q x)
  unfolding count_where
  count-append q [] x = omega arith
  count-append q (y ∷ xs) x = omega (arith, count-append q xs x)

  pub find_where-holds :
      (q : A → Bool) (xs : List A) (x : A) → find_where q xs ≡ some x → q x ≡ true
  unfolding find_where
  find_where-holds q [] x e = ground arith
  find_where-holds q (y ∷ xs) x e = elim (Bool-cases (q y)) [
    | inl c ↦ ground (arith, c, e)
    | inr c ↦ find_where-holds q xs x (rw (← e, c) refl)
  ]

  -- The row that is found is changed as the UPDATE says, where its test is kept.
  pub find-update :
      (q p : A → Bool) (f : A → A)
      → ((x : A) → q (f x) ≡ q x)
      → (xs : List A)
      → find_where q (update_where p f xs)
        ≡ map_some (λ x. if p x then f x else x) (find_where q xs)
  unfolding find_where update_where
  find-update q p f h [] = refl
  find-update q p f h (x ∷ xs) = elim (Bool-cases (p x)) [
    | inl c ↦ elim (Bool-cases (q x)) [
      | inl d ↦ rw (c, h x, d, c) refl
      | inr d ↦ rw (c, h x, d) (find-update q p f h xs)
    ]
    | inr c ↦ elim (Bool-cases (q x)) [
      | inl d ↦ rw (c, d, c) refl
      | inr d ↦ rw (c, d) (find-update q p f h xs)
    ]
  ]

  pub find-append :
      (q : A → Bool) (xs : List A) (y x : A)
      → find_where q xs ≡ some x
      → find_where q (xs ++ y ∷ []) ≡ some x
  unfolding find_where
  find-append q [] y x e = ground arith
  find-append q (z ∷ xs) y x e = elim (Bool-cases (q z)) [
    | inl c ↦ rw c (rw (← e, c) refl)
    | inr c ↦ rw c (find-append q xs y x (rw (← e, c) refl))
  ]

  pub find-append_other :
      (q : A → Bool) (xs : List A) (y : A)
      → q y ≡ false
      → find_where q (xs ++ y ∷ []) ≡ find_where q xs
  unfolding find_where
  find-append_other q [] y e = rw e refl
  find-append_other q (z ∷ xs) y e = rw (find-append_other q xs y e) refl

  -- A row that is found is counted.
  pub find-count : (q : A → Bool) (xs : List A) → count_where q xs ≡ 0 → find_where q xs ≡ none
  unfolding find_where count_where
  find-count q [] e = refl
  find-count q (x ∷ xs) e = elim (Bool-cases (q x)) [
    | inl c ↦ ground (arith, c, e)
    | inr c ↦ rw c (find-count q xs (ground (arith, c, e)))
  ]

  -- Where no row is counted, none that is found is.
  pub find-uncounted :
      (p q : A → Bool) (xs : List A) (x : A)
      → (count_where p xs == 0) ≡ true
      → find_where q xs ≡ some x
      → p x ≡ false
  unfolding find_where count_where
  find-uncounted p q [] x c e = ground (arith, e)
  find-uncounted p q (y ∷ xs) x c e = elim (Bool-cases (q y)) [
    | inl d ↦ ground (arith, c, d, e)
    | inr d ↦ find-uncounted p q xs x (ground (arith, c)) (rw (← e, d) refl)
  ]

  -- A row that is inserted, where none that it hides was there.
  pub find-append_absent :
      (q : A → Bool) (xs : List A) (y : A)
      → (q y ≡ true → find_where q xs ≡ none)
      → find_where q (xs ++ y ∷ []) ≡ (if q y then some y else find_where q xs)
  unfolding find_where
  find-append_absent q [] y h = refl
  find-append_absent q (x ∷ xs) y h = elim (Bool-cases (q x)) [
    | inl c ↦ elim (Bool-cases (q y)) [ inl d ↦ ground (arith, c, h d) | inr d ↦ rw (c, d) refl ]
    | inr c ↦ rw (c, find-append_absent q xs y (λ d. rw (← h d, c) refl)) refl
  ]
