-- ===== src/Rows/Table.antt =====
-- A table as the list of its rows: reading and writing one row through its primary key.
use chat_bot_ceiba.Common.{
  ℕ, ◌≡◌, false, Bool-cases, inl, inr, refl, Option, none, some, List, [], ◌∷◌, arith, ◌==◌,
  if◌then◌else◌, All, All-snoc, ◌++◌,
}

module _ {ℓ} {A : Type ℓ} (key : A → ℕ) where
  -- `session.get(Row, k)`
  unfoldable pub get : ℕ → List A → Option A
  get k [] = none
  get k (x ∷ xs) = if key x == k then some x else get k xs

  -- The flush of a changed row.
  unfoldable pub put : A → List A → List A
  put r [] = []
  put r (x ∷ xs) = if key x == key r then r ∷ xs else x ∷ put r xs

  pub get-put :
      (k : ℕ) (r old : A) (xs : List A)
      → get (key r) xs ≡ some old
      → get k (put r xs) ≡ (if key r == k then some r else get k xs)
  unfolding get put
  get-put k r old [] h = ground arith
  get-put k r old (x ∷ xs) h = ground (arith, get-put k r old xs)

  pub key-get : (k : ℕ) (r : A) (xs : List A) → get k xs ≡ some r → key r ≡ k
  unfolding get
  key-get k r [] h = ground arith
  key-get k r (x ∷ xs) h = ground (arith, key-get k r xs)

  pub All-put {κ} : (P : A → Type κ) (r : A) (xs : List A) → P r → All P xs → All P (put r xs)
  unfolding put
  All-put P r [] p h = tt
  All-put P r (x ∷ xs) p h = ground (arith, All-put P r xs p h.1)

  pub All-get {κ} :
      (P : A → Type κ) (k : ℕ) (r : A) (xs : List A) → All P xs → get k xs ≡ some r → P r
  unfolding get
  All-get P k r [] h e = ground arith
  All-get P k r (x ∷ xs) h e = ground (arith, All-get P k r xs h.1)

module _ {ℓ} {A : Type ℓ} (key : A → ℕ) where
  -- A primary key.
  abbrev pub Unique : List A → Type 0
  Unique [] = Unit
  Unique (x ∷ xs) = All (λ y. (key y == key x) ≡ false) xs × Unique xs

  All-put_key :
      (k : ℕ) (r : A) (xs : List A)
      → All (λ y. (key y == k) ≡ false) xs
      → All (λ y. (key y == k) ≡ false) (put key r xs)
  unfolding put
  All-put_key k r [] h = tt
  All-put_key k r (x ∷ xs) h = ground (arith, All-put_key k r xs h.1)

  pub put-Unique : (r : A) (xs : List A) → Unique xs → Unique (put key r xs)
  unfolding put
  put-Unique r [] u = tt
  put-Unique r (x ∷ xs) u = elim (Bool-cases (key x == key r)) [
    | inl e ↦ rw e (let same : key x ≡ key r = ground arith in rw (← same) u)
    | inr e ↦ rw e (All-put_key (key x) r xs u.0, put-Unique r xs u.1)
  ]

module _ {ℓ} {A : Type ℓ} (key : A → ℕ) where
  -- Only the last flush of a row is seen.
  pub put-put :
      (r r' : A) (xs : List A) → key r ≡ key r' → put key r' (put key r xs) ≡ put key r' xs
  unfolding put
  put-put r r' [] e = refl
  put-put r r' (x ∷ xs) e = ground (arith, put-put r r' xs e)

  pub snoc-Unique :
      (r : A) (xs : List A) → Unique key xs → get key (key r) xs ≡ none → Unique key (xs ++ r ∷ [])
  unfolding get
  snoc-Unique r [] u g = (tt, tt)
  snoc-Unique r (x ∷ xs) u g = elim (Bool-cases (key x == key r)) [
    | inl same ↦ ground arith
    | inr other ↦ (
      All-snoc (λ y. (key y == key x) ≡ false) xs r u.0 (ground arith),
      snoc-Unique r xs u.1 (rw other at g),
    )
  ]

  -- A row stays where it is when another comes behind it.
  pub get-snoc :
      (k : ℕ) (r old : A) (xs : List A)
      → get key k xs ≡ some old
      → get key k (xs ++ r ∷ []) ≡ some old
  unfolding get
  get-snoc k r old [] h = cc
  get-snoc k r old (x ∷ xs) h = ground (arith, get-snoc k r old xs)
