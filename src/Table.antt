-- ===== src/Table.antt =====
-- A database table keyed by its primary key: rows in the order of insertion. `put` is an INSERT of
-- a new key or an UPDATE of the row in place, `remove` a DELETE.
pub mod Changes
use balt_oil.Prelude.{
  ℕ, ◌≡◌, refl, ◌≢◌, Bool, false, ◌||◌, Option, none, some, List, [], ◌∷◌, arith, ◌==◌,
  if◌then◌else◌, true, ◌+◌,
}
use balt_oil.Prelude.Int.{ℤ, pos, ◌+ℤ◌, int_laws}

abbrev pub Table {ℓ} : Type ℓ → Type ℓ
Table A = List (ℕ × A)

module _ {ℓ} {A : Type ℓ} where
  abbrev pub lookup : ℕ → Table A → Option A
  lookup k [] = none
  lookup k ((j, a) ∷ t) = if j == k then some a else lookup k t

  abbrev pub put : ℕ → A → Table A → Table A
  put k a [] = (k, a) ∷ []
  put k a ((j, b) ∷ t) = if j == k then (k, a) ∷ t else (j, b) ∷ put k a t

  abbrev pub remove : ℕ → Table A → Table A
  remove k [] = []
  remove k ((j, b) ∷ t) = if j == k then remove k t else (j, b) ∷ remove k t

  -- `DELETE … WHERE`
  abbrev pub drop_rows : (A → Bool) → Table A → Table A
  drop_rows p [] = []
  drop_rows p ((j, b) ∷ t) = if p b then drop_rows p t else (j, b) ∷ drop_rows p t

  -- Is there a row that meets the condition (`SELECT … LIMIT 1`, `first() is not None`)?
  abbrev pub any_row : (ℕ → A → Bool) → Table A → Bool
  any_row p [] = false
  any_row p ((j, b) ∷ t) = p j b || any_row p t

  abbrev pub find_row : (ℕ → A → Bool) → Table A → Option (ℕ × A)
  find_row p [] = none
  find_row p ((j, b) ∷ t) = if p j b then some (j, b) else find_row p t

  -- `UPDATE … SET … WHERE`: every row is given to the function.
  abbrev pub map_rows : (ℕ → A → A) → Table A → Table A
  map_rows f [] = []
  map_rows f ((j, b) ∷ t) = (j, f j b) ∷ map_rows f t

  -- `SUM(f)` over all rows.
  abbrev pub sum_rows : (A → ℤ) → Table A → ℤ
  sum_rows f [] = pos 0
  sum_rows f ((j, b) ∷ t) = f b +ℤ sum_rows f t

  pub lookup-put_self : (k : ℕ) (a : A) (t : Table A) → lookup k (put k a t) ≡ some a
  lookup-put_self k a [] = ground arith
  lookup-put_self k a ((j, b) ∷ t) = ground (arith, lookup-put_self k a t)

  pub lookup-put_ne : (k j : ℕ) (a : A) (t : Table A) → k ≢ j → lookup j (put k a t) ≡ lookup j t
  lookup-put_ne k j a [] h = ground arith
  lookup-put_ne k j a ((i, b) ∷ t) h = ground (arith, lookup-put_ne k j a t h)

  -- The form that serves rewriting: it has no side condition.
  pub lookup-put :
      (k j : ℕ) (a : A) (t : Table A)
      → lookup j (put k a t) ≡ (if k == j then some a else lookup j t)
  lookup-put k j a [] = refl
  lookup-put k j a ((i, b) ∷ t) = ground (arith, lookup-put k j a t)

  pub lookup-remove_ne : (k j : ℕ) (t : Table A) → k ≢ j → lookup j (remove k t) ≡ lookup j t
  lookup-remove_ne k j [] h = refl
  lookup-remove_ne k j ((i, b) ∷ t) h = ground (arith, lookup-remove_ne k j t h)

  pub lookup-remove_self : (k : ℕ) (t : Table A) → lookup k (remove k t) ≡ none
  lookup-remove_self k [] = refl
  lookup-remove_self k ((i, b) ∷ t) = ground (arith, lookup-remove_self k t)

  pub lookup-map_rows :
      (f : ℕ → A → A) (k : ℕ) {a : A} (t : Table A)
      → lookup k t ≡ some a
      → lookup k (map_rows f t) ≡ some (f k a)
  lookup-map_rows f k [] h = cc
  lookup-map_rows f k {a} ((j, b) ∷ t) h = ground (arith, lookup-map_rows f k {a = a} t)

  -- An update in place changes a sum by the difference of the old and the new row.
  pub sum_rows-put :
      (f : A → ℤ) (k : ℕ) (a : A) {old : A} (t : Table A)
      → lookup k t ≡ some old
      → sum_rows f (put k a t) +ℤ f old ≡ sum_rows f t +ℤ f a
  sum_rows-put f k a [] h = cc
  sum_rows-put f k a {old} ((j, b) ∷ t) h = grind (int_laws, sum_rows-put f k a {old = old} t)

  pub sum_rows-put_new :
      (f : A → ℤ) (k : ℕ) (a : A) (t : Table A)
      → lookup k t ≡ none
      → sum_rows f (put k a t) ≡ sum_rows f t +ℤ f a
  sum_rows-put_new f k a [] h = omega int_laws
  sum_rows-put_new f k a ((j, b) ∷ t) h = grind (int_laws, sum_rows-put_new f k a t)

  -- The primary key: no two rows share it.
  abbrev pub Unique : Table A → Type ℓ
  Unique [] = Unit
  Unique ((j, _) ∷ t) = (lookup j t ≡ none) × Unique t

  pub put-Unique : (k : ℕ) (a : A) (t : Table A) → Unique t → Unique (put k a t)
  put-Unique k a [] u = (refl, tt)
  put-Unique k a ((j, b) ∷ t) u = ground (arith, put-Unique k a t u.1, lookup-put k j a t)

  pub find_row-passes :
      (p : ℕ → A → Bool) (k : ℕ) (a : A) (t : Table A) → find_row p t ≡ some (k, a) → p k a ≡ true
  find_row-passes p k a [] h = cc
  find_row-passes p k a ((j, b) ∷ t) h = ground (arith, find_row-passes p k a t)

  lookup-find_row_any :
      (p : ℕ → A → Bool) (k : ℕ) (a : A) (t : Table A)
      → find_row p t ≡ some (k, a)
      → lookup k t ≢ none
  lookup-find_row_any p k a [] h = cc
  lookup-find_row_any p k a ((j, b) ∷ t) h = ground (arith, lookup-find_row_any p k a t)

  pub lookup-find_row :
      (p : ℕ → A → Bool) (k : ℕ) (a : A) (t : Table A)
      → Unique t
      → find_row p t ≡ some (k, a)
      → lookup k t ≡ some a
  lookup-find_row p k a [] u h = cc
  lookup-find_row p k a ((j, b) ∷ t) u h =
      ground (arith, lookup-find_row p k a t u.1, lookup-find_row_any p k a t)

  -- `SELECT COUNT(*) … WHERE`
  abbrev pub count_rows : (A → Bool) → Table A → ℕ
  count_rows p [] = 0
  count_rows p ((j, b) ∷ t) = (if p b then 1 else 0) + count_rows p t

  pub count_rows-put :
      (p : A → Bool) (k : ℕ) (a : A) {old : A} (t : Table A)
      → lookup k t ≡ some old
      → count_rows p (put k a t) + (if p old then 1 else 0)
        ≡ count_rows p t + (if p a then 1 else 0)
  count_rows-put p k a [] h = cc
  count_rows-put p k a {old} ((j, b) ∷ t) h = ground (arith, count_rows-put p k a {old = old} t)

  pub count_rows-put_new :
      (p : A → Bool) (k : ℕ) (a : A) (t : Table A)
      → lookup k t ≡ none
      → count_rows p (put k a t) ≡ count_rows p t + (if p a then 1 else 0)
  count_rows-put_new p k a [] h = omega arith
  count_rows-put_new p k a ((j, b) ∷ t) h = ground (arith, count_rows-put_new p k a t)

  pub count_rows-map_rows_zero :
      (p : A → Bool) (f : ℕ → A → A) (t : Table A)
      → ((k : ℕ) (a : A) → p (f k a) ≡ false)
      → count_rows p (map_rows f t) ≡ 0
  count_rows-map_rows_zero p f [] h = refl
  count_rows-map_rows_zero p f ((j, b) ∷ t) h =
      ground (arith, h j b, count_rows-map_rows_zero p f t h)

  -- A narrower condition that the found row meets finds the same row.
  pub find_row-narrow :
      (p q : ℕ → A → Bool) (k : ℕ) (a : A) (t : Table A)
      → ((j : ℕ) (b : A) → q j b ≡ true → p j b ≡ true)
      → find_row p t ≡ some (k, a)
      → q k a ≡ true
      → find_row q t ≡ some (k, a)
  find_row-narrow p q k a [] n h e = cc
  find_row-narrow p q k a ((j, b) ∷ t) n h e = ground (arith, n j b, find_row-narrow p q k a t n)

  -- The found row is found again after an update that keeps the condition.
  pub find_row-put :
      (p : ℕ → A → Bool) (k : ℕ) (a a' : A) (t : Table A)
      → Unique t
      → find_row p t ≡ some (k, a)
      → p k a' ≡ true
      → find_row p (put k a' t) ≡ some (k, a')
  find_row-put p k a a' [] u h e = cc
  find_row-put p k a a' ((j, b) ∷ t) u h e =
      ground (arith, find_row-put p k a a' t u.1, lookup-find_row_any p k a t)
