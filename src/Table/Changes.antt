-- ===== src/Table/Changes.antt =====
-- What a DELETE and an UPDATE of many rows do to the keys of a table and to a count of its rows.
use balt_oil.Table.{Table, Unique, count_rows, lookup, map_rows, remove}
use balt_oil.Prelude.{
  Bool, [], arith, false, if◌then◌else◌, none, refl, some, true, ℕ, ◌+◌, ◌∷◌, ◌≡◌, ◌≤◌,
}

module _ {ℓ} {A : Type ℓ} where
  lookup-remove_absent : (k j : ℕ) (t : Table A) → lookup j t ≡ none → lookup j (remove k t) ≡ none
  lookup-remove_absent k j [] h = refl
  lookup-remove_absent k j ((i, b) ∷ t) h = ground (arith, lookup-remove_absent k j t)

  pub remove-Unique : (k : ℕ) (t : Table A) → Unique t → Unique (remove k t)
  remove-Unique k [] u = tt
  remove-Unique k ((j, b) ∷ t) u =
      ground (arith, remove-Unique k t u.1, lookup-remove_absent k j t u.0)

  lookup-map_rows_absent :
      (f : ℕ → A → A) (k : ℕ) (t : Table A) → lookup k t ≡ none → lookup k (map_rows f t) ≡ none
  lookup-map_rows_absent f k [] h = refl
  lookup-map_rows_absent f k ((j, b) ∷ t) h = ground (arith, lookup-map_rows_absent f k t)

  pub map_rows-Unique : (f : ℕ → A → A) (t : Table A) → Unique t → Unique (map_rows f t)
  map_rows-Unique f [] u = tt
  map_rows-Unique f ((j, b) ∷ t) u = (lookup-map_rows_absent f j t u.0, map_rows-Unique f t u.1)

  remove_absent : (k : ℕ) (t : Table A) → lookup k t ≡ none → remove k t ≡ t
  remove_absent k [] h = refl
  remove_absent k ((j, b) ∷ t) h = ground (arith, remove_absent k t)

  pub count_rows-remove :
      (p : A → Bool) (k : ℕ) {old : A} (t : Table A)
      → Unique t
      → lookup k t ≡ some old
      → count_rows p (remove k t) + (if p old then 1 else 0) ≡ count_rows p t
  count_rows-remove p k [] u h = cc
  count_rows-remove p k {old} ((j, b) ∷ t) u h =
      ground (arith, count_rows-remove p k {old = old} t u.1, remove_absent k t)

  -- An update in place that changes the condition at most on the rows of another one, of which there
  -- are none.
  pub count_rows-map_rows :
      (p q : A → Bool) (f : ℕ → A → A) (t : Table A)
      → ((j : ℕ) (b : A) → q b ≡ false → p (f j b) ≡ p b)
      → count_rows q t ≡ 0
      → count_rows p (map_rows f t) ≡ count_rows p t
  count_rows-map_rows p q f [] same h = refl
  count_rows-map_rows p q f ((j, b) ∷ t) same h =
      ground (arith, same j b, count_rows-map_rows p q f t same)

  -- A row that was found meets the condition that counts it.
  pub count_rows-lookup :
      (p : A → Bool) (k : ℕ) (a : A) (t : Table A)
      → lookup k t ≡ some a
      → p a ≡ true
      → 1 ≤ count_rows p t
  count_rows-lookup p k a [] h e = cc
  count_rows-lookup p k a ((j, b) ∷ t) h e = ground (arith, count_rows-lookup p k a t)
