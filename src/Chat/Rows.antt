-- ===== src/Chat/Rows.antt =====
-- How many rows a user has in a conversation, and how one step changes their number.
use balt_oil.Prelude.{
  Bool, Bool-cases, List, [], any, arith, count, false, inl, inr, keep, refl, true, ℕ, ◌++◌, ◌+◌,
  ◌∷◌, ◌≡◌, ◌≤◌, ◌⊎◌, Option, if◌then◌else◌, is_some, none, some,
}
use balt_oil.Service.{Post, Result, ok, scalar_one_or_none}
use balt_oil.Chat.Defs.{
  Chats, ConversationParticipant, enrol, is_row_of, update_rows, participant_row,
}

module _ {ℓ} {A : Type ℓ} where
  pub count-append : (p : A → Bool) (xs ys : List A) → count p (xs ++ ys) ≡ count p xs + count p ys
  count-append p [] ys = omega arith
  count-append p (x ∷ xs) ys = ground (arith, count-append p xs ys)

  pub count-keep-le : (p q : A → Bool) (xs : List A) → count p (keep q xs) ≤ count p xs
  count-keep-le p q [] = omega arith
  count-keep-le p q (x ∷ xs) = ground (arith, count-keep-le p q xs)

  pub count-any : (p : A → Bool) (xs : List A) → any p xs ≡ false → count p xs ≡ 0
  count-any p [] h = refl
  count-any p (x ∷ xs) h = ground (arith, count-any p xs)

  pub any-count : (p : A → Bool) (xs : List A) → count p xs ≡ 0 → any p xs ≡ false
  any-count p [] h = refl
  any-count p (x ∷ xs) h = ground (arith, any-count p xs)

  pub keep-count : (p : A → Bool) (xs : List A) → keep p xs ≡ [] → count p xs ≡ 0
  keep-count p [] h = refl
  keep-count p (x ∷ xs) h = ground (arith, keep-count p xs)

  pub keep-any : (p : A → Bool) (xs : List A) → any p xs ≡ false → keep p xs ≡ []
  keep-any p [] h = refl
  keep-any p (x ∷ xs) h = ground (arith, keep-any p xs)

  pub any-last : (p : A → Bool) (xs : List A) (y : A) → p y ≡ true → any p (xs ++ (y ∷ [])) ≡ true
  any-last p [] y h = ground arith
  any-last p (x ∷ xs) y h = ground (arith, any-last p xs y h)

abbrev pub rows : ℕ → ℕ → Chats → ℕ
rows c u s = count (is_row_of c u) s.participants

pub is_row_of-eq :
    (c u : ℕ) (p : ConversationParticipant)
    → is_row_of c u p ≡ true
    → (p.conversation_id ≡ c) × (p.user_id ≡ u)
is_row_of-eq c u p h = ground arith

pub scalar_one_or_none-lists {ℓ} :
    {A : Type ℓ} (xs : List A) (found : Option A)
    → scalar_one_or_none xs ≡ ok found
    → elim found as (λ _. Type ℓ) [ none ↦ xs ≡ [] | some x ↦ xs ≡ x ∷ [] ]
scalar_one_or_none-lists [] none e = refl
scalar_one_or_none-lists [] (some x) e = cc
scalar_one_or_none-lists (x ∷ []) none e = cc
scalar_one_or_none-lists (x ∷ []) (some y) e = cc
scalar_one_or_none-lists (x ∷ y ∷ xs) found e = cc

-- The branches on the row of a user, with all rows of the user.
pub row_cases :
    {T : Type 0} {P : T → Type 0} (k a : ℕ) (s : Chats) (row : Option ConversationParticipant)
    {m m' : Result T}
    → participant_row k a s ≡ ok row
    → ((p : ConversationParticipant) → keep (is_row_of k a) s.participants ≡ p ∷ [] → Post P m)
    → (keep (is_row_of k a) s.participants ≡ [] → Post P m')
    → Post P (if is_some row then m else m')
row_cases k a s (some p) e found missing =
    found p (scalar_one_or_none-lists (keep (is_row_of k a) s.participants) (some p) e)
row_cases k a s none e found missing =
    missing (scalar_one_or_none-lists (keep (is_row_of k a) s.participants) none e)

pub row-Post :
    {T : Type 0} {P : T → Type 0} (k a : ℕ) (s : Chats) (row : Option ConversationParticipant)
    {m m' : Result T}
    → participant_row k a s ≡ ok row
    → Post P m
    → (rows k a s ≡ 0 → Post P m')
    → Post P (if is_some row then m else m')
row-Post k a s row e found missing =
    row_cases k a s row e (λ p one. found)
      (λ gone. missing (keep-count (is_row_of k a) s.participants gone))

-- The rows of a user do not become more, or the user had none, has one now, and there is a reason.
abbrev pub Grows : ℕ → ℕ → Type 0 → Chats → Chats → Type 0
Grows c u Reason s s' = (rows c u s' ≤ rows c u s) ⊎ ((rows c u s ≡ 0) × (rows c u s' ≤ 1) × Reason)

module _ (c u : ℕ) (s : Chats) where
  pub Grows-same :
      {Reason : Type 0} (s' : Chats) → s'.participants ≡ s.participants → Grows c u Reason s s'
  Grows-same s' same = inl (rw same (omega arith))

  pub Grows-weaken :
      {Reason Reason' : Type 0} (s' : Chats)
      → (rows c u s ≡ 0 → Reason → Reason')
      → Grows c u Reason s s'
      → Grows c u Reason' s s'
  Grows-weaken s' f (inl le) = inl le
  Grows-weaken s' f (inr (empty, one, why)) = inr (empty, one, f empty why)

  pub enrol-Grows :
      (p : ConversationParticipant)
      → rows p.conversation_id p.user_id s ≡ 0
      → Grows c u ((p.conversation_id ≡ c) × (p.user_id ≡ u)) s (enrol p s)
  enrol-Grows p empty = elim (Bool-cases (is_row_of c u p)) [
    | inl this ↦
        let (conv, user) = is_row_of-eq c u p this in
        let none_yet : rows c u s ≡ 0 = rw (← conv, ← user) empty in
        inr (
          none_yet,
          ground (arith, count-append (is_row_of c u) s.participants (p ∷ [])),
          (conv, user),
        )
    | inr other ↦ inl (ground (arith, count-append (is_row_of c u) s.participants (p ∷ [])))
  ]

  pub count-update_rows :
      (q : ConversationParticipant → Bool) (f : ConversationParticipant → ConversationParticipant)
      (ps : List ConversationParticipant)
      → ((p : ConversationParticipant) → is_row_of c u (f p) ≡ is_row_of c u p)
      → count (is_row_of c u) (update_rows q f ps) ≡ count (is_row_of c u) ps
  count-update_rows q f [] same = refl
  count-update_rows q f (p ∷ ps) same = ground (arith, same p, count-update_rows q f ps same)

  pub update_rows-Grows :
      {Reason : Type 0} (q : ConversationParticipant → Bool)
      (f : ConversationParticipant → ConversationParticipant)
      → ((p : ConversationParticipant) → is_row_of c u (f p) ≡ is_row_of c u p)
      → Grows c u Reason s (record s { participants = update_rows q f s.participants })
  update_rows-Grows q f same = inl (omega (arith, count-update_rows q f s.participants same))
