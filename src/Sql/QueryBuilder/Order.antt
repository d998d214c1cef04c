-- ===== src/Sql/QueryBuilder/Order.antt =====
-- Lists in ascending order of a key: what is behind a key, and the sorting that ORDER BY stands for.
use pipeline_server.Prelude.{
  ℕ, zero, suc, ◌≡◌, refl, ap, ◌∙◌, Bool, true, false, ◌&&◌, Option, some, none, List, [], ◌∷◌,
  if◌then◌else◌, length, take, drop, select, All, arith, Bool-cases, inl, inr, subst,
}
use pipeline_server.Prelude.Int.{ℤ, ltb_ℤ}
use pipeline_server.Sql.QueryBuilder.Meaning.{same_int, insert_by, sort_by}

lt_irrefl : (a : ℤ) → ltb_ℤ a a ≡ false
lt_irrefl a = ground arith

lt_asym : (a b : ℤ) → ltb_ℤ a b ≡ true → ltb_ℤ b a ≡ false
lt_asym a b h = ground arith

lt_trans : (a b c : ℤ) → ltb_ℤ a b ≡ true → ltb_ℤ b c ≡ true → ltb_ℤ a c ≡ true
lt_trans a b c h k = ground arith

lt_distinct : (a b : ℤ) → ltb_ℤ b a ≡ false → same_int a b ≡ false → ltb_ℤ a b ≡ true
lt_distinct a b h k = ground arith

lt_le : (a b c : ℤ) → ltb_ℤ a b ≡ true → ltb_ℤ c b ≡ false → ltb_ℤ a c ≡ true
lt_le a b c h k = ground arith

-- Lists in ascending order of a key.
module _ {A : Type 0} (key : A → ℤ) where
  abbrev pub Ascending : List A → Type 0
  Ascending [] = Unit
  Ascending (x ∷ xs) = All (λ y. ltb_ℤ (key x) (key y) ≡ true) xs × Ascending xs

  abbrev pub last_key : List A → Option ℤ
  last_key [] = none
  last_key (x ∷ []) = some (key x)
  last_key (x ∷ y ∷ xs) = last_key (y ∷ xs)

  abbrev pub behind : ℤ → List A → List A
  behind a = select (λ x. ltb_ℤ a (key x))

  behind-all : (a : ℤ) (xs : List A) → All (λ y. ltb_ℤ a (key y) ≡ true) xs → behind a xs ≡ xs
  behind-all a [] h = refl
  behind-all a (x ∷ xs) (h, hs) = rw h (ap (λ ys. x ∷ ys) (behind-all a xs hs))

  pub last_key-All :
      (P : ℤ → Type 0) (n : ℕ) (xs : List A) (b : ℤ)
      → All (λ y. P (key y)) xs
      → last_key (take n xs) ≡ some b
      → P b
  last_key-All P zero xs b h e = cc
  last_key-All P (suc n) [] b h e = cc
  last_key-All P (suc zero) (x ∷ xs) b h e = subst P (cc) h.0
  last_key-All P (suc (suc n)) (x ∷ []) b h e = subst P (cc) h.0
  last_key-All P (suc (suc n)) (x ∷ y ∷ xs) b h e = last_key-All P (suc n) (y ∷ xs) b h.1 e

  behind-skip :
      (b : ℤ) (x : A) (xs : List A) → ltb_ℤ b (key x) ≡ false → behind b (x ∷ xs) ≡ behind b xs
  behind-skip b x xs h = rw h refl

  -- the first item of the page is its last one
  behind-first :
      (x : A) (xs : List A) (b : ℤ)
      → All (λ y. ltb_ℤ (key x) (key y) ≡ true) xs
      → key x ≡ b
      → behind b (x ∷ xs) ≡ xs
  behind-first x xs b h e =
      subst (λ b'. behind b' (x ∷ xs) ≡ xs) e
        (behind-skip (key x) x xs (lt_irrefl (key x)) ∙ behind-all (key x) xs h)

  -- What is behind the last item of the first `n` is what is left after them.
  pub behind-last :
      (n : ℕ) (xs : List A) (b : ℤ)
      → Ascending xs
      → last_key (take n xs) ≡ some b
      → behind b xs ≡ drop n xs
  behind-last zero xs b h e = cc
  behind-last (suc n) [] b h e = cc
  behind-last (suc zero) (x ∷ xs) b h e = behind-first x xs b h.0 (cc)
  behind-last (suc (suc n)) (x ∷ []) b h e = behind-first x [] b tt (cc)
  behind-last (suc (suc n)) (x ∷ y ∷ xs) b h e =
      let before = last_key-All (λ k. ltb_ℤ (key x) k ≡ true) (suc n) (y ∷ xs) b h.0 e in
      behind-skip b x (y ∷ xs) (lt_asym (key x) b before) ∙ behind-last (suc n) (y ∷ xs) b h.1 e

  -- no two items have one key
  abbrev pub Distinct : List A → Type 0
  Distinct [] = Unit
  Distinct (x ∷ xs) = All (λ y. same_int (key x) (key y) ≡ false) xs × Distinct xs

  select-All : (P : A → Type 0) (test : A → Bool) (xs : List A) → All P xs → All P (select test xs)
  select-All P test [] h = tt
  select-All P test (x ∷ xs) h = elim (Bool-cases (test x)) [
    | inl t ↦ rw t (h.0, select-All P test xs h.1)
    | inr f ↦ rw f (select-All P test xs h.1)
  ]

  pub select-Ascending : (test : A → Bool) (xs : List A) → Ascending xs → Ascending (select test xs)
  select-Ascending test [] h = tt
  select-Ascending test (x ∷ xs) h = elim (Bool-cases (test x)) [
    | inl t ↦ rw t (select-All _ test xs h.0, select-Ascending test xs h.1)
    | inr f ↦ rw f (select-Ascending test xs h.1)
  ]

  pub select-Distinct : (test : A → Bool) (xs : List A) → Distinct xs → Distinct (select test xs)
  select-Distinct test [] d = tt
  select-Distinct test (x ∷ xs) d = elim (Bool-cases (test x)) [
    | inl h ↦ rw h (
      select-All (λ y. same_int (key x) (key y) ≡ false) test xs d.0,
      select-Distinct test xs d.1,
    )
    | inr h ↦ rw h (select-Distinct test xs d.1)
  ]

  insert-All : (P : A → Type 0) (x : A) (xs : List A) → P x → All P xs → All P (insert_by key x xs)
  insert-All P x [] p ps = (p, tt)
  insert-All P x (y ∷ ys) p ps = elim (Bool-cases (ltb_ℤ (key y) (key x))) [
    | inl h ↦ rw h (ps.0, insert-All P x ys p ps.1)
    | inr h ↦ rw h (p, ps)
  ]

  sort-All : (P : A → Type 0) (xs : List A) → All P xs → All P (sort_by key xs)
  sort-All P [] ps = tt
  sort-All P (x ∷ xs) ps = insert-All P x (sort_by key xs) ps.0 (sort-All P xs ps.1)

  below-All :
      (a b : ℤ) (xs : List A)
      → ltb_ℤ a b ≡ true
      → All (λ y. ltb_ℤ b (key y) ≡ true) xs
      → All (λ y. ltb_ℤ a (key y) ≡ true) xs
  below-All a b [] h ps = tt
  below-All a b (x ∷ xs) h ps = (lt_trans a b (key x) h ps.0, below-All a b xs h ps.1)

  insert-Ascending :
      (x : A) (xs : List A)
      → Ascending xs
      → All (λ y. same_int (key x) (key y) ≡ false) xs
      → Ascending (insert_by key x xs)
  insert-Ascending x [] asc d = (tt, tt)
  insert-Ascending x (y ∷ ys) asc d = elim (Bool-cases (ltb_ℤ (key y) (key x))) [
    | inl h ↦ rw h (
      insert-All (λ z. ltb_ℤ (key y) (key z) ≡ true) x ys h asc.0,
      insert-Ascending x ys asc.1 d.1,
    )
    | inr h ↦
        let below = lt_distinct (key x) (key y) h d.0 in
        rw h ((below, below-All (key x) (key y) ys below asc.0), asc)
  ]

  pub sort-Ascending : (xs : List A) → Distinct xs → Ascending (sort_by key xs)
  sort-Ascending [] d = tt
  sort-Ascending (x ∷ xs) d =
      insert-Ascending x (sort_by key xs) (sort-Ascending xs d.1) (sort-All _ xs d.0)

  insert-behind :
      (a : ℤ) (x : A) (xs : List A)
      → behind a (insert_by key x xs)
        ≡ (if ltb_ℤ a (key x) then insert_by key x (behind a xs) else behind a xs)
  insert-behind a x [] = refl
  insert-behind a x (y ∷ ys) = elim (Bool-cases (ltb_ℤ (key y) (key x))) [
    | inl h ↦ elim (Bool-cases (ltb_ℤ a (key y))) [
      | inl k ↦ elim (Bool-cases (ltb_ℤ a (key x))) [
        | inl l ↦ rw (h, k, insert-behind a x ys) (rw (h, l) refl)
        | inr l ↦ rw (h, k, insert-behind a x ys) (rw l refl)
      ]
      | inr k ↦ rw (h, k) (insert-behind a x ys)
    ]
    | inr h ↦ elim (Bool-cases (ltb_ℤ a (key x))) [
      | inl l ↦ rw (h, l, lt_le a (key x) (key y) l h) (rw h refl)
      | inr l ↦ rw (h, l) refl
    ]
  ]

  pub sort-behind : (a : ℤ) (xs : List A) → sort_by key (behind a xs) ≡ behind a (sort_by key xs)
  sort-behind a [] = refl
  sort-behind a (x ∷ xs) = elim (Bool-cases (ltb_ℤ a (key x))) [
    | inl h ↦ rw (insert-behind a x (sort_by key xs), h, sort-behind a xs) refl
    | inr h ↦ rw (insert-behind a x (sort_by key xs), h, sort-behind a xs) refl
  ]

  length-insert : (x : A) (xs : List A) → length (insert_by key x xs) ≡ suc (length xs)
  length-insert x [] = refl
  length-insert x (y ∷ ys) = ground (arith, length-insert x ys)

  pub length-sort : (xs : List A) → length (sort_by key xs) ≡ length xs
  length-sort [] = refl
  length-sort (x ∷ xs) = length-insert x (sort_by key xs) ∙ ap suc (length-sort xs)

  pub behind-All : (a : ℤ) (xs : List A) → All (λ x. ltb_ℤ a (key x) ≡ true) (behind a xs)
  behind-All a [] = tt
  behind-All a (x ∷ xs) = elim (Bool-cases (ltb_ℤ a (key x))) [
    | inl t ↦ rw t (t, behind-All a xs)
    | inr f ↦ rw f (behind-All a xs)
  ]

  pub behind-behind :
      (a b : ℤ) (xs : List A) → ltb_ℤ a b ≡ true → behind b (behind a xs) ≡ behind b xs
  behind-behind a b [] h = refl
  behind-behind a b (x ∷ xs) h = elim (Bool-cases (ltb_ℤ b (key x))) [
    | inl t ↦ rw (lt_trans a b (key x) h t) (rw t (ap (λ ys. x ∷ ys) (behind-behind a b xs h)))
    | inr f ↦ rw f (elim (Bool-cases (ltb_ℤ a (key x))) [
      | inl u ↦ rw u (rw f (behind-behind a b xs h))
      | inr v ↦ rw v (behind-behind a b xs h)
    ])
  ]

  pub select-behind :
      (test : A → Bool) (a : ℤ) (xs : List A)
      → select (λ x. test x && ltb_ℤ a (key x)) xs ≡ behind a (select test xs)
  select-behind test a [] = refl
  select-behind test a (x ∷ xs) = elim (Bool-cases (test x)) [
    | inl t ↦ rw t (ap (λ ys. if ltb_ℤ a (key x) then x ∷ ys else ys) (select-behind test a xs))
    | inr f ↦ rw f (select-behind test a xs)
  ]
