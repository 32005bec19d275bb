-- ===== src/Prelude/Sort.antt =====
-- Python's stable `list.sort(key=…)`, for a Boolean order `le` on the elements. Insertion keeps the
-- order of elements that compare equal, so it gives the one result that a stable sort can give.
use Prim.Native.Nat.{suc}
use mathlib.Core.Path.{◌≡◌, refl, ap, ◌∙◌}
use mathlib.Core.Logic.{inl, inr}
use mathlib.Core.Bool.{Bool, true, false}
use mathlib.Core.List.{List, [], ◌∷◌, Memᴰ}
use mathlib.Core.List.Memᴰ
use compute_connect.Prelude.Lists.{length}
use compute_connect.Prelude.Tests.{if◌then◌else◌, Bool-cases}

module _ {ℓ} {A : Type ℓ} (le : A → A → Bool) where
  unfoldable pub insert_sorted : A → List A → List A
  insert_sorted x [] = x ∷ []
  insert_sorted x (y ∷ ys) = if le x y then x ∷ y ∷ ys else y ∷ insert_sorted x ys

  unfoldable pub sort : List A → List A
  unfolding insert_sorted
  sort [] = []
  sort (x ∷ xs) = insert_sorted x (sort xs)

  mem-insert_sorted : {a : A} (x : A) (ys : List A) → Memᴰ a (x ∷ ys) → Memᴰ a (insert_sorted x ys)
  unfolding insert_sorted
  mem-insert_sorted x [] m = m
  mem-insert_sorted x (y ∷ ys) m = elim (Bool-cases (le x y)) [
    | inl b ↦ rw b m
    | inr b ↦ rw b (elim (Memᴰ.cases_cons m) [
      | inl e ↦ Memᴰ.tail (mem-insert_sorted x ys (Memᴰ.head e))
      | inr k ↦ elim (Memᴰ.cases_cons k) [
        | inl e ↦ Memᴰ.head e
        | inr t ↦ Memᴰ.tail (mem-insert_sorted x ys (Memᴰ.tail t))
      ]
    ])
  ]

  of_mem-insert_sorted :
      {a : A} (x : A) (ys : List A) → Memᴰ a (insert_sorted x ys) → Memᴰ a (x ∷ ys)
  unfolding insert_sorted
  of_mem-insert_sorted x [] m = m
  of_mem-insert_sorted {a} x (y ∷ ys) m = elim (Bool-cases (le x y)) [
    | inl b ↦ rw b at m
    | inr b ↦
        let n : Memᴰ a (y ∷ insert_sorted x ys) = rw b at m in
        elim (Memᴰ.cases_cons n) [
          | inl e ↦ Memᴰ.tail (Memᴰ.head e)
          | inr k ↦ elim (Memᴰ.cases_cons (of_mem-insert_sorted x ys k)) [
            | inl e ↦ Memᴰ.head e
            | inr t ↦ Memᴰ.tail (Memᴰ.tail t)
          ]
        ]
  ]

  pub mem-sort : {a : A} (xs : List A) → Memᴰ a xs → Memᴰ a (sort xs)
  unfolding sort
  mem-sort [] m = m
  mem-sort (x ∷ xs) m =
      mem-insert_sorted x (sort xs)
        (elim (Memᴰ.cases_cons m) [ inl e ↦ Memᴰ.head e | inr t ↦ Memᴰ.tail (mem-sort xs t) ])

  pub of_mem-sort : {a : A} (xs : List A) → Memᴰ a (sort xs) → Memᴰ a xs
  unfolding sort
  of_mem-sort [] m = m
  of_mem-sort (x ∷ xs) m = elim (Memᴰ.cases_cons (of_mem-insert_sorted x (sort xs) m)) [
    | inl e ↦ Memᴰ.head e
    | inr t ↦ Memᴰ.tail (of_mem-sort xs t)
  ]

  -- `le` is a total order up to ties
  pub record IsTotal : Type ℓ where
    pub refl_le : (a : A) → le a a ≡ true
    pub flip : (a b : A) → le a b ≡ false → le b a ≡ true
    pub trans_le : (a b c : A) → le a b ≡ true → le b c ≡ true → le a c ≡ true

  -- the first element is below every other
  abbrev pub HeadIsLeast : List A → Type ℓ
  HeadIsLeast [] = Unit
  HeadIsLeast (x ∷ xs) = (a : A) → Memᴰ a (x ∷ xs) → le x a ≡ true

  HeadIsLeast-insert_sorted :
      IsTotal → (x : A) (ys : List A) → HeadIsLeast ys → HeadIsLeast (insert_sorted x ys)
  unfolding insert_sorted
  HeadIsLeast-insert_sorted t x [] h = λ a m. rw (Memᴰ.eq_of_singleton m) (t.refl_le x)
  HeadIsLeast-insert_sorted t x (y ∷ ys) h = elim (Bool-cases (le x y)) [
    | inl b ↦ rw b λ a m. elim (Memᴰ.cases_cons m) [
      | inl e ↦ rw e (t.refl_le x)
      | inr k ↦ t.trans_le x y a b (h a k)
    ]
    | inr b ↦ rw b λ a m. elim (Memᴰ.cases_cons m) [
      | inl e ↦ rw e (t.refl_le y)
      | inr k ↦ elim (Memᴰ.cases_cons (of_mem-insert_sorted x ys k)) [
        | inl e ↦ rw e (t.flip x y b)
        | inr n ↦ h a (Memᴰ.tail n)
      ]
    ]
  ]

  pub sort-HeadIsLeast : IsTotal → (xs : List A) → HeadIsLeast (sort xs)
  unfolding sort
  sort-HeadIsLeast t [] = tt
  sort-HeadIsLeast t (x ∷ xs) = HeadIsLeast-insert_sorted t x (sort xs) (sort-HeadIsLeast t xs)

  pub sort-ne-nil : (x : A) (xs : List A) → sort (x ∷ xs) ≡ [] → ⊥
  sort-ne-nil x xs e = Memᴰ.not-nil (rw e at (mem-sort (x ∷ xs) (Memᴰ.head refl)))

  length-insert_sorted : (x : A) (ys : List A) → length (insert_sorted x ys) ≡ suc (length ys)
  unfolding insert_sorted
  length-insert_sorted x [] = refl
  length-insert_sorted x (y ∷ ys) = elim (Bool-cases (le x y)) [
    | inl b ↦ rw b
    | inr b ↦ rw b (ap suc (length-insert_sorted x ys))
  ]

  pub length-sort : (xs : List A) → length (sort xs) ≡ length xs
  unfolding sort
  length-sort [] = refl
  length-sort (x ∷ xs) = length-insert_sorted x (sort xs) ∙ ap suc (length-sort xs)
