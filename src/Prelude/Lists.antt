-- ===== src/Prelude/Lists.antt =====
-- Lists with native lengths, Boolean quantifiers and selections, and membership.
use Prim.Native.Nat.{ℕ, zero, suc, ◌+◌}
use mathlib.Core.Path.{◌≡◌, refl}
use mathlib.Core.Logic.{◌↔◌, inl, inr}
use mathlib.Core.Bool.{Bool, true, false, ◌&&◌, ◌||◌}
use mathlib.Core.List.{List, [], ◌∷◌, ◌++◌, Memᴰ}
use mathlib.Core.List.Memᴰ
use native.Mathlib.Omega.{arith}
use compute_connect.Prelude.Tests.{if◌then◌else◌, Bool-cases}

module _ {ℓ} {A : Type ℓ} where
  abbrev pub length : List A → ℕ
  length [] = 0
  length (x ∷ xs) = suc (length xs)

  -- `xs[:n]` for a number that is not negative
  abbrev pub take : ℕ → List A → List A
  take zero xs = []
  take (suc n) [] = []
  take (suc n) (x ∷ xs) = x ∷ take n xs

  -- `any(p(x) for x in xs)`, `all(…)`
  abbrev pub any : (A → Bool) → List A → Bool
  any p [] = false
  any p (x ∷ xs) = p x || any p xs

  abbrev pub all : (A → Bool) → List A → Bool
  all p [] = true
  all p (x ∷ xs) = p x && all p xs

  -- `[x for x in xs if p(x)]`
  abbrev pub select : (A → Bool) → List A → List A
  select p [] = []
  select p (x ∷ xs) = if p x then x ∷ select p xs else select p xs

  -- `sum(1 for x in xs if p(x))`
  abbrev pub count_if : (A → Bool) → List A → ℕ
  count_if p [] = 0
  count_if p (x ∷ xs) = if p x then suc (count_if p xs) else count_if p xs

  pub mem-select_of :
      {a : A} (p : A → Bool) (xs : List A) → Memᴰ a xs → p a ≡ true → Memᴰ a (select p xs)
  mem-select_of p [] m h = elim m [ ]
  mem-select_of {a} p (x ∷ xs) (Memᴰ.head e) h =
      let k : p x ≡ true = rw (← e) h in rw k (Memᴰ.head e)
  mem-select_of p (x ∷ xs) (Memᴰ.tail m) h = elim (Bool-cases (p x)) [
    | inl k ↦ rw k (Memᴰ.tail (mem-select_of p xs m h))
    | inr k ↦ rw k (mem-select_of p xs m h)
  ]

  pub empty_of_no_mem : (xs : List A) → ((a : A) → Memᴰ a xs → ⊥) → xs ≡ []
  empty_of_no_mem [] h = refl
  empty_of_no_mem (x ∷ xs) h = absurd (h x (Memᴰ.head refl))

  pub of_mem-select :
      {a : A} (p : A → Bool) (xs : List A) → Memᴰ a (select p xs) → Memᴰ a xs × (p a ≡ true)
  of_mem-select p [] m = elim m [ ]
  of_mem-select {a} p (x ∷ xs) m = elim (Bool-cases (p x)) [
    | inl k ↦ elim (Memᴰ.cases_cons (rw k at m)) [
      | inl e ↦ (Memᴰ.head e, rw e k)
      | inr t ↦ let r = of_mem-select p xs t in (Memᴰ.tail r.0, r.1)
    ]
    | inr k ↦ let r = of_mem-select p xs (rw k at m) in (Memᴰ.tail r.0, r.1)
  ]

  pub select-eq-nil_iff :
      (p : A → Bool) (xs : List A) → (select p xs ≡ []) ↔ ((a : A) → Memᴰ a xs → p a ≡ false)
  select-eq-nil_iff p xs = (
    λ e a m. elim (Bool-cases (p a)) [
      | inl t ↦ absurd (Memᴰ.not-nil (rw e at (mem-select_of p xs m t)))
      | inr f ↦ f
    ],
    λ h. empty_of_no_mem (select p xs) (λ a m. let (n, t) = of_mem-select p xs m in cc (t, h a n)),
  )

  pub any_of_mem : {a : A} (p : A → Bool) (xs : List A) → Memᴰ a xs → p a ≡ true → any p xs ≡ true
  any_of_mem p [] m h = elim m [ ]
  any_of_mem {a} p (x ∷ xs) (Memᴰ.head e) h = let k : p x ≡ true = rw (← e) h in rw k
  any_of_mem p (x ∷ xs) (Memᴰ.tail m) h = ground (arith, any_of_mem p xs m h)

  pub mem_of_any :
      (p : A → Bool) (xs : List A) → any p xs ≡ true → (a : A) × Memᴰ a xs × (p a ≡ true)
  mem_of_any p [] h = cc
  mem_of_any p (x ∷ xs) h = elim (Bool-cases (p x)) [
    | inl k ↦ (x, Memᴰ.head refl, k)
    | inr k ↦ let (a, m, e) = mem_of_any p xs (rw k at h) in (a, Memᴰ.tail m, e)
  ]

  pub not_mem_of_nil : {a : A} {xs : List A} → xs ≡ [] → ¬ Memᴰ a xs
  not_mem_of_nil {a} e m = Memᴰ.not-nil (rw e at m)

  pub length-append : (xs ys : List A) → length (xs ++ ys) ≡ length xs + length ys
  length-append [] ys = omega arith
  length-append (x ∷ xs) ys = omega (arith, length-append xs ys)

-- Two lists with the same members, in any order and however often.
pub record SameMembers {ℓ} {A : Type ℓ} (xs ys : List A) : Type ℓ where
  pub forth : (a : A) → Memᴰ a xs → Memᴰ a ys
  pub back : (a : A) → Memᴰ a ys → Memᴰ a xs
