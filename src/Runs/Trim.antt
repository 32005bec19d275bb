-- ===== src/Runs/Trim.antt =====
-- runs.py, `_trim`: the oldest finished runs go, and active runs stay.
use mathlib.Core.List.Memᴰ
use compute_connect.Prelude.{
  ℕ, zero, suc, ◌-◌, ◌≤◌, ℤ, pos, ◌-ℤ◌, -ℤ_parts, pos_part, String, Bool, true, false, ◌≡◌, refl,
  sym, ap, ◌∙◌, inl, inr, none, some, List, [], ◌∷◌, str_eq, eq_iff, if◌then◌else◌, arith,
  Bool-cases, length, take, Memᴰ,
}
use compute_connect.Dict
use compute_connect.Dict.{Dict, HasDistinctKeys, count_values}
use compute_connect.Runs.Run.{Run, is_terminal}
use compute_connect.Runs.Registry.{finished_ids, remove_all, trim}

-- the same in one pass
unfoldable pub drop_first : ℕ → Dict Run → Dict Run
drop_first zero d = d
drop_first (suc n) [] = []
drop_first (suc n) ((k, r) ∷ d) =
    if is_terminal r.state then drop_first n d else (k, r) ∷ drop_first (suc n) d

absent-finished_ids :
    {k : String} (n : ℕ) (d : Dict Run) → Dict.get d k ≡ none → Memᴰ k (take n (finished_ids d)) → ⊥
unfolding finished_ids Dict.get
absent-finished_ids zero d h m = Memᴰ.not-nil m
absent-finished_ids (suc n) [] h m = Memᴰ.not-nil m
absent-finished_ids {k} (suc n) ((j, r) ∷ d) h m = elim (Bool-cases (str_eq j k)) [
  | inl e ↦ cc (rw e at h)
  | inr e ↦ elim (Bool-cases (is_terminal r.state)) [
    | inl t ↦ elim (Memᴰ.cases_cons (rw t at m)) [
      | inl q ↦ cc (e, (eq_iff j k).1 (sym q))
      | inr i ↦ absent-finished_ids n d (rw e at h) i
    ]
    | inr t ↦ absent-finished_ids (suc n) d (rw e at h) (rw t at m)
  ]
]

remove_all-cons :
    (ks : List String) (k : String) (r : Run) (d : Dict Run)
    → (Memᴰ k ks → ⊥)
    → remove_all ks ((k, r) ∷ d) ≡ (k, r) ∷ remove_all ks d
unfolding remove_all Dict.remove
remove_all-cons [] k r d h = refl
remove_all-cons (j ∷ js) k r d h = elim (Bool-cases (str_eq k j)) [
  | inl e ↦ absurd (h (Memᴰ.head ((eq_iff k j).0 e)))
  | inr e ↦ rw e (remove_all-cons js k r (Dict.remove d j) (λ m. h (Memᴰ.tail m)))
]

remove_all-drop_first :
    (n : ℕ) (d : Dict Run)
    → HasDistinctKeys d
    → remove_all (take n (finished_ids d)) d ≡ drop_first n d
unfolding remove_all finished_ids drop_first Dict.remove
remove_all-drop_first zero d h = refl
remove_all-drop_first (suc n) [] h = refl
remove_all-drop_first (suc n) ((k, r) ∷ d) h = elim (Bool-cases (is_terminal r.state)) [
  | inl t ↦ rw (t, (eq_iff k k).1 refl) (remove_all-drop_first n d h.1)
  | inr t ↦ rw t (
      remove_all-cons (take (suc n) (finished_ids d)) k r d (absent-finished_ids (suc n) d h.0)
      ∙ ap (◌∷◌ (k, r)) (remove_all-drop_first (suc n) d h.1))
]

-- how many finished runs are over the limit
abbrev pub excess : ℤ → Dict Run → ℕ
excess limit d = pos_part (pos (length (finished_ids d)) -ℤ limit)

pub trim-drop_first :
    (limit : ℤ) (d : Dict Run) → HasDistinctKeys d → trim limit d ≡ drop_first (excess limit d) d
unfolding trim
trim-drop_first limit d h = remove_all-drop_first (excess limit d) d h

pub get-drop_first-none :
    (k : String) (n : ℕ) (d : Dict Run) → Dict.get d k ≡ none → Dict.get (drop_first n d) k ≡ none
unfolding drop_first Dict.get
get-drop_first-none k zero d h = h
get-drop_first-none k (suc n) [] h = refl
get-drop_first-none k (suc n) ((j, r) ∷ d) h =
    ground (arith, get-drop_first-none k n d, get-drop_first-none k (suc n) d)

pub drop_first-HasDistinctKeys :
    (n : ℕ) (d : Dict Run) → HasDistinctKeys d → HasDistinctKeys (drop_first n d)
unfolding drop_first
drop_first-HasDistinctKeys zero d h = h
drop_first-HasDistinctKeys (suc n) [] h = tt
drop_first-HasDistinctKeys (suc n) ((k, r) ∷ d) h = elim (Bool-cases (is_terminal r.state)) [
  | inl t ↦ rw t (drop_first-HasDistinctKeys n d h.1)
  | inr t ↦ rw t (get-drop_first-none k (suc n) d h.0, drop_first-HasDistinctKeys (suc n) d h.1)
]

-- a run that is kept is the one that was there
pub of_get-drop_first :
    (k : String) {r : Run} (n : ℕ) (d : Dict Run)
    → HasDistinctKeys d
    → Dict.get (drop_first n d) k ≡ some r
    → Dict.get d k ≡ some r
unfolding drop_first Dict.get
of_get-drop_first k zero d h e = e
of_get-drop_first k (suc n) [] h e = e
of_get-drop_first k {r} (suc n) ((j, q) ∷ d) h e = elim (Bool-cases (is_terminal q.state)) [
  | inl t ↦
      let found : Dict.get d k ≡ some r = of_get-drop_first k n d h.1 (rw t at e) in
      elim (Bool-cases (str_eq j k)) [
        | inl s ↦ cc (found, h.0, ap (Dict.get d) ((eq_iff j k).0 s))
        | inr s ↦ rw s found
      ]
  | inr t ↦ elim (Bool-cases (str_eq j k)) [
    | inl s ↦ rw s (rw (t, s) at e)
    | inr s ↦ rw s (of_get-drop_first k (suc n) d h.1 (rw (t, s) at e))
  ]
]

-- an active run is kept
pub get-drop_first_active :
    (k : String) {r : Run} (n : ℕ) (d : Dict Run)
    → Dict.get d k ≡ some r
    → is_terminal r.state ≡ false
    → Dict.get (drop_first n d) k ≡ some r
unfolding drop_first Dict.get
get-drop_first_active k zero d e a = e
get-drop_first_active k (suc n) [] e a = e
get-drop_first_active k {r} (suc n) ((j, q) ∷ d) e a =
    ground (arith, get-drop_first_active k {r = r} n d, get-drop_first_active k {r = r} (suc n) d)

-- counts of active runs do not change
pub count_values-drop_first :
    (p : Run → Bool)
    → ((r : Run) → is_terminal r.state ≡ true → p r ≡ false)
    → (n : ℕ) (d : Dict Run) → count_values p (drop_first n d) ≡ count_values p d
unfolding drop_first
count_values-drop_first p h zero d = refl
count_values-drop_first p h (suc n) [] = refl
count_values-drop_first p h (suc n) ((k, r) ∷ d) =
    ground (arith, h r, count_values-drop_first p h n d, count_values-drop_first p h (suc n) d)

pub length-finished_ids-drop_first :
    (n : ℕ) (d : Dict Run) → length (finished_ids (drop_first n d)) ≡ length (finished_ids d) - n
unfolding drop_first finished_ids
length-finished_ids-drop_first zero d = omega arith
length-finished_ids-drop_first (suc n) [] = omega arith
length-finished_ids-drop_first (suc n) ((k, r) ∷ d) =
    ground (arith, length-finished_ids-drop_first n d, length-finished_ids-drop_first (suc n) d)

-- After a trim there are at most as many finished runs as the limit.
pub trim-le_limit :
    (limit : ℤ) (d : Dict Run)
    → HasDistinctKeys d
    → length (finished_ids (trim limit d)) ≤ pos_part limit
trim-le_limit limit d h = rw (trim-drop_first limit d h) (
    omega (
      arith,
      length-finished_ids-drop_first (excess limit d) d,
      -ℤ_parts (pos (length (finished_ids d))) limit,
    ))
