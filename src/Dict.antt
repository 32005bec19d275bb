-- ===== src/Dict.antt =====
-- Python's insertion-ordered `dict` (and `OrderedDict`) with text keys, as an association list.
use mathlib.Core.Option
use compute_connect.Prelude.{
  ◌++◌, eq_refl, String, Bool, true, false, ◌≡◌, refl, ap, ◌∙◌, inl, inr, Option, none, some, List,
  [], ◌∷◌, str_eq, eq_iff, eq_refl, if◌then◌else◌, arith, Bool-cases, ℕ, suc, ◌+◌,
}

abbrev pub Dict {ℓ} : Type ℓ → Type ℓ
Dict V = List (String × V)

abbrev pub one_if : Bool → ℕ
one_if true = 1
one_if false = 0

module _ {ℓ} {V : Type ℓ} where
  -- `d.get(k)`
  unfoldable pub get : Dict V → String → Option V
  get [] k = none
  get ((j, v) ∷ d) k = if str_eq j k then some v else get d k

  -- `d[k] = v`: in place where the key is there, and at the end where it is new
  unfoldable pub put : Dict V → String → V → Dict V
  put [] k v = (k, v) ∷ []
  put ((j, w) ∷ d) k v = if str_eq j k then (j, v) ∷ d else (j, w) ∷ put d k v

  -- a change of the object that is stored under a key
  unfoldable pub modify : Dict V → String → (V → V) → Dict V
  modify [] k f = []
  modify ((j, v) ∷ d) k f = if str_eq j k then (j, f v) ∷ d else (j, v) ∷ modify d k f

  -- `d.pop(k, None)`
  unfoldable pub remove : Dict V → String → Dict V
  remove [] k = []
  remove ((j, v) ∷ d) k = if str_eq j k then d else (j, v) ∷ remove d k

  -- the keys are distinct, as those of a dict are
  abbrev pub HasDistinctKeys : Dict V → Type ℓ
  HasDistinctKeys [] = Unit
  HasDistinctKeys ((k, v) ∷ d) = (get d k ≡ none) × HasDistinctKeys d

  pub get-put :
      (d : Dict V) (k j : String) (new : V)
      → get (put d k new) j ≡ (if str_eq k j then some new else get d j)
  unfolding get put
  get-put [] k j v = refl
  get-put ((i, w) ∷ d) k j v = ground (arith, eq_iff k j, eq_iff i k, eq_iff i j, get-put d k j v)

  pub get-modify :
      (d : Dict V) (k j : String) (f : V → V)
      → get (modify d k f) j ≡ (if str_eq k j then Option.map f (get d j) else get d j)
  unfolding get modify
  get-modify [] k j f = ground arith
  get-modify ((i, w) ∷ d) k j f =
      ground (arith, eq_iff k j, eq_iff i k, eq_iff i j, get-modify d k j f)

  -- keys of which one is there and the other is not
  pub ne_of_get :
      {v : V} (d : Dict V) (i k : String) → get d i ≡ none → get d k ≡ some v → str_eq i k ≡ false
  ne_of_get d i k h e = elim (Bool-cases (str_eq i k)) [
    | inl q ↦ cc (h, e, ap (get d) ((eq_iff i k).0 q))
    | inr q ↦ q
  ]

  pub put-HasDistinctKeys :
      (d : Dict V) (k : String) (v : V) → HasDistinctKeys d → HasDistinctKeys (put d k v)
  unfolding put get
  put-HasDistinctKeys [] k v h = (refl, tt)
  put-HasDistinctKeys ((j, w) ∷ d) k v h = elim (Bool-cases (str_eq j k)) [
    | inl e ↦ rw e h
    | inr e ↦ rw e (
      ground (arith, get-put d k j v, eq_iff k j, eq_iff j k, h.0),
      put-HasDistinctKeys d k v h.1,
    )
  ]

  pub modify-HasDistinctKeys :
      (d : Dict V) (k : String) (f : V → V) → HasDistinctKeys d → HasDistinctKeys (modify d k f)
  unfolding modify get
  modify-HasDistinctKeys [] k f h = tt
  modify-HasDistinctKeys ((j, w) ∷ d) k f h = elim (Bool-cases (str_eq j k)) [
    | inl e ↦ rw e h
    | inr e ↦ rw e (
      ground (arith, get-modify d k j f, eq_iff k j, eq_iff j k, h.0),
      modify-HasDistinctKeys d k f h.1,
    )
  ]

  -- how many values satisfy a test
  abbrev pub count_values : (V → Bool) → Dict V → ℕ
  count_values p [] = 0
  count_values p ((k, v) ∷ d) = if p v then suc (count_values p d) else count_values p d

  pub count_values-put :
      (p : V → Bool) (d : Dict V) (k : String) (v : V)
      → get d k ≡ none
      → count_values p (put d k v) ≡ count_values p d + one_if (p v)
  unfolding put get
  count_values-put p [] k v h = ground arith
  count_values-put p ((j, w) ∷ d) k v h = ground (arith, count_values-put p d k v)

  pub count_values-modify :
      (p : V → Bool) (d : Dict V) (k : String) (f : V → V) (v : V)
      → get d k ≡ some v
      → count_values p (modify d k f) + one_if (p v) ≡ count_values p d + one_if (p (f v))
  unfolding modify get
  count_values-modify p [] k f v h = cc
  count_values-modify p ((j, w) ∷ d) k f v h = ground (arith, count_values-modify p d k f v)

module _ {ℓ} {V : Type ℓ} where
  -- the key last, with a new value: a row that SQLite replaces is deleted and inserted
  unfoldable pub reinsert : Dict V → String → V → Dict V
  reinsert d k v = remove d k ++ (k, v) ∷ []

  get-remove_absent : (d : Dict V) (k j : String) → get d j ≡ none → get (remove d k) j ≡ none
  unfolding get remove
  get-remove_absent [] k j h = refl
  get-remove_absent ((i, w) ∷ d) k j h = ground (arith, get-remove_absent d k j)

  pub get-remove :
      (d : Dict V) (k j : String)
      → HasDistinctKeys d
      → get (remove d k) j ≡ (if str_eq k j then none else get d j)
  unfolding get remove
  get-remove [] k j h = ground arith
  get-remove ((i, w) ∷ d) k j h =
      ground (arith, eq_iff k j, eq_iff i k, eq_iff i j, get-remove d k j h.1, h.0)

  remove-HasDistinctKeys :
      (d : Dict V) (k : String) → HasDistinctKeys d → HasDistinctKeys (remove d k)
  unfolding remove
  remove-HasDistinctKeys [] k h = tt
  remove-HasDistinctKeys ((i, w) ∷ d) k h = elim (Bool-cases (str_eq i k)) [
    | inl e ↦ rw e h.1
    | inr e ↦ rw e (get-remove_absent d k i h.0, remove-HasDistinctKeys d k h.1)
  ]

  get-append_one :
      (d : Dict V) (k j : String) (v : V)
      → get d k ≡ none
      → get (d ++ (k, v) ∷ []) j ≡ (if str_eq k j then some v else get d j)
  unfolding get
  get-append_one [] k j v h = refl
  get-append_one ((i, w) ∷ d) k j v h =
      ground (arith, eq_iff k j, eq_iff i k, eq_iff i j, get-append_one d k j v)

  append_one-HasDistinctKeys :
      (d : Dict V) (k : String) (v : V)
      → get d k ≡ none
      → HasDistinctKeys d
      → HasDistinctKeys (d ++ (k, v) ∷ [])
  unfolding get
  append_one-HasDistinctKeys [] k v a h = (refl, tt)
  append_one-HasDistinctKeys ((i, w) ∷ d) k v a h = elim (Bool-cases (str_eq i k)) [
    | inl e ↦ cc (rw e at a)
    | inr e ↦
        let b : get d k ≡ none = rw e at a in
        (
          ground (arith, get-append_one d k i v b, eq_iff k i, eq_iff i k, h.0),
          append_one-HasDistinctKeys d k v b h.1,
        )
  ]

  removed : (d : Dict V) (k : String) → HasDistinctKeys d → get (remove d k) k ≡ none
  removed d k h = get-remove d k k h ∙ rw (eq_refl k)

  pub get-reinsert :
      (d : Dict V) (k j : String) (v : V)
      → HasDistinctKeys d
      → get (reinsert d k v) j ≡ (if str_eq k j then some v else get d j)
  unfolding reinsert
  get-reinsert d k j v h =
      ground (arith, get-append_one (remove d k) k j v (removed d k h), get-remove d k j h)

  pub reinsert-HasDistinctKeys :
      (d : Dict V) (k : String) (v : V) → HasDistinctKeys d → HasDistinctKeys (reinsert d k v)
  unfolding reinsert
  reinsert-HasDistinctKeys d k v h =
      append_one-HasDistinctKeys (remove d k) k v (removed d k h) (remove-HasDistinctKeys d k h)
