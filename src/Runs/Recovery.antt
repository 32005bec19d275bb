-- ===== src/Runs/Recovery.antt =====
-- runs.py, `RunJournal.reconcile` and the restart of a registry on a journal.
use mathlib.Core.Option
use mathlib.Core.List.Memᴰ
use compute_connect.Prelude.{
  ℤ, String, false, ◌≡◌, refl, sym, ap, ◌∙◌, ◌↔◌, inl, inr, none, some, List, [], ◌∷◌, str_eq,
  eq_iff, arith, Bool-cases, Memᴰ,
}
use compute_connect.Dict
use compute_connect.Dict.{HasDistinctKeys, ne_of_get}
use compute_connect.Runs.Run.{is_terminal}
use compute_connect.Runs.Journal.{
  Journal, Row, interrupt, update_orphans, orphans, reconcile_found, reconcile,
}

get-update_orphans :
    (now : ℤ) (j : Journal) (k : String)
    → Dict.get (update_orphans now j) k ≡ Option.map (interrupt now) (Dict.get j k)
unfolding Dict.get update_orphans
get-update_orphans now [] k = refl
get-update_orphans now ((i, row) ∷ rows) k = elim (Bool-cases (str_eq i k)) [
  | inl e ↦ rw e
  | inr e ↦ rw e (get-update_orphans now rows k)
]

no_orphans : (now : ℤ) (j : Journal) → orphans j ≡ [] → update_orphans now j ≡ j
unfolding orphans update_orphans
no_orphans now [] e = refl
no_orphans now ((i, row) ∷ rows) e = elim (Bool-cases (is_terminal row.state)) [
  | inl t ↦ rw t (ap (◌∷◌ (i, row)) (no_orphans now rows (rw t at e)))
  | inr t ↦ cc (rw t at e)
]

reconcile-eq : (j : Journal) (now : ℤ) → reconcile j now ≡ (update_orphans now j, orphans j)
unfolding reconcile reconcile_found
reconcile-eq j now = go (orphans j) refl
  where
    go : (ks : List String) → orphans j ≡ ks → reconcile_found now j ks ≡ (update_orphans now j, ks)
    go [] e = λ i. (sym (no_orphans now j e) i, [])
    go (k ∷ ks) e = refl

-- Reconciliation keeps every row; a terminal row is unchanged, and any other becomes interrupted and
-- finished now.
pub get-reconcile :
    (j : Journal) (now : ℤ) (k : String)
    → Dict.get (reconcile j now).0 k ≡ Option.map (interrupt now) (Dict.get j k)
get-reconcile j now k = ap (λ r. Dict.get r.0 k) (reconcile-eq j now) ∙ get-update_orphans now j k

mem-orphans :
    (k : String) (j : Journal)
    → HasDistinctKeys j
    → Memᴰ k (orphans j)
      ↔ ((row : Row) × (Dict.get j k ≡ some row) × (is_terminal row.state ≡ false))
unfolding orphans Dict.get
mem-orphans k [] h = (λ m. absurd (Memᴰ.not-nil m), λ (row, e, t). cc)
mem-orphans k ((i, row) ∷ rows) h =
    let ih = mem-orphans k rows h.1 in
    (
      λ m. elim (Bool-cases (is_terminal row.state)) [
        | inl t ↦ let (r, e, u) = ih.0 (rw t at m) in (r, rw (ne_of_get rows i k h.0 e) e, u)
        | inr t ↦ elim (Memᴰ.cases_cons (rw t at m)) [
          | inl q ↦ (row, rw ((eq_iff i k).1 (sym q)), t)
          | inr n ↦ let (r, e, u) = ih.0 n in (r, rw (ne_of_get rows i k h.0 e) e, u)
        ]
      ],
      λ (r, e, u). elim (Bool-cases (str_eq i k)) [
        | inl q ↦
            let found : some row ≡ some r = rw q at e in
            let live : is_terminal row.state ≡ false = cc in
            rw live (Memᴰ.head (sym ((eq_iff i k).0 q)))
        | inr q ↦ elim (Bool-cases (is_terminal row.state)) [
          | inl t ↦ rw t (ih.1 (r, rw q at e, u))
          | inr t ↦ rw t (Memᴰ.tail (ih.1 (r, rw q at e, u)))
        ]
      ],
    )

-- Where the keys are distinct, the ids that reconciliation returns are those of the rows that were
-- not terminal.
pub mem-reconcile :
    (j : Journal) (now : ℤ) (k : String)
    → HasDistinctKeys j
    → Memᴰ k (reconcile j now).1
      ↔ ((row : Row) × (Dict.get j k ≡ some row) × (is_terminal row.state ≡ false))
mem-reconcile j now k h = rw (reconcile-eq j now) (mem-orphans k j h)

orphans-update_orphans : (now : ℤ) (j : Journal) → orphans (update_orphans now j) ≡ []
unfolding orphans update_orphans
orphans-update_orphans now [] = refl
orphans-update_orphans now ((i, row) ∷ rows) = ground (arith, orphans-update_orphans now rows)

reconcile_nothing : (j : Journal) (now : ℤ) → orphans j ≡ [] → reconcile j now ≡ (j, [])
unfolding reconcile reconcile_found
reconcile_nothing j now e = rw e

-- A second reconciliation finds nothing and changes nothing.
pub reconcile_idem :
    (j : Journal) (now later : ℤ) → reconcile (reconcile j now).0 later ≡ ((reconcile j now).0, [])
reconcile_idem j now later =
    let once = ap (λ r. r.0) (reconcile-eq j now) in
    reconcile_nothing (reconcile j now).0 later (ap orphans once ∙ orphans-update_orphans now j)

none-update_orphans :
    (now : ℤ) (j : Journal) (k : String)
    → Dict.get j k ≡ none
    → Dict.get (update_orphans now j) k ≡ none
none-update_orphans now j k e = get-update_orphans now j k ∙ ap (Option.map (interrupt now)) e

update_orphans-HasDistinctKeys :
    (now : ℤ) (j : Journal) → HasDistinctKeys j → HasDistinctKeys (update_orphans now j)
unfolding update_orphans
update_orphans-HasDistinctKeys now [] h = tt
update_orphans-HasDistinctKeys now ((k, row) ∷ rows) h =
    (none-update_orphans now rows k h.0, update_orphans-HasDistinctKeys now rows h.1)

pub reconcile-HasDistinctKeys :
    (j : Journal) (now : ℤ) → HasDistinctKeys j → HasDistinctKeys (reconcile j now).0
reconcile-HasDistinctKeys j now h = rw (reconcile-eq j now) (update_orphans-HasDistinctKeys now j h)
