-- ===== src/Runs/Invariant.antt =====
-- runs.py, `RunRegistry`: what every method keeps, with and without a journal.

use compute_connect.Prelude.{
  ℤ, String, true, false, ◌≡◌, refl, sym, ap, ◌∙◌, ◌⊎◌, inl, inr, Option, none, some, str_eq,
  eq_iff, arith, Bool-cases, Option-cases,
}
use compute_connect.Json.{Value}
use compute_connect.Dict
use compute_connect.Dict.{
  Dict, HasDistinctKeys, get-put, get-modify, get-reinsert, reinsert-HasDistinctKeys,
  put-HasDistinctKeys, modify-HasDistinctKeys,
}
use compute_connect.Runs.Run.{Run, RunState, Surface, is_terminal, new_run}
use compute_connect.Runs.Journal.{Journal, row_of, record_run}
use compute_connect.Runs.Registry.{
  Registry, create, cancel, finish, load_from, request_cancel, close_run, journal_run, trim,
}
use compute_connect.Runs.Trim.{
  trim-drop_first, excess, drop_first-HasDistinctKeys, of_get-drop_first,
}

-- the table has the row of each run in memory
pub record Mirrors (j : Journal) (d : Dict Run) : Type 0 where
  pub keys : HasDistinctKeys j
  pub rows : (k : String) (r : Run) → Dict.get d k ≡ some r → Dict.get j k ≡ some (row_of r)

pub record IsConsistent (reg : Registry) : Type 0 where
  pub distinct : HasDistinctKeys reg.runs
  pub named : (k : String) (r : Run) → Dict.get reg.runs k ≡ some r → r.id ≡ k
  pub mirrored : (j : Journal) → reg.journal ≡ some j → Mirrors j reg.runs

-- one change of the runs, followed by the journal entry of the changed run
Mirrors-record_run :
    {j : Journal} {d e : Dict Run} (r : Run)
    → Mirrors j d
    → ((k : String) (q : Run)
        → Dict.get e k ≡ some q
        → ((str_eq r.id k ≡ true) × (q ≡ r)) ⊎ ((str_eq r.id k ≡ false) × (Dict.get d k ≡ some q)))
    → Mirrors (record_run j r) e
unfolding record_run
Mirrors-record_run {j} r m h = record {
  keys = reinsert-HasDistinctKeys j r.id (row_of r) m.keys;
  rows = λ k q e. elim (h k q e) [
    | inl (s, p) ↦ get-reinsert j r.id k (row_of r) m.keys ∙ rw (s, p)
    | inr (s, p) ↦ get-reinsert j r.id k (row_of r) m.keys ∙ rw s (m.rows k q p)
  ];
}

trimmed :
    (limit : ℤ) (d : Dict Run) (k : String) (r : Run)
    → HasDistinctKeys d
    → Dict.get (trim limit d) k ≡ some r
    → Dict.get d k ≡ some r
trimmed limit d k r h e =
    of_get-drop_first k (excess limit d) d h (rw (trim-drop_first limit d h) at e)

trim-HasDistinctKeys :
    (limit : ℤ) (d : Dict Run) → HasDistinctKeys d → HasDistinctKeys (trim limit d)
trim-HasDistinctKeys limit d h =
    rw (trim-drop_first limit d h) (drop_first-HasDistinctKeys (excess limit d) d h)

-- a key of the dict after `put`
put_cases :
    (d : Dict Run) (i k : String) (r q : Run)
    → Dict.get (Dict.put d i r) k ≡ some q
    → ((str_eq i k ≡ true) × (q ≡ r)) ⊎ ((str_eq i k ≡ false) × (Dict.get d k ≡ some q))
put_cases d i k r q e = elim (Bool-cases (str_eq i k)) [
  | inl s ↦ inl (s, cc (rw s at (sym (get-put d i k r) ∙ e)))
  | inr s ↦ inr (s, rw s at (sym (get-put d i k r) ∙ e))
]

journal-cases :
    (j : Option Journal) (r : Run) {j' : Journal}
    → journal_run j r ≡ some j'
    → (i : Journal) × (j ≡ some i) × (j' ≡ record_run i r)
unfolding journal_run
journal-cases none r e = cc
journal-cases (some i) r e = (i, refl, cc)

-- Creating a run keeps the registry and the journal consistent, whatever its id.
pub create-IsConsistent :
    (reg : Registry) (fresh : String) (now : ℤ) (provider_id : String) (model : Option String)
    (surface : Surface)
    → IsConsistent reg
    → IsConsistent (create reg fresh now provider_id model surface).0
unfolding create
create-IsConsistent reg fresh now provider_id model surface c =
    let run = new_run fresh provider_id model surface now in
    let d = Dict.put reg.runs fresh run in
    let distinct = put-HasDistinctKeys reg.runs fresh run c.distinct in
    record {
      distinct = trim-HasDistinctKeys reg.history_limit d distinct;
      named = λ k r e.
          elim (put_cases reg.runs fresh k run r (trimmed reg.history_limit d k r distinct e)) [
            | inl (s, p) ↦ ap (λ (r : Run). r.id) p ∙ (eq_iff fresh k).0 s
            | inr (s, p) ↦ c.named k r p
          ];
      mirrored = λ j e.
          let (i, q, p) = journal-cases reg.journal run e in
          rw p (
            Mirrors-record_run run (c.mirrored i q) (λ k r f.
              put_cases reg.runs fresh k run r (trimmed reg.history_limit d k r distinct f)));
    }

module _ (d : Dict Run) (i k : String) (f : Run → Run) {q : Run} where
  modify_cases :
      Dict.get (Dict.modify d i f) k ≡ some q
      → ((str_eq i k ≡ true) × (r : Run) × (Dict.get d k ≡ some r) × (q ≡ f r))
        ⊎ ((str_eq i k ≡ false) × (Dict.get d k ≡ some q))
  modify_cases e = elim (Bool-cases (str_eq i k)) [
    | inl s ↦ elim (Option-cases (Dict.get d k)) [
      | inl a ↦ cc (rw (get-modify d i k f, s, a) at e)
      | inr (r, a) ↦ inl (s, r, a, cc (rw (get-modify d i k f, s, a) at e))
    ]
    | inr s ↦ inr (s, rw (get-modify d i k f, s) at e)
  ]

abbrev closed : Registry → String → RunState → ℤ → Dict Value → Run → Registry
closed reg run_id state now metrics run = record reg {
  runs = Dict.modify reg.runs run_id (close_run state now metrics);
  journal = journal_run reg.journal (close_run state now metrics run);
}

-- `finish` changes an active run, and nothing otherwise
pub finish_cases :
    (reg : Registry) (run_id : String) (state : RunState) (now : ℤ) (metrics : Dict Value)
    → ((run : Run) × (Dict.get reg.runs run_id ≡ some run)
        × (is_terminal run.state ≡ false)
        × (finish reg run_id state now metrics ≡ closed reg run_id state now metrics run))
      ⊎ (((run : Run) → Dict.get reg.runs run_id ≡ some run → is_terminal run.state ≡ true)
          × (finish reg run_id state now metrics ≡ reg))
unfolding finish
finish_cases reg run_id state now metrics = elim (Option-cases (Dict.get reg.runs run_id)) [
  | inl e ↦ inr (λ run f. cc, rw (e, finish))
  | inr (run, e) ↦ elim (Bool-cases (is_terminal run.state)) [
    | inl t ↦ inr (λ r f. ground arith, rw (e, finish, t))
    | inr t ↦ inl (run, e, t, rw (e, finish, t))
  ]
]

-- Finishing a run keeps the registry and the journal consistent.
pub finish-IsConsistent :
    (reg : Registry) (run_id : String) (state : RunState) (now : ℤ) (metrics : Dict Value)
    → IsConsistent reg
    → IsConsistent (finish reg run_id state now metrics)
finish-IsConsistent reg run_id state now metrics c =
    let close = close_run state now metrics in
    elim (finish_cases reg run_id state now metrics) [
      | inr (_, e) ↦ rw e c
      | inl (run, found, _, e) ↦ rw e (record {
        distinct = modify-HasDistinctKeys reg.runs run_id close c.distinct;
        named = λ k r f. elim (modify_cases reg.runs run_id k close f) [
          | inl (_, q, g, p) ↦ ap (λ (r : Run). r.id) p ∙ c.named k q g
          | inr (_, g) ↦ c.named k r g
        ];
        mirrored = λ j f.
            let (i, g, p) = journal-cases reg.journal (close run) f in
            let same = c.named run_id run found in
            rw p (
              Mirrors-record_run (close run) (c.mirrored i g) λ k r h.
                elim (modify_cases reg.runs run_id k close h) [
                  | inl (s, q, g, p) ↦
                      let here : q ≡ run =
                        cc (g, found, ap (Dict.get reg.runs) ((eq_iff run_id k).0 s)) in
                      inl (ap (λ i. str_eq i k) same ∙ s, p ∙ ap close here)
                  | inr (s, g) ↦ inr (ap (λ i. str_eq i k) same ∙ s, g)
                ]);
      })
    ]

-- `cancel` marks an active run, and nothing otherwise
pub cancel_cases :
    (reg : Registry) (run_id : String)
    → ((run : Run) × (Dict.get reg.runs run_id ≡ some run)
        × (is_terminal run.state ≡ false)
        × ((cancel reg run_id).0
            ≡ record reg { runs = Dict.modify reg.runs run_id request_cancel }))
      ⊎ ((cancel reg run_id).0 ≡ reg)
unfolding cancel load_from
cancel_cases reg run_id = elim (Option-cases (Dict.get reg.runs run_id)) [
  | inl e ↦ inr (elim (Option-cases (load_from reg.journal run_id)) [
    | inl n ↦ rw (e, cancel, n)
    | inr (r, n) ↦ rw (e, cancel, n)
  ])
  | inr (run, e) ↦ elim (Bool-cases (is_terminal run.state)) [
    | inl t ↦ inr (rw (e, cancel, t))
    | inr t ↦ inl (run, e, t, rw (e, cancel, t))
  ]
]

-- Requesting a cancellation keeps the registry and the journal consistent.
pub cancel-IsConsistent :
    (reg : Registry) (run_id : String) → IsConsistent reg → IsConsistent (cancel reg run_id).0
cancel-IsConsistent reg run_id c = elim (cancel_cases reg run_id) [
  | inr e ↦ rw e c
  | inl (_, _, _, e) ↦ rw e (record {
    distinct = modify-HasDistinctKeys reg.runs run_id request_cancel c.distinct;
    named = λ k r f. elim (modify_cases reg.runs run_id k request_cancel f) [
      | inl (_, q, g, p) ↦ ap (λ (r : Run). r.id) p ∙ c.named k q g
      | inr (_, g) ↦ c.named k r g
    ];
    mirrored = λ j f.
        let m = c.mirrored j f in
        record {
          keys = m.keys;
          rows = λ k r h. elim (modify_cases reg.runs run_id k request_cancel h) [
            | inl (_, q, g, p) ↦ m.rows k q g ∙ ap (λ r. some (row_of r)) (sym p)
            | inr (_, g) ↦ m.rows k r g
          ];
        };
  })
]
