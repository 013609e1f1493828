-- ===== src/Handoff/Chosen.antt =====
-- internal/assignment/assignment.go: what is known of the salesperson who is chosen.
use lead.Prelude.{
  ℕ, ◌≤◌, ◌≡◌, refl, subst, ◌⊎◌, inl, inr, Bool, true, false, List, [], ◌∷◌, arith, if◌then◌else◌,
  nat_eq, Result, ok, err, All, All-mono, Bool-cases, sort_by, All-sort_by, sort_by-All, insert_by,
  All-insert_by,
}
use lead.Handoff.Store.{Salesperson, Temperature, Fake, count_open_tasks}
use lead.Handoff.Assignment.{Candidate, goes_first, is_full, candidates, first_of, select}

-- The first has no more open tasks than any other.
abbrev Least : List Candidate → Type 0
Least [] = Unit
Least (c ∷ cs) = All (λ d. c.open_tasks ≤ d.open_tasks) cs

goes_first-le :
    (t : Temperature) (a b : Candidate) → goes_first t a b ≡ true → a.open_tasks ≤ b.open_tasks
unfolding goes_first
goes_first-le t a b h = ground arith

goes_first-ge :
    (t : Temperature) (a b : Candidate) → goes_first t a b ≡ false → b.open_tasks ≤ a.open_tasks
unfolding goes_first
goes_first-ge t a b h = ground arith

module _ (t : Temperature) where
  insert_by-Least :
      (c : Candidate) (cs : List Candidate) → Least cs → Least (insert_by (goes_first t) c cs)
  insert_by-Least c [] h = tt
  insert_by-Least c (d ∷ ds) h = elim (Bool-cases (goes_first t d c)) [
    | inl e ↦ rw e (
        All-insert_by (goes_first t) (λ x. d.open_tasks ≤ x.open_tasks) c ds (goes_first-le t d c e)
          h)
    | inr e ↦
        let first = goes_first-ge t d c e in
        rw e (
          first,
          All-mono (λ x. d.open_tasks ≤ x.open_tasks) (λ x. c.open_tasks ≤ x.open_tasks)
              (λ x k. omega (arith, first, k)) ds h,
        )
  ]

  sort_by-Least : (cs : List Candidate) → Least (sort_by (goes_first t) cs)
  unfolding sort_by
  sort_by-Least [] = tt
  sort_by-Least (c ∷ cs) = insert_by-Least c (sort_by (goes_first t) cs) (sort_by-Least cs)

module _ (f : Fake) where
  abbrev pub load : Salesperson → ℕ
  load r = count_open_tasks r.id f

  abbrev pub IsFull : Salesperson → Type 0
  IsFull r = is_full r.max_open_tasks (load r) ≡ true

  -- The salesperson is on the list.
  abbrev pub Among : Salesperson → List Salesperson → Type 0
  Among r [] = ⊥
  Among r (s ∷ rs) = (r ≡ s) ⊎ Among r rs

  -- What a candidate stands for.
  abbrev Stands : List Salesperson → Candidate → Type 0
  Stands reps c =
      Among c.rep reps
      × (c.open_tasks ≡ load c.rep)
      × (is_full c.rep.max_open_tasks c.open_tasks ≡ false)

  candidates-Stands : (reps : List Salesperson) → All (Stands reps) (candidates reps f)
  unfolding candidates
  candidates-Stands [] = tt
  candidates-Stands (r ∷ rs) =
      let later =
        All-mono (Stands rs) (Stands (r ∷ rs)) (λ c h. (inr h.0, h.1, h.2)) (candidates rs f)
          (candidates-Stands rs) in
      elim (Bool-cases (is_full r.max_open_tasks (load r))) [
        | inl e ↦ rw e later
        | inr e ↦ rw e ((inl refl, refl, e), later)
      ]

  -- What holds of all candidates holds of all salespeople who are not full.
  candidates-All :
      (Q : Candidate → Type 0) (reps : List Salesperson)
      → All Q (candidates reps f)
      → All (λ r. IsFull r ⊎ Q (record { rep = r; open_tasks = load r })) reps
  unfolding candidates
  candidates-All Q [] h = tt
  candidates-All Q (r ∷ rs) h =
      let at : Bool → Type 0 = λ b. All Q (
        if b then candidates rs f else record { rep = r; open_tasks = load r } ∷ candidates rs f) in
      elim (Bool-cases (is_full r.max_open_tasks (load r))) [
        | inl e ↦ (inl e, candidates-All Q rs (subst at e h))
        | inr e ↦
            let (q, later) : Q (record { rep = r; open_tasks = load r }) × All Q (candidates rs f) =
              subst at e h in
            (inr q, candidates-All Q rs later)
      ]

  -- What an assignment says.
  abbrev pub Assigned : List Salesperson → Result Salesperson → Type 0
  Assigned reps (err e) = All IsFull reps
  Assigned reps (ok rep) =
      Among rep reps
      × (is_full rep.max_open_tasks (load rep) ≡ false)
      × All (λ r. IsFull r ⊎ (load rep ≤ load r)) reps

  IsFull-if_none : (reps : List Salesperson) → All (λ r. IsFull r ⊎ ⊥) reps → All IsFull reps
  IsFull-if_none [] h = tt
  IsFull-if_none (r ∷ rs) h = (elim (h.0) [ inl e ↦ e | inr e ↦ absurd e ], IsFull-if_none rs h.1)

  first_of-Assigned :
      (reps : List Salesperson) (sorted : List Candidate)
      → Least sorted
      → All (Stands reps) sorted
      → ((Q : Candidate → Type 0)
          → All Q sorted
          → All (λ r. IsFull r ⊎ Q (record { rep = r; open_tasks = load r })) reps)
      → Assigned reps (first_of sorted)
  first_of-Assigned reps [] least stands back = IsFull-if_none reps (back (λ c. ⊥) tt)
  first_of-Assigned reps (c ∷ cs) least stands back =
      let (among, same, free) = stands.0 in
      (
        among,
        subst (λ n. is_full c.rep.max_open_tasks n ≡ false) same free,
        subst (λ n. All (λ r. IsFull r ⊎ (n ≤ load r)) reps) same
            (back (λ d. c.open_tasks ≤ d.open_tasks) (omega arith, least)),
      )

  -- The assignment of a handoff, for any lead: it fails exactly if every salesperson on the list has
  -- as many open tasks as he may have; otherwise it names one on the list who may have another one,
  -- and no other who may has fewer open tasks.
  pub select_lem : (reps : List Salesperson) (t : Temperature) → Assigned reps (select reps t f)
  unfolding select
  select_lem reps t =
      first_of-Assigned reps (sort_by (goes_first t) (candidates reps f))
        (sort_by-Least t (candidates reps f))
        (All-sort_by (goes_first t) (Stands reps) (candidates reps f) (candidates-Stands reps))
        (λ Q h. candidates-All Q reps (sort_by-All (goes_first t) Q (candidates reps f) h))
