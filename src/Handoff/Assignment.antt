-- ===== src/Handoff/Assignment.antt =====
-- internal/assignment/assignment.go: which salesperson gets a handoff.
use lead.Prelude.{
  ℕ, suc, ◌+◌, ◌*◌, Bool, true, false, ◌&&◌, not, List, [], ◌∷◌, ℤ, pos, ltb_ℤ, leb_ℤ, ltb,
  if◌then◌else◌, ◌==◌, string_eq, nat_eq, sort_by, text_ltb, Result, ok, err, rejected,
}
use lead.Handoff.Store.{Salesperson, Temperature, super_hot, hot, Fake, count_open_tasks}

pub record Candidate : Type 0 where
  pub rep : Salesperson
  pub open_tasks : ℕ

-- `isHot`
abbrev pub is_hot : Temperature → Bool
is_hot super_hot = true
is_hot hot = true
is_hot t = false

-- A score that is not positive weighs as much as a score of one.
abbrev pub weight : ℤ → ℕ
weight (pos (suc n)) = suc n
weight z = 100

-- `weightedLoad(a) < weightedLoad(b)`, the quotients compared by cross multiplication.
abbrev pub load_ltb : Candidate → Candidate → Bool
load_ltb a b =
    ltb ((a.open_tasks + 1) * weight b.rep.performance_score)
      ((b.open_tasks + 1) * weight a.rep.performance_score)

abbrev pub same_score : Candidate → Candidate → Bool
same_score a b =
    not (ltb_ℤ a.rep.performance_score b.rep.performance_score)
    && not (ltb_ℤ b.rep.performance_score a.rep.performance_score)

unfoldable pub goes_first : Temperature → Candidate → Candidate → Bool
goes_first t a b =
    if not (a.open_tasks == b.open_tasks)
    then ltb a.open_tasks b.open_tasks
    else (if same_score a b
        then text_ltb a.rep.id b.rep.id
        else (if is_hot t
            then ltb_ℤ b.rep.performance_score a.rep.performance_score
            else load_ltb a b))

-- A positive limit that the open tasks have reached.
abbrev pub is_full : ℤ → ℕ → Bool
is_full max open_tasks = ltb_ℤ (pos 0) max && leb_ℤ max (pos open_tasks)

unfoldable pub candidates : List Salesperson → Fake → List Candidate
candidates [] f = []
candidates (r ∷ rs) f =
    let rest = candidates rs f in
    if is_full r.max_open_tasks (count_open_tasks r.id f)
    then rest
    else record { rep = r; open_tasks = count_open_tasks r.id f } ∷ rest

abbrev pub first_of : List Candidate → Result Salesperson
first_of [] = err rejected
first_of (c ∷ cs) = ok c.rep

-- `Select`
unfoldable pub select : List Salesperson → Temperature → Fake → Result Salesperson
unfolding candidates
select reps t f = first_of (sort_by (goes_first t) (candidates reps f))
