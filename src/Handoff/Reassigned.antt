-- ===== src/Handoff/Reassigned.antt =====
-- internal/service/service.go: what a reassignment leaves to the salesperson who had the handoff.
use lead.Prelude.{
  ℕ, ◌+◌, ◌≡◌, refl, ◌≢◌, ap, ◌∙◌, String, false, ◌&&◌, some, [], ◌∷◌, arith, ◌==◌, string_eq,
  eq_iff, string_beq_refl, Dict, lookup, insert, lookup-insert, values, count_if, ok,
}
use lead.Handoff.Store.{
  Handoff, acknowledged, reassigned, Task, Fake, is_open, close_all, count_open_tasks,
}
use lead.Handoff.Service.{acknowledge_handoff, reassign_handoff}

-- The open tasks of a user among some tasks.
abbrev open_of : String → Dict Task → ℕ
open_of user_id d = count_if (λ t. t.user_id == user_id && is_open t.status) (values d)

-- Closing the tasks of another user changes nothing for this one.
close_all-open_of :
    (handoff_id user_id other : String) (now : ℕ) (d : Dict Task)
    → (user_id == "") ≡ false
    → (other == user_id) ≡ false
    → open_of other (close_all handoff_id user_id now d) ≡ open_of other d
unfolding close_all
close_all-open_of handoff_id user_id other now [] named differ = refl
close_all-open_of handoff_id user_id other now ((k, t) ∷ d) named differ = ground (
  arith,
  close_all-open_of handoff_id user_id other now d named differ,
  eq_iff t.user_id other,
  eq_iff t.user_id user_id,
  eq_iff other user_id,
)

module _ (sprint : String → ℕ → String) (h : Handoff) (named : (h.id == "") ≡ false) where
  -- The handoff once it is reassigned.
  abbrev moved : ℕ → String → Handoff
  moved now user_id = record h {
    assigned_user_id = user_id;
    status = reassigned;
    sla_deadline = some (now + 300);
  }

  reassign_handoff-stored :
      (now : ℕ) (user_id : String) (f : Fake)
      → lookup h.id f.handoffs ≡ some h
      → let f1 = (reassign_handoff sprint now h.id user_id f).1 in
        (f1.tasks ≡ f.tasks) × (f1.handoffs ≡ insert h.id (moved now user_id) f.handoffs)
  unfolding reassign_handoff
  reassign_handoff-stored now user_id f stored = rw (stored, named) (refl, refl)

  acknowledge_handoff-stored :
      (now : ℕ) (g : Fake) (m : Handoff)
      → lookup h.id g.handoffs ≡ some m
      → let (r, g') = acknowledge_handoff sprint now h.id m.assigned_user_id g in
        (g'.tasks ≡ close_all m.id m.assigned_user_id now g.tasks)
        × ((h' : Handoff) × (r ≡ ok h')
            × (h'.status ≡ acknowledged)
            × (h'.assigned_user_id ≡ m.assigned_user_id))
  unfolding acknowledge_handoff
  acknowledge_handoff-stored now g m stored =
      rw (stored, string_beq_refl m.assigned_user_id) (refl, (_, refl, refl, refl))

-- A handoff that is stored under its id is given to another user, who acknowledges it: this succeeds,
-- whenever it comes, and yet the number of open tasks of every other user, so of the one who had the
-- handoff, is what it was before.
pub reassigned_stays_open :
    (sprint : String → ℕ → String) (now now' : ℕ) (user_id other : String) (h : Handoff) (f : Fake)
    → lookup h.id f.handoffs ≡ some h
    → h.id ≢ ""
    → user_id ≢ ""
    → other ≢ user_id
    → let f1 = (reassign_handoff sprint now h.id user_id f).1 in
      let (r, f2) = acknowledge_handoff sprint now' h.id user_id f1 in
      (count_open_tasks other f2 ≡ count_open_tasks other f)
      × ((h' : Handoff) × (r ≡ ok h')
          × (h'.status ≡ acknowledged)
          × (h'.assigned_user_id ≡ user_id))
unfolding count_open_tasks
reassigned_stays_open sprint now now' user_id other h f stored named user differ =
    let id_set : (h.id == "") ≡ false = ground (arith, eq_iff h.id "") in
    let user_set : (user_id == "") ≡ false = ground (arith, eq_iff user_id "") in
    let apart : (other == user_id) ≡ false = ground (arith, eq_iff other user_id) in
    let f1 = (reassign_handoff sprint now h.id user_id f).1 in
    let m = moved sprint h id_set now user_id in
    let (tasks1, handoffs1) = reassign_handoff-stored sprint h id_set now user_id f stored in
    let stored1 : lookup h.id f1.handoffs ≡ some m =
      ap (lookup h.id) handoffs1
      ∙ rw (lookup-insert h.id h.id m f.handoffs, string_beq_refl h.id) refl in
    let (tasks2, said) = acknowledge_handoff-stored sprint h id_set now' f1 m stored1 in
    (
      ap (open_of other) tasks2
          ∙ close_all-open_of h.id user_id other now' f1.tasks user_set apart
          ∙ ap (open_of other) tasks1,
      said,
    )
