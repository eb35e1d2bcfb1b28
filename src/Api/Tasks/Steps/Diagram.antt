-- ===== src/Api/Tasks/Steps/Diagram.antt =====
-- The task table of deepCab/api/services/train.py, seen from one task, follows a diagram of its status.
use deep_cab.Prelude.{
  String, Option, none, some, ◌≡◌, ◌⊎◌, subst, sym, inl, inr, arith, str_eq, eq_iff, Bool-cases,
}
use deep_cab.Prelude.Dict.{lookup, lookup-insert, lookup-erase}
use deep_cab.Prelude.Exec.{Result, ok, raised}
use deep_cab.Api.Tasks.{TaskRecord, Status, pending, running, succeeded, failed, new_record, settle}
use deep_cab.Api.Tasks.Steps.{
  Service, empty_service, enqueue, begin, finish, Step, starts, begins, finishes, Reach, here, next,
}

-- The status that the service shows, if the task is known
abbrev pub view : String → Service → Option Status
view id s = elim (lookup id s.tasks) [ none ↦ none | some rec ↦ some rec.status ]

-- The life of a task, without the table
infix 40 ◌⟶◌
pub data ◌⟶◌ : Option Status → Option Status → Type 0 where
  mint : none ⟶ some pending
  take_up : some pending ⟶ some running
  succeed : some running ⟶ some succeeded
  fail : some running ⟶ some failed

-- A queued task is pending, and one that trains is running.
pub record IsConsistent (s : Service) : Type 0 where
  pub queued_pending : (id : String) → lookup id s.queued ≡ some tt → view id s ≡ some pending
  pub training_running : (id : String) → lookup id s.training ≡ some tt → view id s ≡ some running

Step-IsConsistent : {s u : Service} → Step s u → IsConsistent s → IsConsistent u
unfolding enqueue begin finish
Step-IsConsistent (starts s id fresh) c = record {
  queued_pending = λ j h. ground (
    arith,
    h,
    eq_iff id j,
    lookup-insert id j (new_record id) s.tasks,
    lookup-insert id j tt s.queued,
    c.queued_pending j,
  );
  training_running = λ j h. ground (
    arith,
    h,
    fresh,
    eq_iff id j,
    lookup-insert id j (new_record id) s.tasks,
    c.training_running j,
  );
}
Step-IsConsistent (begins s id rec queued known) c = record {
  queued_pending = λ j h. ground (
    arith,
    h,
    eq_iff id j,
    lookup-insert id j (record rec { status = running }) s.tasks,
    lookup-erase id j s.queued,
    c.queued_pending j,
  );
  training_running = λ j h. ground (
    arith,
    h,
    eq_iff id j,
    lookup-insert id j (record rec { status = running }) s.tasks,
    lookup-insert id j tt s.training,
    c.training_running j,
  );
}
Step-IsConsistent (finishes s id result rec training known) c = record {
  queued_pending = λ j h. ground (
    arith,
    h,
    training,
    eq_iff id j,
    lookup-insert id j (settle result rec) s.tasks,
    c.queued_pending j,
    c.training_running id,
  );
  training_running = λ j h. ground (
    arith,
    h,
    eq_iff id j,
    lookup-insert id j (settle result rec) s.tasks,
    lookup-erase id j s.training,
    c.training_running j,
  );
}

-- An edge, between what two views are
edge : {a a' b b' : Option Status} → a ≡ a' → b ≡ b' → a' ⟶ b' → (b ≡ a) ⊎ (a ⟶ b)
edge {a} {b' = b'} e f step = inr (subst (λ x. a ⟶ x) (sym f) (subst (λ x. x ⟶ b') (sym e) step))

settled_edge :
    {a b : Option Status} (result : Result String) (rec : TaskRecord)
    → a ≡ some running
    → b ≡ some (settle result rec).status
    → (b ≡ a) ⊎ (a ⟶ b)
unfolding settle
settled_edge (ok run) rec e f = edge e f succeed
settled_edge (raised error) rec e f = edge e f fail

-- Every step of the service is an edge of the diagram for a task, or does not show.
Step-⟶ :
    {s u : Service} (id : String)
    → IsConsistent s
    → Step s u
    → (view id u ≡ view id s) ⊎ (view id s ⟶ view id u)
unfolding enqueue begin finish
Step-⟶ id c (starts s j fresh) = elim (Bool-cases (str_eq j id)) [
  | inr other ↦ inl (ground (arith, other, lookup-insert j id (new_record j) s.tasks))
  | inl same ↦
      edge (ground (arith, fresh, same, eq_iff j id))
        (ground (arith, same, lookup-insert j id (new_record j) s.tasks)) mint
]
Step-⟶ id c (begins s j rec queued known) =
    let inserted = lookup-insert j id (record rec { status = running }) s.tasks in
    elim (Bool-cases (str_eq j id)) [
      | inr other ↦ inl (ground (arith, other, inserted))
      | inl same ↦
          edge (ground (arith, queued, same, eq_iff j id, c.queued_pending id))
            (ground (arith, same, inserted)) take_up
    ]
Step-⟶ id c (finishes s j result rec training known) =
    let inserted = lookup-insert j id (settle result rec) s.tasks in
    elim (Bool-cases (str_eq j id)) [
      | inr other ↦ inl (ground (arith, other, inserted))
      | inl same ↦
          settled_edge result rec
            (ground (arith, training, same, eq_iff j id, c.training_running id))
            (ground (arith, same, inserted))
    ]

pub Reach-IsConsistent : {s u : Service} → IsConsistent s → Reach s u → IsConsistent u
Reach-IsConsistent c here = c
Reach-IsConsistent c (next r step) = Step-IsConsistent step (Reach-IsConsistent c r)

empty-IsConsistent : IsConsistent empty_service
unfolding empty_service lookup
empty-IsConsistent = record {
  queued_pending = λ id h. absurd (cc h);
  training_running = λ id h. absurd (cc h);
}

infix 40 ◌⟶*◌
pub data ◌⟶*◌ : Option Status → Option Status → Type 0 where
  stays : {a : Option Status} → a ⟶* a
  then : {a b c : Option Status} → a ⟶* b → b ⟶ c → a ⟶* c

-- However the starts, the trainings and their ends interleave, the status that is shown for a task goes
-- along the diagram: it is minted as pending, runs, and succeeds or fails, and nothing else.
pub Reach-⟶* :
    {s u : Service} (id : String) → Reach empty_service s → Reach s u → view id s ⟶* view id u
Reach-⟶* id start here = stays
Reach-⟶* {s} id start (next {u = v} r step) =
    elim (Step-⟶ id (Reach-IsConsistent (Reach-IsConsistent empty-IsConsistent start) r) step) [
      | inl same ↦ subst (λ x. view id s ⟶* x) (sym same) (Reach-⟶* id start r)
      | inr moved ↦ then (Reach-⟶* id start r) moved
    ]
