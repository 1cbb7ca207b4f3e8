-- ===== src/Runtime/Table.antt =====
-- The table of tasks against a function of namespace and id.
use systemd_runtime.Common.Maps.{lookup, insert, erase, lookup-insert, lookup-erase}
use systemd_runtime.Common.{
  ℕ, List, [], ◌∷◌, Option, none, some, ◌==◌, ==→eq, if◌then◌else◌, is_some, ◌≡◌, refl, ap, ◌∙◌,
  arith,
}
use systemd_runtime.Runtime.{
  TaskRef, TaskList, Error, Result, namespace_required, task_not_exists, task_already_exists,
  returns, fails, new_task_list, get, add_with_namespace, with_namespace, tasks_of, remove,
  remove_from, delete,
}

-- The task of a namespace and an id.
pub find : TaskList → (n id : ℕ) → Option TaskRef
find l n id = lookup id (tasks_of (lookup n l))

abbrev pub Tasks : Type 0
Tasks = ℕ → ℕ → Option TaskRef

abbrev pub changed : Tasks → (n id : ℕ) → Option TaskRef → Tasks
changed f n id v = λ m j. if n == m then (if id == j then v else f m j) else f m j

pub data Call : Type 0 where
  gets : (ns : Option ℕ) → (id : ℕ) → Call
  adds : (n : ℕ) → TaskRef → Call
  removes : (ns : Option ℕ) → TaskRef → Call
  deletes : (ns : Option ℕ) → TaskRef → (delete_err : Option Error) → Call

pub data Answer : Type 0 where
  got : Result TaskRef → Answer
  ended : Option Error → Answer

unfoldable pub step : TaskList → Call → TaskList × Answer
step l (gets ns id) = (l, got (get l ns id))
step l (adds n t) = let (l', e) = add_with_namespace l n t in (l', ended e)
step l (removes ns t) = let (l', e) = remove l ns t in (l', ended e)
step l (deletes ns t err) = let (l', e) = delete l ns t err in (l', ended e)

abbrev pub found_or : Option TaskRef → Result TaskRef
found_or none = fails task_not_exists
found_or (some t) = returns t

-- A task is taken out if it is the very one that stands there.
abbrev pub taken_out : Tasks → (ns : Option ℕ) → TaskRef → Tasks
taken_out f none t = f
taken_out f (some n) t = elim (f n t.id) [
  | none ↦ f
  | some u ↦ if u.handle == t.handle then changed f n t.id none else f
]

unfoldable pub spec_step : Tasks → Call → Tasks × Answer
spec_step f (gets none id) = (f, got (fails namespace_required))
spec_step f (gets (some n) id) = (f, got (found_or (f n id)))
spec_step f (adds n t) =
    if is_some (f n t.id)
    then (f, ended (some (task_already_exists t.id)))
    else (changed f n t.id (some t), ended none)
spec_step f (removes none t) = (f, ended (some namespace_required))
spec_step f (removes (some n) t) = (taken_out f (some n) t, ended none)
spec_step f (deletes ns t none) = (taken_out f ns t, ended none)
spec_step f (deletes ns t (some e)) = (f, ended (some e))

abbrev Represents : TaskList → Tasks → Type 0
Represents l f = (n id : ℕ) → find l n id ≡ f n id

pub get-find : (l : TaskList) (n id : ℕ) → get l (some n) id ≡ found_or (find l n id)
unfolding get find lookup
get-find l n id = ground arith

find-insert :
    (l : TaskList) (n m j : ℕ) (tasks : List (ℕ × TaskRef))
    → find (insert n tasks l) m j ≡ (if n == m then lookup j tasks else find l m j)
unfolding find
find-insert l n m j tasks = ground (arith, lookup-insert m n tasks l)

find-with_namespace : (l : TaskList) (n m j : ℕ) → find (with_namespace n l) m j ≡ find l m j
unfolding find lookup
find-with_namespace l n m j = ground (arith, lookup-insert m n [] l, ==→eq n m)

pub find-add :
    (l : TaskList) (n m j : ℕ) (t : TaskRef)
    → find (add_with_namespace l n t).0 m j
      ≡ (if is_some (find l n t.id) then find l m j else changed (find l) n t.id (some t) m j)
unfolding add_with_namespace find
find-add l n m j t =
    let l' = with_namespace n l in
    let tasks = tasks_of (lookup n l') in
    ground (
      arith,
      find-with_namespace l n n t.id,
      find-with_namespace l n n j,
      find-with_namespace l n m j,
      find-insert l' n m j (insert t.id t tasks),
      lookup-insert j t.id t tasks,
      ==→eq n m,
    )

find-remove :
    (l : TaskList) (n m j : ℕ) (t : TaskRef)
    → find (remove l (some n) t).0 m j ≡ taken_out (find l) (some n) t m j
unfolding remove remove_from find
find-remove l n m j t = ground (
  arith,
  find-insert l n m j (erase t.id (tasks_of (lookup n l))),
  lookup-erase j t.id (tasks_of (lookup n l)),
  ==→eq n m,
)

taken_out_same :
    (f g : Tasks) (ns : Option ℕ) (t : TaskRef)
    → ((n id : ℕ) → f n id ≡ g n id)
    → (m j : ℕ) → taken_out f ns t m j ≡ taken_out g ns t m j
taken_out_same f g none t h m j = h m j
taken_out_same f g (some n) t h m j = ground (arith, h n t.id, h m j)

refines_removal :
    (l : TaskList) (f : Tasks) (ns : Option ℕ) (t : TaskRef)
    → Represents l f
    → Represents (remove l ns t).0 (taken_out f ns t)
refines_removal l f none t h m j = unfold remove in h m j
refines_removal l f (some n) t h m j =
    find-remove l n m j t ∙ taken_out_same (find l) f (some n) t h m j

no_error : (l : TaskList) (n : ℕ) (t : TaskRef) → (remove l (some n) t).1 ≡ none
unfolding remove
no_error l n t = ground arith

pub add_error :
    (l : TaskList) (n : ℕ) (t : TaskRef)
    → (add_with_namespace l n t).1
      ≡ (if is_some (find l n t.id) then some (task_already_exists t.id) else none)
unfolding add_with_namespace find
add_error l n t = ground (arith, find-with_namespace l n n t.id)

-- One call: the same answer, and tables that correspond.
step_refines :
    (l : TaskList) (f : Tasks) (c : Call)
    → Represents l f
    → ((step l c).1 ≡ (spec_step f c).1) × Represents (step l c).0 (spec_step f c).0
unfolding step spec_step
step_refines l f (gets none id) h = (unfold get in refl, h)
step_refines l f (gets (some n) id) h = (ap got (get-find l n id ∙ ap found_or (h n id)), h)
step_refines l f (adds n t) h = (
  ground (arith, add_error l n t, h n t.id),
  λ m j. ground (arith, find-add l n m j t, h n t.id, h m j),
)
step_refines l f (removes none t) h = (unfold remove in refl, refines_removal l f none t h)
step_refines l f (removes (some n) t) h =
    (ap ended (no_error l n t), refines_removal l f (some n) t h)
step_refines l f (deletes ns t none) h = unfold delete in (refl, refines_removal l f ns t h)
step_refines l f (deletes ns t (some e)) h = unfold delete in (refl, h)

-- The answers to a sequence of calls.
unfoldable pub answers : TaskList → List Call → List Answer
answers l [] = []
answers l (c ∷ cs) = (step l c).1 ∷ answers (step l c).0 cs

unfoldable pub spec_answers : Tasks → List Call → List Answer
spec_answers f [] = []
spec_answers f (c ∷ cs) = (spec_step f c).1 ∷ spec_answers (spec_step f c).0 cs

answers_from :
    (l : TaskList) (f : Tasks) (cs : List Call) → Represents l f → answers l cs ≡ spec_answers f cs
unfolding answers spec_answers
answers_from l f [] h = refl
answers_from l f (c ∷ cs) h =
    let (same, next) = step_refines l f c h in
    rw same
      (ap (λ rest. (spec_step f c).1 ∷ rest) (answers_from (step l c).0 (spec_step f c).0 cs next))

-- A new list of tasks answers every sequence of calls like a function from namespaces and ids to
-- tasks. `Get` gives the task there, or the error that the context has no namespace or that there is
-- no task; `AddWithNamespace` refuses an id that is taken in that namespace and changes no other;
-- `Remove`, and `Delete` of a task once the task itself is deleted, take a task out only if it is the
-- very one that stands under its id in the namespace of the context.
pub new-answers : (cs : List Call) → answers new_task_list cs ≡ spec_answers (λ n id. none) cs
new-answers cs =
    answers_from new_task_list (λ n id. none) cs
      (λ n id. unfold new_task_list in unfold find in unfold lookup in refl)
