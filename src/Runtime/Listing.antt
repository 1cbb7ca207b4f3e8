-- ===== src/Runtime/Listing.antt =====
-- `GetAll` of runtime/task.go against `Get`.
use mathlib.Core.List.{Memᴰ}
use systemd_runtime.Common.Maps.{lookup, insert, erase, lookup-insert, lookup-erase}
use systemd_runtime.Common.{
  ℕ, List, [], ◌∷◌, Option, none, some, false, ◌==◌, ==→eq, is_some, ◌≡◌, refl, sym, ap, subst, ◌∙◌,
  arith, inl, inr, Option-cases, Bool-cases,
}
use systemd_runtime.Runtime.{
  TaskRef, TaskList, returns, new_task_list, get, get_all, values, add_with_namespace,
  with_namespace, tasks_of, remove, remove_from, delete,
}
use systemd_runtime.Runtime.Table.{Call, gets, adds, removes, deletes, step}

-- No key stands twice.
IsMap : {A : Type 0} → List (ℕ × A) → Type 0
IsMap [] = Unit
IsMap ((k, a) ∷ m) = (lookup k m ≡ none) × IsMap m

insert-IsMap : {A : Type 0} (k : ℕ) (a : A) (m : List (ℕ × A)) → IsMap m → IsMap (insert k a m)
unfolding insert IsMap lookup
insert-IsMap k a [] v = (refl, tt)
insert-IsMap k a ((j, b) ∷ m) (f, v) = elim (Bool-cases (j == k)) [
  | inl e ↦ rw e (ap (λ i. lookup i m) (sym (==→eq j k e)) ∙ f, v)
  | inr e ↦ rw e (ground (arith, lookup-insert j k a m), insert-IsMap k a m v)
]

erase-IsMap : {A : Type 0} (k : ℕ) (m : List (ℕ × A)) → IsMap m → IsMap (erase k m)
unfolding erase IsMap lookup
erase-IsMap k [] v = tt
erase-IsMap k ((j, b) ∷ m) (f, v) = elim (Bool-cases (j == k)) [
  | inl e ↦ rw e (erase-IsMap k m v)
  | inr e ↦ rw e (ground (arith, lookup-erase j k m), erase-IsMap k m v)
]

-- The values of the map are tasks under their ids.
Keyed : List (ℕ × TaskRef) → Type 0
Keyed m = (k : ℕ) (t : TaskRef) → lookup k m ≡ some t → t.id ≡ k

values-lookup :
    (m : List (ℕ × TaskRef)) (k : ℕ) (t : TaskRef) → lookup k m ≡ some t → Memᴰ t (values m)
unfolding lookup values
values-lookup [] k t h = absurd (let no_case : ⊥ = cc in no_case)
values-lookup ((j, u) ∷ m) k t h = elim (Bool-cases (j == k)) [
  | inl e ↦ Memᴰ.head (ground arith)
  | inr e ↦ Memᴰ.tail (values-lookup m k t (ground arith))
]

lookup-values :
    (m : List (ℕ × TaskRef)) (t : TaskRef)
    → IsMap m
    → Memᴰ t (values m)
    → (k : ℕ) × (lookup k m ≡ some t)
unfolding lookup values IsMap
lookup-values [] t v h = elim h [ ]
lookup-values ((j, u) ∷ m) t (f, v) (Memᴰ.head e) = (j, ground arith)
lookup-values ((j, u) ∷ m) t (f, v) (Memᴰ.tail h) =
    let (k, at) = lookup-values m t v h in (k, ground (arith, ==→eq j k))

insert-Keyed : (m : List (ℕ × TaskRef)) (t : TaskRef) → Keyed m → Keyed (insert t.id t m)
unfolding Keyed
insert-Keyed m t v k u h = ground (arith, lookup-insert k t.id t m, v k u, ==→eq t.id k)

erase-Keyed : (m : List (ℕ × TaskRef)) (id : ℕ) → Keyed m → Keyed (erase id m)
unfolding Keyed
erase-Keyed m id v k u h = v k u (ground (arith, lookup-erase k id m))

record IsTable (l : TaskList) : Type 0 where
  no_key_twice : IsMap l
  namespaces :
      (n : ℕ) (tasks : List (ℕ × TaskRef)) → lookup n l ≡ some tasks → IsMap tasks × Keyed tasks

insert-IsTable :
    (l : TaskList) (n : ℕ) (tasks : List (ℕ × TaskRef))
    → IsTable l
    → IsMap tasks
    → Keyed tasks
    → IsTable (insert n tasks l)
insert-IsTable l n tasks v a b = record {
  no_key_twice = insert-IsMap n tasks l v.no_key_twice;
  namespaces = λ m us h. elim (Bool-cases (n == m)) [
    | inl e ↦
        let same : tasks ≡ us = ground (arith, lookup-insert m n tasks l) in
        subst (λ x. IsMap x × Keyed x) same (a, b)
    | inr e ↦ v.namespaces m us (ground (arith, lookup-insert m n tasks l))
  ];
}

empty-Keyed : Keyed []
unfolding Keyed lookup
empty-Keyed k t h = absurd (let no_case : ⊥ = cc in no_case)

with_namespace-IsTable : (l : TaskList) (n : ℕ) → IsTable l → IsTable (with_namespace n l)
with_namespace-IsTable l n v = elim (Bool-cases (is_some (lookup n l))) [
  | inl e ↦ rw e v
  | inr e ↦ rw e (insert-IsTable l n [] v (unfold IsMap in tt) empty-Keyed)
]

tasks_of-IsMap :
    (l : TaskList) (n : ℕ)
    → IsTable l
    → IsMap (tasks_of (lookup n l)) × Keyed (tasks_of (lookup n l))
tasks_of-IsMap l n v = elim (Option-cases (lookup n l)) [
  | inl e ↦ rw e (unfold IsMap in tt, empty-Keyed)
  | inr (tasks, e) ↦ rw e (v.namespaces n tasks e)
]

add-IsTable :
    (l : TaskList) (n : ℕ) (t : TaskRef) → IsTable l → IsTable (add_with_namespace l n t).0
unfolding add_with_namespace
add-IsTable l n t v =
    let l' = with_namespace n l in
    let tasks = tasks_of (lookup n l') in
    let v' = with_namespace-IsTable l n v in
    let (a, b) = tasks_of-IsMap l' n v' in
    elim (Bool-cases (is_some (lookup t.id tasks))) [
      | inl e ↦ rw e v'
      | inr e ↦ rw e (
          insert-IsTable l' n (insert t.id t tasks) v' (insert-IsMap t.id t tasks a)
            (insert-Keyed tasks t b))
    ]

remove_from-IsTable :
    (l : TaskList) (n : ℕ) (tasks : List (ℕ × TaskRef)) (t : TaskRef)
    → IsTable l
    → IsMap tasks
    → Keyed tasks
    → IsTable (remove_from l n tasks t)
unfolding remove_from
remove_from-IsTable l n tasks t v a b = elim (Option-cases (lookup t.id tasks)) [
  | inl e ↦ rw (e, remove_from) v
  | inr (u, e) ↦
      rw (e, remove_from)
        (elim (Bool-cases (u.handle == t.handle)) [
          | inl s ↦ rw s (
              insert-IsTable l n (erase t.id tasks) v (erase-IsMap t.id tasks a)
                (erase-Keyed tasks t.id b))
          | inr s ↦ rw s v
        ])
]

remove-IsTable :
    (l : TaskList) (ns : Option ℕ) (t : TaskRef) → IsTable l → IsTable (remove l ns t).0
unfolding remove
remove-IsTable l none t v = v
remove-IsTable l (some n) t v = elim (Option-cases (lookup n l)) [
  | inl e ↦ rw (e, remove) v
  | inr (tasks, e) ↦
      rw (e, remove) (let (a, b) = v.namespaces n tasks e in remove_from-IsTable l n tasks t v a b)
]

step-IsTable : (l : TaskList) (c : Call) → IsTable l → IsTable (step l c).0
unfolding step delete
step-IsTable l (gets ns id) v = v
step-IsTable l (adds n t) v = add-IsTable l n t v
step-IsTable l (removes ns t) v = remove-IsTable l ns t v
step-IsTable l (deletes ns t none) v = remove-IsTable l ns t v
step-IsTable l (deletes ns t (some e)) v = v

-- The table behind a sequence of calls.
unfoldable pub table_after : TaskList → List Call → TaskList
table_after l [] = l
table_after l (c ∷ cs) = table_after (step l c).0 cs

table_after-IsTable : (l : TaskList) (cs : List Call) → IsTable l → IsTable (table_after l cs)
unfolding table_after
table_after-IsTable l [] v = v
table_after-IsTable l (c ∷ cs) v = table_after-IsTable (step l c).0 cs (step-IsTable l c v)

new-IsTable : IsTable new_task_list
unfolding new_task_list
new-IsTable = record {
  no_key_twice = unfold IsMap in tt;
  namespaces = λ n tasks h. absurd (let no_case : ⊥ = unfold lookup in cc in no_case);
}

get-lookup :
    (l : TaskList) (n id : ℕ) (t : TaskRef)
    → get l (some n) id ≡ returns t
    → lookup id (tasks_of (lookup n l)) ≡ some t
unfolding get
get-lookup l n id t h = ground arith

lookup-get :
    (l : TaskList) (n id : ℕ) (t : TaskRef)
    → lookup id (tasks_of (lookup n l)) ≡ some t
    → get l (some n) id ≡ returns t
unfolding get lookup
lookup-get l n id t h = ground arith

listed :
    (l : TaskList) (n : ℕ) (t : TaskRef)
    → IsTable l
    → Memᴰ t (values (tasks_of (lookup n l)))
    → get l (some n) t.id ≡ returns t
listed l n t v h =
    let (a, b) = tasks_of-IsMap l n v in
    let (k, at) = lookup-values (tasks_of (lookup n l)) t a h in
    let same : t.id ≡ k = (unfold Keyed in b k t at) in
    lookup-get l n t.id t (subst (λ j. lookup j (tasks_of (lookup n l)) ≡ some t) (sym same) at)

-- Behind every sequence of calls, `GetAll` in a namespace lists exactly the tasks that `Get` gives
-- there, each under its id.
pub get_all-get :
    (cs : List Call) (n : ℕ)
    → let l = table_after new_task_list cs in
      (ts : List TaskRef) × (get_all l false (some n) ≡ returns ts)
      × ((t : TaskRef) → Memᴰ t ts → get l (some n) t.id ≡ returns t)
      × ((id : ℕ) (t : TaskRef) → get l (some n) id ≡ returns t → Memᴰ t ts)
unfolding get_all
get_all-get cs n =
    let l = table_after new_task_list cs in
    let v = table_after-IsTable new_task_list cs new-IsTable in
    (
      values (tasks_of (lookup n l)),
      elim (Option-cases (lookup n l)) [
        | inl e ↦ rw e (unfold values in refl)
        | inr (tasks, e) ↦ rw e refl
      ],
      λ t h. listed l n t v h,
      λ id t h. values-lookup (tasks_of (lookup n l)) id t (get-lookup l n id t h),
    )
