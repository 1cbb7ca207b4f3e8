-- ===== src/Runtime/Loading.antt =====
-- What becomes of the bundles that runtime/runtime.go finds when it starts.
use mathlib.Core.List.{Memᴰ}
use systemd_runtime.Common.{
  ℕ, List, [], ◌∷◌, ◌++◌, Option, none, some, is_some, true, if◌then◌else◌, ◌≡◌, refl, ap, subst,
  sym, ◌∙◌, arith, inl, inr, ◌⊎◌, Option-cases, Bool-cases, ==→eq,
}
use systemd_runtime.Runtime.{
  new_task_list, TaskRef, Error, Result, returns, fails, get, add_with_namespace,
}
use systemd_runtime.Runtime.Table.{find, find-add, get-find, add_error, found_or}
use systemd_runtime.Runtime.Manager.{
  TaskManager, Deletion, How, by_path, by_bundle, Loads, add_task, deleting, or_delete,
  bundle_loaded, loading_task, DirEntry, is_loaded, loading_tasks, loading_read, NamespaceDir,
  loading_namespaces, new_manager,
}

-- A later table has all tasks of an earlier one, and a later manager has deleted what an earlier had.
record Grows (m n : TaskManager) : Type 0 where
  keeps : (ns id : ℕ) (t : TaskRef) → find m.tasks ns id ≡ some t → find n.tasks ns id ≡ some t
  deleted : (d : Deletion) → Memᴰ d m.deletions → Memᴰ d n.deletions

-- What deleting a bundle that was not loaded is, and how it ended.
abbrev pub deletion_of : (ns id : ℕ) → Loads → Deletion
deletion_of ns id w = record {
  ns = ns;
  id = id;
  how = if is_some w.bundle_err then by_path else by_bundle;
  err = w.delete_err;
}

-- The task of a bundle is in the table, or the bundle was not loaded and deleting it was tried.
abbrev pub Settled : TaskManager → (ns id : ℕ) → Loads → Type 0
Settled m ns id w =
    ((t : TaskRef) × (w.bundle_err ≡ none)
      × (w.container_err ≡ none)
      × (w.task ≡ returns t)
      × (get m.tasks (some ns) t.id ≡ returns t))
    ⊎ Memᴰ (deletion_of ns id w) m.deletions

mem-append : (d : Deletion) (xs ys : List Deletion) → Memᴰ d xs → Memᴰ d (xs ++ ys)
mem-append d (x ∷ xs) ys (Memᴰ.head e) = Memᴰ.head e
mem-append d (x ∷ xs) ys (Memᴰ.tail h) = Memᴰ.tail (mem-append d xs ys h)
mem-append d [] ys h = elim h [ ]

mem_last : (d : Deletion) (xs : List Deletion) → Memᴰ d (xs ++ (d ∷ []))
mem_last d [] = Memᴰ.head refl
mem_last d (x ∷ xs) = Memᴰ.tail (mem_last d xs)

later_refl : (m : TaskManager) → Grows m m
later_refl m = record { keeps = λ ns id t h. h; deleted = λ d h. h }

later_trans : {m n o : TaskManager} → Grows m n → Grows n o → Grows m o
later_trans a b = record {
  keeps = λ ns id t h. b.keeps ns id t (a.keeps ns id t h);
  deleted = λ d h. b.deleted d (a.deleted d h);
}

later_deleting :
    (m : TaskManager) (ns id : ℕ) (how : How) (w : Loads) → Grows m (deleting m ns id how w)
later_deleting m ns id how w = record {
  keeps = λ n i t h. h;
  deleted = λ d h.
      mem-append d m.deletions (record { ns = ns; id = id; how = how; err = w.delete_err } ∷ []) h;
}

later_add : (m : TaskManager) (ns : ℕ) (t : TaskRef) → Grows m (add_task m ns t).0
unfolding add_task
later_add m ns t = record {
  keeps = λ n i u h. ground (arith, find-add m.tasks ns n i t, ==→eq ns n, ==→eq t.id i);
  deleted = λ d h. h;
}

add_settles :
    (m : TaskManager) (ns : ℕ) (t : TaskRef)
    → (add_task m ns t).1 ≡ none
    → get (add_task m ns t).0.tasks (some ns) t.id ≡ returns t
unfolding add_task
add_settles m ns t h =
    let there : find (add_with_namespace m.tasks ns t).0 ns t.id ≡ some t =
      ground (arith, find-add m.tasks ns ns t.id t, add_error m.tasks ns t) in
    get-find (add_with_namespace m.tasks ns t).0 ns t.id ∙ ap found_or there

or_delete_settles :
    (m : TaskManager) (ns id : ℕ) (w : Loads) (r : TaskManager × Option Error)
    → w.bundle_err ≡ none
    → Grows m r.0
    → (r.1 ≡ none → Settled r.0 ns id w)
    → Grows m (or_delete ns id w r).0 × Settled (or_delete ns id w r).0 ns id w
or_delete_settles m ns id w (n, none) fine g s = (g, s refl)
or_delete_settles m ns id w (n, some e) fine g s = (
  later_trans g (later_deleting n ns id by_bundle w),
  inr (
      rw fine
        (mem_last (record { ns = ns; id = id; how = by_bundle; err = w.delete_err }) n.deletions)),
)

Result-cases :
    (r : Result TaskRef) → ((t : TaskRef) × (r ≡ returns t)) ⊎ ((e : Error) × (r ≡ fails e))
Result-cases (returns t) = inl (t, refl)
Result-cases (fails e) = inr (e, refl)

loaded_settles :
    (m : TaskManager) (ns id : ℕ) (w : Loads)
    → w.bundle_err ≡ none
    → Grows m (bundle_loaded m ns w).0
      × ((bundle_loaded m ns w).1 ≡ none → Settled (bundle_loaded m ns w).0 ns id w)
loaded_settles m ns id w whole = elim (Option-cases w.container_err) [
  | inr (e, bad) ↦ rw bad (later_refl m, λ h. absurd (let no_case : ⊥ = cc in no_case))
  | inl fine ↦ rw fine (elim (Result-cases w.task) [
    | inr (e, bad) ↦ rw bad (later_refl m, λ h. absurd (let no_case : ⊥ = cc in no_case))
    | inl (t, good) ↦
        rw good (later_add m ns t, λ h. inl (t, whole, refl, refl, add_settles m ns t h))
  ])
]

load_settles :
    (m : TaskManager) (ns id : ℕ) (w : Loads)
    → Grows m (loading_task m id ns w).0 × Settled (loading_task m id ns w).0 ns id w
unfolding loading_task
load_settles m ns id w = elim (Option-cases w.bundle_err) [
  | inr (e, bad) ↦
      rw (bad, loading_task)
        (
          later_deleting m ns id by_path w,
          inr (
              mem_last (record { ns = ns; id = id; how = by_path; err = w.delete_err })
                m.deletions),
        )
  | inl fine ↦
      let (g, s) = loaded_settles m ns id w fine in
      let goes_on : or_delete ns id w (bundle_loaded m ns w) ≡ loading_task m id ns w =
        rw fine refl in
      subst (λ r. Grows m r.0 × Settled r.0 ns id w) goes_on
        (or_delete_settles m ns id w (bundle_loaded m ns w) fine g s)
]

get_later :
    {m n : TaskManager} (ns id : ℕ) (t : TaskRef)
    → Grows m n
    → get m.tasks (some ns) id ≡ returns t
    → get n.tasks (some ns) id ≡ returns t
get_later {m} {n} ns id t g h =
    let there : find m.tasks ns id ≡ some t = ground (arith, get-find m.tasks ns id) in
    get-find n.tasks ns id ∙ ap found_or (g.keeps ns id t there)

Settled-later :
    {m n : TaskManager} (ns id : ℕ) (w : Loads) → Grows m n → Settled m ns id w → Settled n ns id w
Settled-later ns id w g (inr h) = inr (g.deleted (deletion_of ns id w) h)
Settled-later ns id w g (inl (t, whole, fine, good, h)) =
    inl (t, whole, fine, good, get_later ns t.id t g h)

tasks_grow :
    (m : TaskManager) (ns : ℕ) (ds : List (DirEntry Loads)) → Grows m (loading_tasks m ns ds)
unfolding loading_tasks
tasks_grow m ns [] = later_refl m
tasks_grow m ns (d ∷ ds) = elim (Bool-cases (is_loaded d)) [
  | inl e ↦ rw e (
      later_trans ((load_settles m ns d.name d.content).0)
        (tasks_grow (loading_task m d.name ns d.content).0 ns ds))
  | inr e ↦ rw e (tasks_grow m ns ds)
]

tasks_settle :
    (m : TaskManager) (ns : ℕ) (ds : List (DirEntry Loads)) (d : DirEntry Loads)
    → Memᴰ d ds
    → is_loaded d ≡ true
    → Settled (loading_tasks m ns ds) ns d.name d.content
unfolding loading_tasks
tasks_settle m ns [] d h l = elim h [ ]
tasks_settle m ns (c ∷ ds) d (Memᴰ.head e) l =
    let l' : is_loaded c ≡ true = (subst (λ x. is_loaded x ≡ true) e l) in
    subst (λ x. Settled (loading_tasks m ns (c ∷ ds)) ns x.name x.content) (sym e)
      (rw (l', loading_tasks)
        (Settled-later ns c.name c.content (tasks_grow (loading_task m c.name ns c.content).0 ns ds)
          ((load_settles m ns c.name c.content).1)))
tasks_settle m ns (c ∷ ds) d (Memᴰ.tail h) l =
    tasks_settle (if is_loaded c then (loading_task m c.name ns c.content).0 else m) ns ds d h l

read_later :
    (m : TaskManager) (ns : ℕ) (r : Result (List (DirEntry Loads))) → Grows m (loading_read m ns r)
read_later m ns (fails e) = later_refl m
read_later m ns (returns ds) = tasks_grow m ns ds

namespaces_grow : (m : TaskManager) (ds : List NamespaceDir) → Grows m (loading_namespaces m ds)
unfolding loading_namespaces
namespaces_grow m [] = later_refl m
namespaces_grow m (d ∷ ds) = elim (Bool-cases (is_loaded d)) [
  | inl e ↦ rw e (
      later_trans (read_later m d.name d.content)
        (namespaces_grow (loading_read m d.name d.content) ds))
  | inr e ↦ rw e (namespaces_grow m ds)
]

namespaces_settle :
    (m : TaskManager) (ns_dirs : List NamespaceDir) (n : NamespaceDir) (ds : List (DirEntry Loads))
    (d : DirEntry Loads)
    → Memᴰ n ns_dirs
    → is_loaded n ≡ true
    → n.content ≡ returns ds
    → Memᴰ d ds
    → is_loaded d ≡ true
    → Settled (loading_namespaces m ns_dirs) n.name d.name d.content
unfolding loading_namespaces
namespaces_settle m [] n ds d h ln r hd ld = elim h [ ]
namespaces_settle m (c ∷ cs) n ds d (Memᴰ.head e) ln r hd ld =
    subst (λ x. Settled (loading_namespaces m (x ∷ cs)) n.name d.name d.content) e
      (rw (ln, loading_namespaces)
        (rw r (
          Settled-later n.name d.name d.content (namespaces_grow (loading_tasks m n.name ds) cs)
            (tasks_settle m n.name ds d hd ld))))
namespaces_settle m (c ∷ cs) n ds d (Memᴰ.tail h) ln r hd ld =
    namespaces_settle (if is_loaded c then loading_read m c.name c.content else m) cs n ds d h ln r
      hd ld

-- If `New` succeeds, then for every bundle in a directory of a namespace that could be read, both
-- directories and not hidden, whatever happened with the other bundles: either nothing failed and the
-- task that `LoadTask` made of it is in the table, or deleting the bundle was tried, by path if
-- `LoadBundle` failed and by the bundle otherwise, and the error of that, which is only logged, is the
-- one recorded. So a bundle may be neither loaded nor deleted, but only if deleting it failed.
pub new_manager_settles :
    {m : TaskManager} (dirs : List NamespaceDir) (n : NamespaceDir) (ds : List (DirEntry Loads))
    (d : DirEntry Loads)
    → new_manager none (returns dirs) ≡ returns m
    → Memᴰ n dirs
    → is_loaded n ≡ true
    → n.content ≡ returns ds
    → Memᴰ d ds
    → is_loaded d ≡ true
    → Settled m n.name d.name d.content
unfolding new_manager
new_manager_settles {m} dirs n ds d h hn ln r hd ld =
    let start : TaskManager = record { tasks = new_task_list; deletions = [] } in
    let same : loading_namespaces start dirs ≡ m = cc in
    subst (λ x. Settled x n.name d.name d.content) same
      (namespaces_settle start dirs n ds d hn ln r hd ld)
