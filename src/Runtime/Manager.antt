-- ===== src/Runtime/Manager.antt =====
-- runtime/runtime.go: the manager of the tasks of a containerd, which loads the bundles of a former one.
use systemd_runtime.Common.{
  ℕ, List, [], ◌∷◌, ◌++◌, Option, none, some, Bool, false, not, ◌&&◌, ◌==◌, if◌then◌else◌,
}
use systemd_runtime.Runtime.{
  TaskRef, TaskList, Error, Result, namespace_required, returns, fails, new_task_list,
  add_with_namespace,
}

-- `bundle.DeleteBundle`, and `Delete` of a bundle that was loaded.
pub data How : Type 0 where
  by_path by_bundle : How

-- A call of one of them and its error, which is only logged; without one, the bundle is deleted.
pub record Deletion : Type 0 where
  pub ns : ℕ
  pub id : ℕ
  pub how : How
  pub err : Option Error

pub record TaskManager : Type 0 where
  pub tasks : TaskList
  pub deletions : List Deletion

-- What loading a task meets: the errors of `LoadBundle` and of the store of containers, the result of
-- `LoadTask`, and the error of deleting the bundle, if it comes to that.
pub record Loads : Type 0 where
  pub bundle_err : Option Error
  pub container_err : Option Error
  pub task : Result TaskRef
  pub delete_err : Option Error

-- `addTask`
unfoldable pub add_task : TaskManager → (ns : ℕ) → TaskRef → TaskManager × Option Error
unfolding add_with_namespace
add_task m ns t = let (l, e) = add_with_namespace m.tasks ns t in (record m { tasks = l }, e)

abbrev pub deleting : TaskManager → (ns id : ℕ) → How → Loads → TaskManager
deleting m ns id how w = record m {
  deletions = m.deletions ++ (record { ns = ns; id = id; how = how; err = w.delete_err } ∷ []);
}

-- The deferred function of `loadingTask`.
abbrev pub or_delete : (ns id : ℕ) → Loads → TaskManager × Option Error → TaskManager × Option Error
or_delete ns id w (m, none) = (m, none)
or_delete ns id w (m, some e) = (deleting m ns id by_bundle w, some e)

abbrev pub bundle_loaded : TaskManager → (ns : ℕ) → Loads → TaskManager × Option Error
bundle_loaded m ns w = elim w.container_err [
  | some e ↦ (m, some e)
  | none ↦ elim w.task [ fails e ↦ (m, some e) | returns t ↦ add_task m ns t ]
]

-- `loadingTask`
unfoldable pub loading_task : TaskManager → (id ns : ℕ) → Loads → TaskManager × Option Error
unfolding add_task
loading_task m id ns w = elim w.bundle_err [
  | some e ↦ (deleting m ns id by_path w, some e)
  | none ↦ or_delete ns id w (bundle_loaded m ns w)
]

-- An entry of a directory; `first` is the first character of its name, if the name has one.
pub record DirEntry (A : Type 0) : Type 0 where
  pub name : ℕ
  pub first : Option ℕ
  pub is_dir : Bool
  pub content : A

abbrev pub is_hidden : Option ℕ → Bool
is_hidden none = false
is_hidden (some c) = c == 46

abbrev pub is_loaded : {A : Type 0} → DirEntry A → Bool
is_loaded d = d.is_dir && not (is_hidden d.first)

-- The loop of `loadingTasks`; errors are only logged.
unfoldable pub loading_tasks : TaskManager → (ns : ℕ) → List (DirEntry Loads) → TaskManager
unfolding loading_task
loading_tasks m ns [] = m
loading_tasks m ns (d ∷ ds) =
    loading_tasks (if is_loaded d then (loading_task m d.name ns d.content).0 else m) ns ds

-- `loadingTasks` on what it reads.
abbrev pub loading_read : TaskManager → (ns : ℕ) → Result (List (DirEntry Loads)) → TaskManager
loading_read m ns (fails e) = m
loading_read m ns (returns ds) = loading_tasks m ns ds

abbrev pub NamespaceDir : Type 0
NamespaceDir = DirEntry (Result (List (DirEntry Loads)))

-- The loop of `loadingTaskByNamespaces`.
unfoldable pub loading_namespaces : TaskManager → List NamespaceDir → TaskManager
unfolding loading_tasks
loading_namespaces m [] = m
loading_namespaces m (d ∷ ds) =
    loading_namespaces (if is_loaded d then loading_read m d.name d.content else m) ds

-- `New`, given the error of making its directories and what it reads of the state directory.
unfoldable pub new_manager : Option Error → Result (List NamespaceDir) → Result TaskManager
unfolding loading_namespaces
new_manager (some e) dirs = fails e
new_manager none (fails e) = fails e
new_manager none (returns dirs) =
    returns (loading_namespaces (record { tasks = new_task_list; deletions = [] }) dirs)

-- `Create`: the task and the error, given those of `NewBundle` and of `LoadTask`.
unfoldable pub create :
    TaskManager
    → (ns : Option ℕ) → (bundle_err : Option Error) → Result TaskRef
    → TaskManager × (Option TaskRef × Option Error)
unfolding add_task
create m none bundle_err task = (m, (none, some namespace_required))
create m (some ns) (some e) task = (m, (none, some e))
create m (some ns) none (fails e) = (m, (none, some e))
create m (some ns) none (returns t) = let (m', e) = add_task m ns t in (m', (some t, e))
