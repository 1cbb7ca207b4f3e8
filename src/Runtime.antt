-- ===== src/Runtime.antt =====
-- runtime/task.go: the tasks of all namespaces, in a map of maps under one mutex. Runtime/Manager has
-- runtime/runtime.go.
pub mod Table
pub mod Listing
pub mod Manager
pub mod Loading
mod Examples
use systemd_runtime.Common.Maps.{lookup, insert, erase}
use systemd_runtime.Common.{
  ℕ, List, [], ◌∷◌, ◌++◌, Option, none, some, Bool, ◌==◌, if◌then◌else◌, is_some,
}

-- A `runtime.Task`: which one it is, and its id. Two are equal if they are the same one.
pub record TaskRef : Type 0 where
  pub handle : ℕ
  pub id : ℕ

abbrev pub TaskList : Type 0
TaskList = List (ℕ × List (ℕ × TaskRef))

pub data Error : Type 0 where
  namespace_required task_not_exists : Error
  task_already_exists : (id : ℕ) → Error
  other : ℕ → Error

pub data Result (A : Type 0) : Type 0 where
  returns : A → Result A
  fails : Error → Result A

unfoldable pub new_task_list : TaskList
new_task_list = []

-- `Get`; the namespace is that of the context, if it has one.
unfoldable pub get : TaskList → (ns : Option ℕ) → (id : ℕ) → Result TaskRef
unfolding lookup
get l none id = fails namespace_required
get l (some n) id = elim (lookup n l) [
  | none ↦ fails task_not_exists
  | some tasks ↦ elim (lookup id tasks) [ none ↦ fails task_not_exists | some t ↦ returns t ]
]

unfoldable pub values : List (ℕ × TaskRef) → List TaskRef
values [] = []
values ((k, t) ∷ m) = t ∷ values m

unfoldable pub all_values : TaskList → List TaskRef
unfolding values
all_values [] = []
all_values ((n, m) ∷ l) = values m ++ all_values l

-- `GetAll`
unfoldable pub get_all : TaskList → (no_ns : Bool) → (ns : Option ℕ) → Result (List TaskRef)
unfolding lookup values all_values
get_all l no_ns ns = if no_ns then returns (all_values l) else elim ns [
  | none ↦ fails namespace_required
  | some n ↦ elim (lookup n l) [ none ↦ returns [] | some tasks ↦ returns (values tasks) ]
]

-- The map of a namespace, made if it is missing.
abbrev pub with_namespace : ℕ → TaskList → TaskList
with_namespace n l = if is_some (lookup n l) then l else insert n [] l

abbrev pub tasks_of : Option (List (ℕ × TaskRef)) → List (ℕ × TaskRef)
tasks_of none = []
tasks_of (some tasks) = tasks

-- `AddWithNamespace`: its error.
unfoldable pub add_with_namespace : TaskList → ℕ → TaskRef → TaskList × Option Error
unfolding lookup insert
add_with_namespace l n t =
    let l' = with_namespace n l in
    let tasks = tasks_of (lookup n l') in
    if is_some (lookup t.id tasks)
    then (l', some (task_already_exists t.id))
    else (insert n (insert t.id t tasks) l', none)

remove_from : TaskList → ℕ → List (ℕ × TaskRef) → TaskRef → TaskList
unfolding lookup insert erase
remove_from l n tasks t = elim (lookup t.id tasks) [
  | none ↦ l
  | some u ↦ if u.handle == t.handle then insert n (erase t.id tasks) l else l
]

-- `Remove`: its error.
unfoldable pub remove : TaskList → (ns : Option ℕ) → TaskRef → TaskList × Option Error
unfolding lookup remove_from
remove l none t = (l, some namespace_required)
remove l (some n) t = elim (lookup n l) [
  | none ↦ (l, none)
  | some tasks ↦ (remove_from l n tasks t, none)
]

-- `taskWrap.Delete`, given whether the task is deleted; the error of `Remove` is only logged.
unfoldable pub delete :
    TaskList → (ns : Option ℕ) → TaskRef → (delete_err : Option Error) → TaskList × Option Error
unfolding remove
delete l ns t none = ((remove l ns t).0, none)
delete l ns t (some e) = (l, some e)
