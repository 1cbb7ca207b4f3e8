-- ===== src/Runtime/Examples.antt =====
-- A table of tasks, and a start of the manager of runtime/runtime.go.
use mathlib.Core.List.{Memᴰ}
use systemd_runtime.Common.{ℕ, List, [], ◌∷◌, none, some, true, false, ◌≡◌, refl}
use systemd_runtime.Runtime.{TaskRef, returns, fails, other, new_task_list, get, get_all}
use systemd_runtime.Runtime.Table.{Call, gets, adds, deletes, answers, spec_answers, new-answers}
use systemd_runtime.Runtime.Listing.{table_after, get_all-get}
use systemd_runtime.Runtime.Manager.{
  Loads, DirEntry, NamespaceDir, TaskManager, loading_namespaces, new_manager,
}
use systemd_runtime.Runtime.Loading.{Settled, new_manager_settles}

abbrev old : TaskRef
old = record { handle = 1; id = 7 }

abbrev young : TaskRef
young = record { handle = 2; id = 7 }

-- A task is deleted, its id is used again, and the old one is deleted once more.
abbrev calls : List Call
calls =
    adds 3 old
    ∷ adds 3 young
    ∷ deletes (some 3) old none
    ∷ adds 3 young
    ∷ deletes (some 3) old none
    ∷ gets (some 3) 7
    ∷ gets (some 4) 7
    ∷ gets none 7
    ∷ []

new-answers_example : answers new_task_list calls ≡ spec_answers (λ n id. none) calls
new-answers_example = new-answers calls

get_all-get_example :
    let l = table_after new_task_list (adds 3 old ∷ adds 4 young ∷ []) in
    (ts : List TaskRef) × (get_all l false (some 3) ≡ returns ts)
    × ((t : TaskRef) → Memᴰ t ts → get l (some 3) t.id ≡ returns t)
    × ((id : ℕ) (t : TaskRef) → get l (some 3) id ≡ returns t → Memᴰ t ts)
get_all-get_example = get_all-get (adds 3 old ∷ adds 4 young ∷ []) 3

-- A bundle whose task is loaded, and one whose container is gone.
abbrev good : DirEntry Loads
good = record {
  name = 7;
  first = some 97;
  is_dir = true;
  content = record {
    bundle_err = none;
    container_err = none;
    task = returns old;
    delete_err = none;
  };
}

abbrev lost : DirEntry Loads
lost = record {
  name = 8;
  first = some 98;
  is_dir = true;
  content = record {
    bundle_err = none;
    container_err = some (other 2);
    task = fails (other 3);
    delete_err = some (other 4);
  };
}

abbrev namespace : NamespaceDir
namespace = record {
  name = 3;
  first = some 99;
  is_dir = true;
  content = returns (lost ∷ good ∷ []);
}

abbrev started : TaskManager
started = loading_namespaces (record { tasks = new_task_list; deletions = [] }) (namespace ∷ [])

-- The first bundle is not loaded, and deleting it fails.
new_manager_settles_example : Settled started 3 8 lost.content
new_manager_settles_example =
    new_manager_settles {m = started} (namespace ∷ []) namespace (lost ∷ good ∷ []) lost
      (unfold new_manager in refl) (Memᴰ.head refl) refl refl (Memᴰ.head refl) refl
