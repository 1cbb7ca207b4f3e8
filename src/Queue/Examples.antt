-- ===== src/Queue/Examples.antt =====
-- Runs of the byte queue of utils/collections/queue/bytes.go.
use systemd_runtime.Common.{List, [], ◌∷◌, none, some, ◌≡◌, refl}
use systemd_runtime.Queue.{
  new_bytes_queue, push_tail, pop_head, peek_head, ensure_capacity, expand, unchecked_realloc,
  push_next, shrink,
}
use systemd_runtime.Queue.Refine.{Op, push, pop, peek, run, list_run, new-run}

-- Six slices into a buffer of five cells, with the head moved on before.
abbrev script : List Op
script =
    push (some (1 ∷ []))
    ∷ push (some (2 ∷ []))
    ∷ pop
    ∷ push none
    ∷ push (some (3 ∷ []))
    ∷ push (some (4 ∷ []))
    ∷ push (some (5 ∷ []))
    ∷ push (some (6 ∷ []))
    ∷ push (some (7 ∷ []))
    ∷ peek
    ∷ pop
    ∷ pop
    ∷ pop
    ∷ pop
    ∷ pop
    ∷ pop
    ∷ pop
    ∷ []

script-run :
    run new_bytes_queue script
    ≡ none
      ∷ none
      ∷ some (some (1 ∷ []))
      ∷ none
      ∷ none
      ∷ none
      ∷ none
      ∷ none
      ∷ none
      ∷ some (some (2 ∷ []))
      ∷ some (some (2 ∷ []))
      ∷ some (some (3 ∷ []))
      ∷ some (some (4 ∷ []))
      ∷ some (some (5 ∷ []))
      ∷ some (some (6 ∷ []))
      ∷ some (some (7 ∷ []))
      ∷ some none
      ∷ []
unfolding run push_tail pop_head peek_head ensure_capacity expand unchecked_realloc push_next shrink
script-run = refl

new-run_example : run new_bytes_queue script ≡ list_run [] script
new-run_example = new-run script
