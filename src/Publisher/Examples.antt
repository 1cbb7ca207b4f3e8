-- ===== src/Publisher/Examples.antt =====
-- An event that is tried twice.
use systemd_runtime.Common.{[], ◌∷◌, some, none, refl, arith}
use systemd_runtime.Publisher.{
  Publisher, Answers, Item, new_publisher, publish, process_item, forward_request, other, closed,
}
use systemd_runtime.Publisher.Delivery.{
  Reach, start, next, publishes, wakes, processes, IsKept, Reach-IsKept,
}

-- The connection is lost, and cannot be made again.
abbrev lost : Answers
lost = record {
  service_err = none;
  forward_err = some closed;
  reconnect_err = some (other 1);
  new_service_err = none;
  second_err = none;
}

abbrev first : Publisher
first = (publish new_publisher 7 lost).0

abbrev tried : Item
tried = record { event = 7; count = 1 }

abbrev awake : Publisher
awake = record first { delayed = []; requeue = tried ∷ [] }

awake-Reach : Reach awake
unfolding publish forward_request
awake-Reach =
    next (next start (publishes new_publisher 7 lost)) (wakes first [] [] tried refl (omega arith))

Reach-IsKept_example : IsKept (process_item (record awake { requeue = [] }) tried lost)
Reach-IsKept_example = Reach-IsKept (next awake-Reach (processes awake tried [] lost refl))
