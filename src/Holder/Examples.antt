-- ===== src/Holder/Examples.antt =====
-- A container that is made, read and deleted (shim/ctnholder.go).
use systemd_runtime.Common.{◌≡◌, refl, none, true, false}
use systemd_runtime.Holder.{
  ContainerHolder, new_holder, new_container, supplied, get_locked_container,
  get_locked_container_for_delete, finish_delete, refused, container_deleted,
}
use systemd_runtime.Holder.Guard.{
  Steps, makes, gets_for_delete, gets, rests, steps, IsGuarded, IsOver, guarded,
}

abbrev made : ContainerHolder
made = (new_container new_holder (supplied 42)).0

abbrev deleting : ContainerHolder
deleting = (get_locked_container_for_delete made).0

abbrev gone : ContainerHolder
gone = finish_delete deleting

deleting-Steps : Steps new_holder deleting
unfolding new_holder new_container get_locked_container_for_delete
deleting-Steps =
    steps (makes new_holder (supplied 42) refl refl) (steps (gets_for_delete made refl refl) rests)

deleting-writing : deleting.writing ≡ true
unfolding new_holder new_container get_locked_container_for_delete
deleting-writing = refl

asked-Steps : Steps gone (get_locked_container gone).0
unfolding finish_delete
asked-Steps = steps (gets gone refl) rests

guarded_example :
    IsGuarded deleting
    × IsGuarded (get_locked_container gone).0
    × (gone.container ≡ none)
    × (gone.writing ≡ false)
    × ((get_locked_container gone).1 ≡ refused container_deleted)
    × ((get_locked_container_for_delete gone).1 ≡ refused container_deleted)
    × IsOver (get_locked_container gone).0
guarded_example = guarded deleting-Steps deleting-writing asked-Steps
