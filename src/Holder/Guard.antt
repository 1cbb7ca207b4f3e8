-- ===== src/Holder/Guard.antt =====
-- The interleavings of the users of shim/ctnholder.go.
use systemd_runtime.Common.{◌<◌, ◌≡◌, refl, none, some, true, false, is_some, arith}
use systemd_runtime.Holder.{
  ContainerHolder, Supplied, new_holder, new_container, get_locked_container, unlock_container,
  get_locked_container_for_delete, finish_delete, cancel_delete, is_deleted, got, refused,
  container_deleted,
}

-- A call that locks waits for the lock; a function that was returned is called by who has the lock.
pub data Step : ContainerHolder → ContainerHolder → Type 0 where
  makes :
      (h : ContainerHolder) (s : Supplied)
      → h.readers ≡ 0
      → h.writing ≡ false
      → Step h (new_container h s).0
  gets : (h : ContainerHolder) → h.writing ≡ false → Step h (get_locked_container h).0
  unlocks : (h : ContainerHolder) → 0 < h.readers → Step h (unlock_container h)
  gets_for_delete :
      (h : ContainerHolder)
      → h.readers ≡ 0
      → h.writing ≡ false
      → Step h (get_locked_container_for_delete h).0
  finishes : (h : ContainerHolder) → h.writing ≡ true → Step h (finish_delete h)
  cancels : (h : ContainerHolder) → h.writing ≡ true → Step h (cancel_delete h)

pub data Steps : ContainerHolder → ContainerHolder → Type 0 where
  rests : {h : ContainerHolder} → Steps h h
  steps : {g h i : ContainerHolder} → Step g h → Steps h i → Steps g i

-- Whoever has the lock has a container, and a reader and a deletion exclude each other.
pub record IsGuarded (h : ContainerHolder) : Type 0 where
  pub reading : 0 < h.readers → (is_some h.container ≡ true) × (h.writing ≡ false)
  pub deleting : h.writing ≡ true → is_some h.container ≡ true

pub Step-IsGuarded : {g h : ContainerHolder} → Step g h → IsGuarded g → IsGuarded h
unfolding new_container get_locked_container unlock_container get_locked_container_for_delete
    finish_delete cancel_delete
Step-IsGuarded (makes h s r w) v = ground arith
Step-IsGuarded (gets h w) v = ground arith
Step-IsGuarded (unlocks h r) v = ground arith
Step-IsGuarded (gets_for_delete h r w) v = ground arith
Step-IsGuarded (finishes h w) v = ground arith
Step-IsGuarded (cancels h w) v = ground arith

new_holder-IsGuarded : IsGuarded new_holder
unfolding new_holder
new_holder-IsGuarded = ground arith

Step-deleted : {g h : ContainerHolder} → Step g h → is_deleted g ≡ true → is_deleted h ≡ true
unfolding new_container get_locked_container unlock_container get_locked_container_for_delete
    finish_delete cancel_delete is_deleted
Step-deleted (makes h s r w) v = ground arith
Step-deleted (gets h w) v = ground arith
Step-deleted (unlocks h r) v = ground arith
Step-deleted (gets_for_delete h r w) v = ground arith
Step-deleted (finishes h w) v = ground arith
Step-deleted (cancels h w) v = ground arith

Steps-IsGuarded : {g h : ContainerHolder} → Steps g h → IsGuarded g → IsGuarded h
Steps-IsGuarded rests v = v
Steps-IsGuarded (steps st rest) v = Steps-IsGuarded rest (Step-IsGuarded st v)

Steps-deleted : {g h : ContainerHolder} → Steps g h → is_deleted g ≡ true → is_deleted h ≡ true
Steps-deleted rests v = v
Steps-deleted (steps st rest) v = Steps-deleted rest (Step-deleted st v)

-- `IsGuarded` of a holder whose container was deleted: it says so, and refuses readers and deleters
-- with `ErrContainerDeleted` unless a new container was made.
pub record IsOver (h : ContainerHolder) : Type 0 where
  pub deleted : is_deleted h ≡ true
  pub reader :
      (get_locked_container h).1
      ≡ elim h.container [ none ↦ refused container_deleted | some c ↦ got c ]
  pub deleter :
      (get_locked_container_for_delete h).1
      ≡ elim h.container [ none ↦ refused container_deleted | some c ↦ got c ]

deleted-IsOver : (h : ContainerHolder) → is_deleted h ≡ true → IsOver h
unfolding get_locked_container get_locked_container_for_delete is_deleted
deleted-IsOver h d = ground arith

finished : (h : ContainerHolder) → is_deleted (finish_delete h) ≡ true
unfolding finish_delete is_deleted
finished h = refl

emptied :
    (h : ContainerHolder)
    → let k = finish_delete h in
      (k.container ≡ none)
      × (k.writing ≡ false)
      × ((get_locked_container k).1 ≡ refused container_deleted)
      × ((get_locked_container_for_delete k).1 ≡ refused container_deleted)
unfolding finish_delete get_locked_container get_locked_container_for_delete
emptied h = (refl, refl, refl, refl)

-- In every interleaving from a new holder on: who reads the container or is about to delete it finds
-- it there, and no one reads while one deletes. When the one who deletes calls the release function,
-- the holder has no container and its lock is free, and a reader and another deleter are refused with
-- `ErrContainerDeleted`. From then on the holder says for ever that a container was deleted, and in
-- every later state both are refused with that error unless a new container was made.
pub guarded :
    {g h : ContainerHolder}
    → Steps new_holder g
    → g.writing ≡ true
    → Steps (finish_delete g) h
    → IsGuarded g
      × IsGuarded h
      × ((finish_delete g).container ≡ none)
      × ((finish_delete g).writing ≡ false)
      × ((get_locked_container (finish_delete g)).1 ≡ refused container_deleted)
      × ((get_locked_container_for_delete (finish_delete g)).1 ≡ refused container_deleted)
      × IsOver h
guarded {g} {h} a w b =
    let v = Steps-IsGuarded a new_holder-IsGuarded in
    let (none_left, free, reader, deleter) = emptied g in
    (
      v,
      Steps-IsGuarded b (Step-IsGuarded (finishes g w) v),
      none_left,
      free,
      reader,
      deleter,
      deleted-IsOver h (Steps-deleted b (finished g)),
    )
