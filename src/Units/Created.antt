-- ===== src/Units/Created.antt =====
-- The files of units under the operations of systemd/manager.go.
use systemd_runtime.Common.{ℕ, none, some, ◌≡◌, refl, arith, ◌==◌, if◌then◌else◌}
use systemd_runtime.Common.Maps.{lookup, insert, lookup-insert, lookup-erase}
use systemd_runtime.Common.Texts.{Text}
use systemd_runtime.Units.{
  Detail, Systemd, Answers, print, create, get_unit, delete_if_present, unit_exists, os_error,
  UnitError,
}

-- `Create` that succeeds.
pub create_made :
    (s : Systemd) (a : Answers) (name : ℕ) (d : Detail)
    → (create s a name d).1 ≡ none
    → (lookup name s.files ≡ none)
      × ((create s a name d).0 ≡ record s { files = insert name (print d) s.files })
unfolding create
create_made s a name d h = ground arith

-- After `Create` without an error there was no file for the unit and there is one now, with the printed
-- details; no other file has changed, and systemctl was not called. Then `GetUnit` finds the unit,
-- and deleting it leaves the files as they were before. The file can be looked for and removed.
pub create_lem :
    (s : Systemd) (a a' : Answers) (name : ℕ) (d : Detail)
    → (create s a name d).1 ≡ none
    → a'.stat_err ≡ none
    → a'.remove_err ≡ none
    → (lookup name s.files ≡ none)
      × ((j : ℕ)
          → lookup j (create s a name d).0.files
            ≡ (if name == j then some (print d) else lookup j s.files))
      × ((create s a name d).0.calls ≡ s.calls)
      × (get_unit (create s a name d).0 a' name ≡ none)
      × ((j : ℕ)
          → lookup j (delete_if_present (create s a name d).0 a' name).0.files ≡ lookup j s.files)
unfolding get_unit delete_if_present
create_lem s a a' name d h st re =
    let (m, e) = create_made s a name d h in
    rw e (
      m,
      λ j. lookup-insert j name (print d) s.files,
      refl,
      ground (arith, lookup-insert name name (print d) s.files),
      deleted,
    )
  where
    deleted :
        (j : ℕ)
        → lookup j
            (delete_if_present (record s { files = insert name (print d) s.files }) a' name).0.files
          ≡ lookup j s.files
    deleted j = ground (
      arith,
      (create_made s a name d h).0,
      lookup-insert name name (print d) s.files,
      lookup-insert j name (print d) s.files,
      lookup-erase j name (insert name (print d) s.files),
    )

-- A unit file that cannot be written as a whole stays: `Create` fails, and then every `Create` for this
-- unit fails, because there is a unit of that name. There was no file, it can be opened, and it can be
-- looked for.
failed_write_blocks :
    (s : Systemd) (a a' : Answers) (name e : ℕ) (part : Text) (d d' : Detail)
    → lookup name s.files ≡ none
    → a.stat_err ≡ none
    → a.open_err ≡ none
    → a.write_err ≡ some (part, e)
    → a'.stat_err ≡ none
    → ((create s a name d).1 ≡ some (os_error e))
      × (create (create s a name d).0 a' name d' ≡ ((create s a name d).0, some unit_exists))
unfolding create
failed_write_blocks s a a' name e part d d' m st op wr st' =
    ground (arith, lookup-insert name name part s.files)

-- `Create` that fails, but not in writing the file, changes nothing.
pub create_refused :
    (s : Systemd) (a : Answers) (name : ℕ) (d : Detail) {e : UnitError}
    → (create s a name d).1 ≡ some e
    → a.write_err ≡ none
    → a.close_err ≡ none
    → (create s a name d).0 ≡ s
unfolding create
create_refused s a name d h w c = ground arith
