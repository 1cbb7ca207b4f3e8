-- ===== src/Bundle/Made.antt =====
-- What `NewBundle` of bundle/utils.go leaves when it fails, and what it makes.
use systemd_runtime.Common.{
  ℕ, ◌∷◌, Option, none, some, ◌≡◌, ◌⊎◌, inl, refl, ap, sym, ◌∙◌, arith, ◌==◌, if◌then◌else◌,
}
use systemd_runtime.Common.Maps.{lookup, insert, lookup-insert}
use systemd_runtime.Units.{
  Systemd, Detail, print, enable, create, enable_unit, UnitError, systemctl_error,
}
use systemd_runtime.Units.Created.{create_made, create_refused}
use systemd_runtime.Bundle.Spec.{Spec, spec_ok, spec_panics}
use systemd_runtime.Bundle.Making.{
  Disk, no_work, new_work, MakeAnswers, Result, returns, panics, new_bundle, unit_enabled,
  unit_created, command_found, id_valid,
}
use systemd_runtime.Bundle.Undone.{CanUndo, Tidy, whole_bundle}
use systemd_runtime.Bundle.Stages.{unit_enabled-Tidy}

-- What is said of each outcome of `NewBundle`.
abbrev pub MadeOrSame :
    (a : MakeAnswers) (name j : ℕ) (detail : Detail) (d : Disk) → Result → Type 0
MadeOrSame a name j detail d (returns d' (some e)) =
    (d'.bundle ≡ d.bundle)
    × ((d'.work ≡ d.work) ⊎ (d'.work ≡ no_work))
    × (lookup j d'.systemd.files ≡ lookup j d.systemd.files)
MadeOrSame a name j detail d (returns d' none) =
    (spec : Spec) × (a.spec.1 ≡ spec_ok spec)
    × (d'.bundle ≡ some (whole_bundle a.spec.0 spec))
    × (d'.work ≡ new_work)
    × (d'.systemd.calls ≡ (enable, name) ∷ d.systemd.calls)
    × (lookup name d.systemd.files ≡ none)
    × (lookup j d'.systemd.files
        ≡ (if name == j then some (print detail) else lookup j d.systemd.files))
MadeOrSame a name j detail d (panics d') = a.spec.1 ≡ spec_panics

module _ (a : MakeAnswers) (name j : ℕ) (detail : Detail) (can : CanUndo a) where
  -- From what holds once there is the unit to what holds of `NewBundle`.
  Tidy-MadeOrSame :
      (d : Disk) (s : Systemd) (res : Result)
      → lookup name d.systemd.files ≡ none
      → s ≡ record d.systemd {
        files = insert name (print detail) d.systemd.files;
        calls = (enable, name) ∷ d.systemd.calls;
      }
      → Tidy a name j d.bundle d.work s res
      → MadeOrSame a name j detail d res
  Tidy-MadeOrSame d s (returns d' (some e)) m h (b, w, f) =
      let g = ap (λ (t : Systemd). lookup j t.files) h in
      (b, w, ground (arith, lookup-insert j name (print detail) d.systemd.files, f, g, m))
  Tidy-MadeOrSame d s (returns d' none) m h (spec, k, b, w, f) =
      let e = f ∙ h in
      (
        spec,
        k,
        b,
        w,
        ap (λ (t : Systemd). t.calls) e,
        m,
        ap (λ (t : Systemd). lookup j t.files) e
            ∙ lookup-insert j name (print detail) d.systemd.files,
      )
  Tidy-MadeOrSame d s (panics d') m h p = p

  enabled-Tidy :
      (d : Disk) (s : Systemd) (o : Option ℕ)
      → Tidy a name j d.bundle d.work
          (record s { calls = (enable, name) ∷ s.calls })
          (unit_enabled a name d (enable_unit s name o))
  unfolding enable_unit
  enabled-Tidy d s none = unit_enabled-Tidy a name j can d _ none
  enabled-Tidy d s (some e) = unit_enabled-Tidy a name j can d _ (some (systemctl_error e))

  created-MadeOrSame :
      (d : Disk) (r : Systemd × Option UnitError)
      → create d.systemd a.unit name detail ≡ r
      → a.unit.write_err ≡ none
      → a.unit.close_err ≡ none
      → MadeOrSame a name j detail d (unit_created a name d r)
  unfolding unit_created enable_unit
  created-MadeOrSame d (s, some e) h wr cl =
      let same =
        create_refused d.systemd a.unit name detail (ap (λ (r : Systemd × Option UnitError). r.1) h)
          wr cl in
      (
        refl,
        inl refl,
        ap (λ (r : Systemd × Option UnitError). lookup j r.0.files) (sym h)
            ∙ ap (λ (t : Systemd). lookup j t.files) same,
      )
  created-MadeOrSame d (s, none) h wr cl =
      let (m, e) =
        create_made d.systemd a.unit name detail (ap (λ (r : Systemd × Option UnitError). r.1) h) in
      let e' = ap (λ (r : Systemd × Option UnitError). r.0) (sym h) ∙ e in
      Tidy-MadeOrSame d (record s { calls = (enable, name) ∷ s.calls })
        (unit_enabled a name d (enable_unit s name a.enable)) m
        (ap (λ (t : Systemd). record t { calls = (enable, name) ∷ t.calls }) e')
        (enabled-Tidy d s a.enable)

-- `NewBundle` that fails leaves the directory of the bundle, the working directory and the unit files as
-- they were, or else the working directory is removed; so it removes no bundle that was there. If it
-- succeeds, the bundle has all its parts with the processed specification, the working
-- directory is new, there is a new unit file with the printed details, no other one has changed, and
-- the unit was enabled. It panics only where processing the specification does. The deferred calls
-- are taken to succeed, and the unit file, once opened, to be written and closed.
pub new_bundle_lem :
    (a : MakeAnswers) (name j : ℕ) (detail : Detail) (d : Disk)
    → CanUndo a
    → a.unit.write_err ≡ none
    → a.unit.close_err ≡ none
    → MadeOrSame a name j detail d (new_bundle a name detail d)
unfolding new_bundle command_found id_valid
new_bundle_lem a name j detail d can wr cl = id_valid-MadeOrSame a.id_err
  where
    command_found-MadeOrSame :
        (o : Option ℕ) → MadeOrSame a name j detail d (command_found a name detail d o)
    command_found-MadeOrSame (some e) = (refl, inl refl, refl)
    command_found-MadeOrSame none =
        created-MadeOrSame a name j detail can d (create d.systemd a.unit name detail) refl wr cl

    id_valid-MadeOrSame : (o : Option ℕ) → MadeOrSame a name j detail d (id_valid a name detail d o)
    id_valid-MadeOrSame (some e) = (refl, inl refl, refl)
    id_valid-MadeOrSame none = command_found-MadeOrSame a.command_err
