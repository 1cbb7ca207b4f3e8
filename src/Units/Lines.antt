-- ===== src/Units/Lines.antt =====
-- The unit files that systemd/file.go prints, read again line by line.
use systemd_runtime.Common.{
  List, [], ◌∷◌, ◌++◌, Option, none, some, Bool, Bool-cases, inl, inr, ◌==◌, if◌then◌else◌, true,
  false, ◌≡◌, refl, ap, ◌∙◌, map, arith,
}
use mathlib.Core.List.{append_assoc, append-nil}
use systemd_runtime.Common.Texts.{
  Text, codes, join, newline, lines, IsLine, AreLines, strip, add_some, values, lines-IsLine,
}
use systemd_runtime.Units.{Detail, print, print_env}

-- An environment entry as it stands in a unit file.
abbrev pub quoted : Text → Text
quoted env = codes "\"" ++ (env ++ codes "\"")

-- The details of which each part is one line.
pub record IsPrintable (d : Detail) : Type 0 where
  pub description : IsLine d.unit.description
  pub kind : IsLine d.service.kind
  pub working_directory : IsLine d.service.working_directory
  pub environment : AreLines d.service.environment
  pub exec_start : IsLine (join (codes " ") d.service.exec_start)
  pub wanted_by : IsLine d.install.wanted_by

-- The lines for the environment; there is an empty one if it is empty.
abbrev pub env_lines : List Text → List Text
env_lines [] = [] ∷ []
env_lines (e ∷ es) = map print_env (e ∷ es)

-- The lines of a unit file.
abbrev pub unit_lines : Detail → List Text
unit_lines d =
    codes "[Unit]"
    ∷ ((codes "Description=" ++ d.unit.description)
        ∷ (codes "[Service]"
            ∷ ((codes "Type=" ++ d.service.kind)
                ∷ (codes "Restart=always"
                    ∷ (codes "TimeoutStopSec=15"
                        ∷ ((codes "WorkingDirectory=" ++ d.service.working_directory)
                            ∷ (env_lines d.service.environment
                                ++ ((codes "ExecStart=" ++ join (codes " ") d.service.exec_start)
                                    ∷ (codes "[Install]"
                                        ∷ ((codes "WantedBy=" ++ d.install.wanted_by) ∷ []))))))))))

-- The text of a unit file with the newline behind each line.
flat :
    (d : Detail)
    → print d
      ≡ codes "[Unit]\nDescription="
        ++ (d.unit.description
            ++ (newline
                ∷ (codes "[Service]\nType="
                    ++ (d.service.kind
                        ++ (codes "\nRestart=always\nTimeoutStopSec=15\nWorkingDirectory="
                            ++ (d.service.working_directory
                                ++ (newline
                                    ∷ (join (codes "\n") (map print_env d.service.environment)
                                        ++ (newline
                                            ∷ (codes "ExecStart="
                                                ++ (join (codes " ") d.service.exec_start
                                                    ++ (newline
                                                        ∷ (codes "[Install]\nWantedBy="
                                                            ++ (d.install.wanted_by
                                                            ++ (newline ∷ [])))))))))))))))
unfolding print
flat d = simp (append_assoc)

IsLine-append : (a b : Text) → IsLine a → IsLine b → IsLine (a ++ b)
IsLine-append [] b h k = k
IsLine-append (c ∷ a) b (h, hs) k = (h, IsLine-append a b hs k)

abbrev has_no_newline : Text → Bool
has_no_newline [] = true
has_no_newline (c ∷ s) = if c == newline then false else has_no_newline s

has_no_newline→IsLine : (t : Text) → has_no_newline t ≡ true → IsLine t
has_no_newline→IsLine [] h = tt
has_no_newline→IsLine (c ∷ s) h = elim (Bool-cases (c == newline)) [
  | inl e ↦ ground arith
  | inr e ↦ (e, has_no_newline→IsLine s (ground arith))
]

env-IsLine : (e : Text) → IsLine e → IsLine (print_env e)
unfolding print_env
env-IsLine e h =
    IsLine-append (codes "Environment=\"") (e ++ codes "\"")
      (has_no_newline→IsLine (codes "Environment=\"") refl)
      (IsLine-append e (codes "\"") h (refl, tt))

envs-AreLines : (es : List Text) → AreLines es → AreLines (map print_env es)
envs-AreLines [] h = tt
envs-AreLines (e ∷ es) (h, hs) = (env-IsLine e h, envs-AreLines es hs)

-- A non-empty list of lines that is joined and ended by a newline.
join-lines :
    (t : Text) (ts : List Text) (rest : Text)
    → AreLines (t ∷ ts)
    → lines (join (codes "\n") (t ∷ ts) ++ (newline ∷ rest)) ≡ (t ∷ ts) ++ lines rest
join-lines t [] rest (h, hs) = lines-IsLine t rest h
join-lines t (u ∷ us) rest (h, hs) =
    ap lines (append_assoc t (newline ∷ join (codes "\n") (u ∷ us)) (newline ∷ rest))
    ∙ (lines-IsLine t (join (codes "\n") (u ∷ us) ++ (newline ∷ rest)) h
        ∙ ap (λ l. t ∷ l) (join-lines u us rest hs))

env_lines_lem :
    (es : List Text) (rest : Text)
    → AreLines es
    → lines (join (codes "\n") (map print_env es) ++ (newline ∷ rest)) ≡ env_lines es ++ lines rest
env_lines_lem [] rest h = refl
env_lines_lem (e ∷ es) rest h =
    join-lines (print_env e) (map print_env es) rest (envs-AreLines (e ∷ es) h)

-- The lines of the text that is printed for one-line parts.
print-lines : (d : Detail) → IsPrintable d → lines (print d) ≡ unit_lines d
print-lines d h =
    ap lines (flat d)
    ∙ rw
        (
          lines-IsLine d.unit.description _ h.description,
          lines-IsLine d.service.kind _ h.kind,
          lines-IsLine d.service.working_directory _ h.working_directory,
          env_lines_lem d.service.environment _ h.environment,
          lines-IsLine (join (codes " ") d.service.exec_start) _ h.exec_start,
          lines-IsLine d.install.wanted_by _ h.wanted_by,
        )
        refl

add_some-append : (o : Option Text) (a b : List Text) → add_some o (a ++ b) ≡ add_some o a ++ b
add_some-append none a b = refl
add_some-append (some t) a b = refl

values-append : (key : Text) (a b : List Text) → values key (a ++ b) ≡ values key a ++ values key b
values-append key [] b = refl
values-append key (l ∷ a) b =
    rw (values-append key a b) (add_some-append (strip key l) (values key a) (values key b))

values-env : (es : List Text) → values (codes "Environment=") (env_lines es) ≡ map quoted es
unfolding print_env
values-env [] = refl
values-env (e ∷ []) = refl
values-env (e ∷ (f ∷ es)) = ap (λ ts. quoted e ∷ ts) (values-env (f ∷ es))

-- A key that no entry of the environment begins with.
values-entries :
    (key : Text) (es : List Text)
    → ((e : Text) → strip key (print_env e) ≡ none)
    → values key (map print_env es) ≡ []
values-entries key [] h = refl
values-entries key (e ∷ es) h = rw (h e) (values-entries key es h)

values-before :
    (key : Text) (es rest : List Text)
    → strip key [] ≡ none
    → ((e : Text) → strip key (print_env e) ≡ none)
    → values key (env_lines es ++ rest) ≡ values key rest
values-before key [] rest n h = rw n
values-before key (e ∷ es) rest n h =
    values-append key (map print_env (e ∷ es)) rest
    ∙ ap (λ ts. ts ++ values key rest) (values-entries key (e ∷ es) h)

-- A unit file that is printed for details of which each part is one line reads back, line by line and
-- key by key, as these details: each key but `Environment` has exactly one value, which is the part
-- (for `ExecStart` the words joined by spaces), `Environment` has the entries in their order and in
-- quotes, and `Restart` is `always`.
pub print_lem :
    (d : Detail)
    → IsPrintable d
    → (lines (print d) ≡ unit_lines d)
      × (values (codes "Description=") (lines (print d)) ≡ d.unit.description ∷ [])
      × (values (codes "Type=") (lines (print d)) ≡ d.service.kind ∷ [])
      × (values (codes "Restart=") (lines (print d)) ≡ codes "always" ∷ [])
      × (values (codes "WorkingDirectory=") (lines (print d)) ≡ d.service.working_directory ∷ [])
      × (values (codes "Environment=") (lines (print d)) ≡ map quoted d.service.environment)
      × (values (codes "ExecStart=") (lines (print d)) ≡ join (codes " ") d.service.exec_start ∷ [])
      × (values (codes "WantedBy=") (lines (print d)) ≡ d.install.wanted_by ∷ [])
unfolding print_env
print_lem d h =
    let es = d.service.environment in
    rw (print-lines d h) (
      refl,
      ap (λ ts. d.unit.description ∷ ts)
          (values-before (codes "Description=") es _ refl (λ e. refl)),
      ap (λ ts. d.service.kind ∷ ts) (values-before (codes "Type=") es _ refl (λ e. refl)),
      ap (λ ts. codes "always" ∷ ts) (values-before (codes "Restart=") es _ refl (λ e. refl)),
      ap (λ ts. d.service.working_directory ∷ ts)
          (values-before (codes "WorkingDirectory=") es _ refl (λ e. refl)),
      values-append (codes "Environment=") (env_lines es) _
          ∙ (append-nil (values (codes "Environment=") (env_lines es)) ∙ values-env es),
      values-before (codes "ExecStart=") es _ refl (λ e. refl),
      values-before (codes "WantedBy=") es _ refl (λ e. refl),
    )
