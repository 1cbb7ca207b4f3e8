-- ===== src/Bundle/Commands.antt =====
-- The commands of common/cmd.go: names of binaries, and the table of paths.
use systemd_runtime.Common.{
  List, [], ◌∷◌, ◌++◌, Option, none, some, true, false, ◌≡◌, refl, ap, sym, ◌∙◌, arith, Bool-cases,
  Option-cases, inl, inr, ◌==◌,
}
use systemd_runtime.Common.Texts.{Text, codes, text_eq, is_empty}
use systemd_runtime.Bundle.Command.{
  split_dots, last_two, binary_name, Paths, load, CommandAnswers, Cmd, CommandError, Request,
  systemd_command, command_path, named_command, made_cmd,
}

-- A text without a dot.
abbrev pub IsPart : Text → Type 0
IsPart [] = Unit {0}
IsPart (c ∷ s) = ((c == b'.') ≡ false) × IsPart s

split-IsPart : (t : Text) → IsPart t → split_dots t ≡ t ∷ []
unfolding split_dots
split-IsPart [] h = refl
split-IsPart (c ∷ t) (h, hs) = rw (h, split-IsPart t hs) refl

split-append : (t rest : Text) → IsPart t → split_dots (t ++ (b'.' ∷ rest)) ≡ t ∷ split_dots rest
unfolding split_dots
split-append [] rest h = refl
split-append (c ∷ t) rest (h, hs) = rw (h, split-append t rest hs) refl

split_front :
    (s rest : Text)
    → (h : Text) × (t : List Text) × (split_dots (s ++ (b'.' ∷ rest)) ≡ (h ∷ t) ++ split_dots rest)
unfolding split_dots
split_front [] rest = ([], [], refl)
split_front (c ∷ s) rest =
    let (h, t, e) = split_front s rest in
    elim (Bool-cases (c == b'.')) [
      | inl d ↦ ([], h ∷ t, rw (d, e) refl)
      | inr d ↦ (c ∷ h, t, rw (d, e) refl)
    ]

last_two-append : (q : List Text) (x y : Text) → last_two (q ++ (x ∷ (y ∷ []))) ≡ some (x, y)
unfolding last_two
last_two-append [] x y = refl
last_two-append (h ∷ []) x y = refl
last_two-append (h ∷ (i ∷ [])) x y = refl
last_two-append (h ∷ (i ∷ (k ∷ t))) x y = last_two-append (i ∷ (k ∷ t)) x y

two_parts : (x y : Text) → IsPart x → IsPart y → split_dots (x ++ (b'.' ∷ y)) ≡ x ∷ (y ∷ [])
two_parts x y hx hy = split-append x y hx ∙ ap (λ l. x ∷ l) (split-IsPart y hy)

-- The binary of a runtime is named by the last two parts of the name of the runtime, whatever stands
-- before them and whether or not anything does; a name of one part has no binary.
binary_name_lem :
    (s x y : Text)
    → IsPart x
    → IsPart y
    → (binary_name (s ++ (b'.' ∷ (x ++ (b'.' ∷ y))))
        ≡ codes "containerd-shim-" ++ (x ++ (codes "-" ++ y)))
      × (binary_name (x ++ (b'.' ∷ y)) ≡ codes "containerd-shim-" ++ (x ++ (codes "-" ++ y)))
      × (binary_name x ≡ [])
unfolding binary_name last_two
binary_name_lem s x y hx hy =
    let (h, t, e) = split_front s (x ++ (b'.' ∷ y)) in
    let long = e ∙ ap (λ l. (h ∷ t) ++ l) (two_parts x y hx hy) in
    (
      rw (long, last_two-append (h ∷ t) x y) refl,
      rw (two_parts x y hx hy) refl,
      rw (split-IsPart x hx) refl,
    )

text_eq_refl : (t : Text) → text_eq t t ≡ true
text_eq_refl [] = refl
text_eq_refl (c ∷ t) = ground (arith, text_eq_refl t)

-- The table has the path that was given.
load-command_path :
    (a : CommandAnswers) (name : Text) (m : Paths)
    → (command_path a name m (load name m)).1.0 ≡ none
    → load name (command_path a name m (load name m)).0
      ≡ some (command_path a name m (load name m)).1.1
unfolding command_path load
load-command_path a name m h = ground (arith, text_eq_refl name)

made_cmd-path :
    (a : CommandAnswers) (r : Request) (res : Option CommandError × Text) (cmd : Cmd)
    → made_cmd a r res ≡ (none, some cmd)
    → (res.0 ≡ none) × (cmd.cmd_path ≡ res.1)
unfolding made_cmd
made_cmd-path a r (some e, p) cmd h = ground arith
made_cmd-path a r (none, p) cmd h = (refl, ground arith)

named_command-load :
    (a : CommandAnswers) (r : Request) (name : Text) (m : Paths) (cmd : Cmd)
    → (named_command a r name m).1 ≡ (none, some cmd)
    → (is_empty name ≡ false) × (load name (named_command a r name m).0 ≡ some cmd.cmd_path)
unfolding named_command
named_command-load a r name m cmd h = elim (Bool-cases (is_empty name)) [
  | inl e ↦ ground arith
  | inr e ↦
      let (n, p) = made_cmd-path a r (command_path a name m (load name m)).1 cmd (rw e at h) in
      (e, rw e (load-command_path a name m n ∙ ap some (sym p)))
]

named_command-found :
    (a : CommandAnswers) (r : Request) (name : Text) (m : Paths) {p : Text}
    → is_empty name ≡ false
    → load name m ≡ some p
    → named_command a r name m ≡ (m, made_cmd a r (none, p))
unfolding named_command command_path
named_command-found a r name m e h = rw (e, h) refl

-- The command that is made with this path.
abbrev pub cmd_with : CommandAnswers → Request → Text → Cmd
cmd_with a r p = record {
  cmd_path = p;
  args =
      (codes "-namespace"
        ∷ r.namespace
        ∷ codes "-address"
        ∷ r.address
        ∷ codes "-publish-binary"
        ∷ a.self
        ∷ [])
      ++ r.cmd_args;
  working_path = r.path;
  env = a.environ ++ (codes "GOMAXPROCS=2" ∷ (codes "TTRPC_ADDRESS=" ++ r.ttrpc_address) ∷ []);
}

-- Once a command was made, each later call for a runtime of the same binary makes one with the same path
-- and leaves the table as it is, whatever the search for the binary would answer then; its arguments,
-- its directory and its environment are those of the later request. The path of this program can
-- be had.
systemd_command_cached :
    (a a' : CommandAnswers) (r r' : Request) (m : Paths) (cmd : Cmd)
    → (systemd_command a r m).1 ≡ (none, some cmd)
    → binary_name r'.runtime ≡ binary_name r.runtime
    → a'.self_err ≡ none
    → systemd_command a' r' (systemd_command a r m).0
      ≡ ((systemd_command a r m).0, (none, some (cmd_with a' r' cmd.cmd_path)))
unfolding systemd_command made_cmd
systemd_command_cached a a' r r' m cmd h n s = elim (Option-cases a.self_err) [
  | inr (e, x) ↦ ground arith
  | inl x ↦
      let (given, at_name) = named_command-load a r (binary_name r.runtime) m cmd (rw x at h) in
      rw (s, x, n)
        (named_command-found a' r' (binary_name r.runtime)
          (named_command a r (binary_name r.runtime) m).0 given at_name)
]
