-- ===== src/Bundle/Command.antt =====
-- common/cmd.go: the command of a shim as systemd is to run it, with the table of paths that were found;
-- and the details of the unit that bundle/bundle.go makes of it.
use systemd_runtime.Common.{ℕ, List, [], ◌∷◌, ◌++◌, Option, none, some, Bool, if◌then◌else◌, ◌==◌}
use systemd_runtime.Common.Texts.{Text, codes, add_to_first, text_eq, is_empty}
use systemd_runtime.Units.{Detail}

-- `strings.Split(s, ".")`
unfoldable pub split_dots : Text → List Text
split_dots [] = [] ∷ []
split_dots (c ∷ s) = if c == b'.' then [] ∷ split_dots s else add_to_first c (split_dots s)

-- `parts[len(parts)-2]` and `parts[len(parts)-1]`, if there are two parts.
unfoldable pub last_two : List Text → Option (Text × Text)
last_two [] = none
last_two (x ∷ []) = none
last_two (x ∷ (y ∷ [])) = some (x, y)
last_two (x ∷ (y ∷ (z ∷ r))) = last_two (y ∷ (z ∷ r))

shim_binary : Option (Text × Text) → Text
shim_binary none = []
shim_binary (some (name, version)) = codes "containerd-shim-" ++ (name ++ (codes "-" ++ version))

-- `BinaryName`
unfoldable pub binary_name : Text → Text
unfolding split_dots last_two shim_binary
binary_name runtime = shim_binary (last_two (split_dots runtime))

-- `runtimePaths`, by names of binaries.
abbrev pub Paths : Type 0
Paths = List (Text × Text)

unfoldable pub load : Text → Paths → Option Text
load name [] = none
load name ((k, p) ∷ m) = if text_eq k name then some p else load name m

-- `exec.LookPath`: a path, `exec.ErrNotFound`, or another error with the path that comes with it.
pub data LookPath : Type 0 where
  found : Text → LookPath
  not_found : LookPath
  other_failure : Text → LookPath

-- The answers of one call: the path of this program and its directory, the search for the binary,
-- whether it is beside this program, `filepath.Abs`, what another goroutine has stored since the
-- table was read, and the environment.
pub record CommandAnswers : Type 0 where
  pub self_err : Option ℕ
  pub self : Text
  pub self_dir : Text
  pub look : LookPath
  pub beside : Bool
  pub abs : Text → Option Text
  pub stored : Option Text
  pub environ : List Text

-- `utils.Cmd`
pub record Cmd : Type 0 where
  pub cmd_path : Text
  pub args : List Text
  pub working_path : Text
  pub env : List Text

pub data CommandError : Type 0 where
  self_error : ℕ → CommandError
  invalid_runtime not_installed abs_error : CommandError

-- What is asked of `SystemdCommand`.
pub record Request : Type 0 where
  pub namespace : Text
  pub runtime : Text
  pub address : Text
  pub ttrpc_address : Text
  pub path : Text
  pub cmd_args : List Text

-- The search, without an absolute path yet.
looked_up : CommandAnswers → (name : Text) → LookPath → Option Text
looked_up a name (found p) = some p
looked_up a name not_found = if a.beside then some (a.self_dir ++ (codes "/" ++ name)) else none
looked_up a name (other_failure p) = some p

-- `LoadOrStore`
store : (name p : Text) → Option Text → Paths → Paths × Text
store name p (some q) m = ((name, q) ∷ m, q)
store name p none m = ((name, p) ∷ m, p)

abs_found :
    CommandAnswers → (name : Text) → Paths → Option Text → Paths × (Option CommandError × Text)
unfolding store
abs_found a name m none = (m, (some abs_error, []))
abs_found a name m (some p) = let (m', q) = store name p a.stored m in (m', (none, q))

path_missing :
    CommandAnswers → (name : Text) → Paths → Option Text → Paths × (Option CommandError × Text)
unfolding abs_found
path_missing a name m none = (m, (some not_installed, []))
path_missing a name m (some p) = abs_found a name m (a.abs p)

-- The path of the binary: from the table, or from the search.
unfoldable pub command_path :
    CommandAnswers → (name : Text) → Paths → Option Text → Paths × (Option CommandError × Text)
unfolding looked_up path_missing
command_path a name m (some p) = (m, (none, p))
command_path a name m none = path_missing a name m (looked_up a name a.look)

unfoldable pub made_cmd :
    CommandAnswers → Request → Option CommandError × Text → Option CommandError × Option Cmd
made_cmd a r (some e, p) = (some e, none)
made_cmd a r (none, p) = (
  none,
  some (record {
    cmd_path = p;
    args =
        (codes "-namespace"
          ∷ r.namespace
          ∷ codes "-address"
          ∷ r.address
          ∷ codes "-publish-binary"
          ∷ a.self
          ∷ [])
        ++ r.cmd_args;
    working_path = r.path;
    env = a.environ ++ (codes "GOMAXPROCS=2" ∷ (codes "TTRPC_ADDRESS=" ++ r.ttrpc_address) ∷ []);
  }),
)

-- From the name of the binary on.
unfoldable pub named_command :
    CommandAnswers → Request → Text → Paths → Paths × (Option CommandError × Option Cmd)
unfolding command_path made_cmd
named_command a r name m =
    if is_empty name
    then (m, (some invalid_runtime, none))
    else (let (m', res) = command_path a name m (load name m) in (m', made_cmd a r res))

-- `SystemdCommand`
unfoldable pub systemd_command :
    CommandAnswers → Request → Paths → Paths × (Option CommandError × Option Cmd)
unfolding named_command
systemd_command a r m = elim a.self_err [
  | some e ↦ (m, (some (self_error e), none))
  | none ↦ named_command a r (binary_name r.runtime) m
]

-- The arguments that `CreateSystemdUnit` gives.
unfoldable pub shim_args : (id : Text) (debug : Bool) → List Text
shim_args id debug =
    (codes "-id" ∷ id ∷ []) ++ ((if debug then codes "-debug" ∷ [] else []) ++ (codes "start" ∷ []))

-- The details that `CreateSystemdUnit` makes of the command.
unfoldable pub unit_detail : (id : Text) → Cmd → Detail
unit_detail id cmd = record {
  unit = record { description = id };
  service = record {
    kind = codes "exec";
    working_directory = cmd.working_path;
    exec_start = cmd.cmd_path ∷ cmd.args;
    environment = cmd.env;
  };
  install = record { wanted_by = codes "multi-user.target" };
}
