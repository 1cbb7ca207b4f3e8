-- ===== src/Bundle/Spec.antt =====
-- bundle/utils.go: what is changed in the specification of a container. Of the specification there are
-- the fields that are read or written, and the rest as a number.
use systemd_runtime.Common.{
  ℕ, List, [], ◌∷◌, ◌++◌, Option, none, some, Bool, true, false, ◌||◌, if◌then◌else◌, is_some,
}
use systemd_runtime.Common.Texts.{Text, codes, has_prefix, text_eq, is_empty}

pub record Namespace : Type 0 where
  pub kind : Text
  pub path : Text

-- `sysctl` is nil or a map.
pub record Linux : Type 0 where
  pub sysctl : Option (List (Text × Text))
  pub namespaces : List Namespace

pub record Process : Type 0 where
  pub apparmor_profile : Text
  pub others : ℕ

-- `prestart` is nil or a list of hooks, which may be empty.
pub record Hooks : Type 0 where
  pub prestart : Option (List ℕ)

-- `root` has the path.
pub record Spec : Type 0 where
  pub process : Option Process
  pub root : Option Text
  pub hooks : Option Hooks
  pub linux : Option Linux
  pub others : ℕ

pub data SpecError : Type 0 where
  unmarshal_error marshal_error only_support_host_network : SpecError
  copy_error : ℕ → SpecError

-- A specification, an error, or the panic at a nil pointer.
pub data Outcome : Type 0 where
  spec_ok : Spec → Outcome
  spec_failed : SpecError → Outcome
  spec_panics : Outcome

abbrev pub network : Text
network = codes "network"

abbrev pub unprivileged_port_start : Text
unprivileged_port_start = codes "net.ipv4.ip_unprivileged_port_start"

-- `delete(spec.Linux.Sysctl, key)`
unfoldable pub delete_key : Text → List (Text × Text) → List (Text × Text)
delete_key key [] = []
delete_key key ((k, v) ∷ m) = if text_eq k key then delete_key key m else (k, v) ∷ delete_key key m

-- The loop over the namespaces.
unfoldable pub without_network : List Namespace → List Namespace
without_network [] = []
without_network (ns ∷ rest) =
    if text_eq ns.kind network then without_network rest else ns ∷ without_network rest

unfoldable pub process_linux : Linux → Linux
unfolding delete_key without_network
process_linux l = record {
  sysctl = elim l.sysctl [ none ↦ none | some m ↦ some (delete_key unprivileged_port_start m) ];
  namespaces = without_network l.namespaces;
}

-- `spec.Hooks != nil && spec.Hooks.Prestart != nil`
unfoldable pub has_prestart : Option Hooks → Bool
has_prestart none = false
has_prestart (some h) = is_some h.prestart

-- `processNetworkNamespace`
unfoldable pub process_network_namespace : Spec → Outcome
unfolding has_prestart process_linux
process_network_namespace s =
    if has_prestart s.hooks then spec_failed only_support_host_network else (elim s.linux [
      | none ↦ spec_ok s
      | some l ↦ spec_ok (record s { linux = some (process_linux l) })
    ])

-- `filepath.Join(bundle, "merged")` for a clean path.
abbrev pub merged : Text → Text
merged bundle = bundle ++ codes "/merged"

-- `processRootfs`, and whether the copy of the root was begun; `copy_err` is the answer of `cp`.
unfoldable pub process_rootfs : (bundle : Text) (copy_err : Option ℕ) → Spec → Bool × Outcome
process_rootfs bundle copy_err s = elim s.root [
  | none ↦ (false, spec_panics)
  | some rootfs ↦
      if is_empty rootfs || has_prefix rootfs bundle then (false, spec_ok s) else (elim copy_err [
        | some e ↦ (true, spec_failed (copy_error e))
        | none ↦ (true, spec_ok (record s { root = some (merged bundle) }))
      ])
]

-- `json.Marshal`, which fails or not.
unfoldable pub marshalled : (marshals : Bool) → Outcome → Outcome
marshalled true o = o
marshalled false (spec_ok s) = spec_failed marshal_error
marshalled false (spec_failed e) = spec_failed e
marshalled false spec_panics = spec_panics

-- What follows `processRootfs`.
unfoldable pub rootfs_processed : (marshals : Bool) → Bool × Outcome → Bool × Outcome
unfolding marshalled
rootfs_processed marshals (copied, spec_ok s) =
    (copied, marshalled marshals (process_network_namespace s))
rootfs_processed marshals (copied, spec_failed e) = (copied, spec_failed e)
rootfs_processed marshals (copied, spec_panics) = (copied, spec_panics)

-- `processSpec`; `content` is none if it cannot be decoded.
unfoldable pub process_spec :
    (bundle : Text) (content : Option Spec) (copy_err : Option ℕ) (marshals : Bool) → Bool × Outcome
unfolding process_rootfs rootfs_processed process_network_namespace
process_spec bundle content copy_err marshals = elim content [
  | none ↦ (false, spec_failed unmarshal_error)
  | some s ↦ elim s.process [
    | none ↦ (false, spec_panics)
    | some p ↦ rootfs_processed marshals (
        process_rootfs bundle copy_err
          (record s { process = some (record p { apparmor_profile = [] }) }))
  ]
]
