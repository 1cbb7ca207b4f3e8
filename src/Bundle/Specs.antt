-- ===== src/Bundle/Specs.antt =====
-- What `processSpec` of bundle/utils.go changes in the specification of a container.
use systemd_runtime.Common.{
  ℕ, List, [], ◌∷◌, Option, none, some, Bool, true, false, ◌≡◌, ◌⊎◌, inl, inr, refl, ap, sym, subst,
  arith, Bool-cases, Option-cases, if◌then◌else◌, ◌++◌, ◌==◌, ◌∙◌,
}
use systemd_runtime.Common.Texts.{Text, codes, has_prefix, text_eq, strip}
use systemd_runtime.Bundle.Spec.{
  Namespace, Linux, Process, Spec, Outcome, spec_ok, spec_failed, spec_panics, process_spec,
  process_network_namespace, network, unprivileged_port_start, delete_key, without_network,
  has_prestart, merged, process_rootfs, rootfs_processed, marshalled, process_linux,
}

-- The second list is the first one without the namespaces of networks.
pub data HostNetwork : List Namespace → List Namespace → Type 0 where
  end : HostNetwork [] []
  skip :
      {ns : Namespace} {l m : List Namespace}
      → text_eq ns.kind network ≡ true
      → HostNetwork l m
      → HostNetwork (ns ∷ l) m
  keep :
      {ns : Namespace} {l m : List Namespace}
      → text_eq ns.kind network ≡ false
      → HostNetwork l m
      → HostNetwork (ns ∷ l) (ns ∷ m)

without_network-HostNetwork : (l : List Namespace) → HostNetwork l (without_network l)
unfolding without_network
without_network-HostNetwork [] = end
without_network-HostNetwork (ns ∷ l) = elim (Bool-cases (text_eq ns.kind network)) [
  | inl e ↦ rw e (skip e (without_network-HostNetwork l))
  | inr e ↦ rw e (keep e (without_network-HostNetwork l))
]

-- The value of a key.
abbrev pub value_of : Text → List (Text × Text) → Option Text
value_of key [] = none
value_of key ((k, v) ∷ m) = if text_eq k key then some v else value_of key m

text_eq→eq : (t u : Text) → text_eq t u ≡ true → t ≡ u
text_eq→eq [] [] h = refl
text_eq→eq [] (d ∷ u) h = cc
text_eq→eq (c ∷ t) [] h = cc
text_eq→eq (c ∷ t) (d ∷ u) h = elim (Bool-cases (c == d)) [
  | inl e ↦ let e' : c ≡ d = ground arith in rw e' (ap (λ l. d ∷ l) (text_eq→eq t u (ground arith)))
  | inr e ↦ ground arith
]

strip-append : (t u : Text) → strip t (t ++ u) ≡ some u
strip-append [] u = refl
strip-append (c ∷ t) u = ground (arith, strip-append t u)

value_of-delete_key : (key : Text) (m : List (Text × Text)) → value_of key (delete_key key m) ≡ none
unfolding delete_key
value_of-delete_key key [] = refl
value_of-delete_key key ((k, v) ∷ m) = ground (arith, value_of-delete_key key m)

value_of-delete_other :
    (j key : Text) (m : List (Text × Text))
    → text_eq key j ≡ false
    → value_of j (delete_key key m) ≡ value_of j m
unfolding delete_key
value_of-delete_other j key [] h = refl
value_of-delete_other j key ((k, v) ∷ m) h = elim (Bool-cases (text_eq k key)) [
  | inl e ↦
      let e' = text_eq→eq k key e in
      let same : text_eq k j ≡ false = ap (λ t. text_eq t j) e' ∙ h in
      rw (e, same) (value_of-delete_other j key m h)
  | inr e ↦ rw e (ap (λ o. if text_eq k j then some v else o) (value_of-delete_other j key m h))
]

-- The sysctls after `processNetworkNamespace`: without the one for ports, and with all others.
abbrev pub WithoutPort : Option (List (Text × Text)) → Option (List (Text × Text)) → Type 0
WithoutPort none o = o ≡ none
WithoutPort (some m) none = ⊥
WithoutPort (some m) (some m') =
    (value_of unprivileged_port_start m' ≡ none)
    × ((j : Text) → text_eq unprivileged_port_start j ≡ false → value_of j m' ≡ value_of j m)

abbrev pub LinuxProcessed : Option Linux → Option Linux → Type 0
LinuxProcessed none o = o ≡ none
LinuxProcessed (some l) none = ⊥
LinuxProcessed (some l) (some l') =
    HostNetwork l.namespaces l'.namespaces × WithoutPort l.sysctl l'.sysctl

-- A root that `runc` finds in the bundle, or none.
abbrev pub InBundle : Text → Option Text → Type 0
InBundle bundle none = ⊥
InBundle bundle (some r) = (r ≡ []) ⊎ (has_prefix r bundle ≡ true)

linux-LinuxProcessed : (l : Linux) → LinuxProcessed (some l) (some (process_linux l))
unfolding process_linux
linux-LinuxProcessed l = (without_network-HostNetwork l.namespaces, sysctl l.sysctl)
  where
    sysctl :
        (o : Option (List (Text × Text)))
        → WithoutPort o
            (elim o [ none ↦ none | some m ↦ some (delete_key unprivileged_port_start m) ])
    sysctl none = refl
    sysctl (some m) = (
      value_of-delete_key unprivileged_port_start m,
      λ j h. value_of-delete_other j unprivileged_port_start m h,
    )

abbrev linux_of : Option Linux → Option Linux
linux_of none = none
linux_of (some l) = some (process_linux l)

linux_of-LinuxProcessed : (o : Option Linux) → LinuxProcessed o (linux_of o)
linux_of-LinuxProcessed none = refl
linux_of-LinuxProcessed (some l) = linux-LinuxProcessed l

-- `processNetworkNamespace` that succeeds.
network_processed :
    (s s' : Spec)
    → process_network_namespace s ≡ spec_ok s'
    → (has_prestart s.hooks ≡ false) × (s' ≡ record s { linux = linux_of s.linux })
unfolding process_network_namespace
network_processed s s' h = ground arith

-- `processRootfs` that succeeds.
rootfs_processed_lem :
    (bundle : Text) (copy_err : Option ℕ) (s s' : Spec) (copied : Bool)
    → process_rootfs bundle copy_err s ≡ (copied, spec_ok s')
    → InBundle bundle s'.root
      × (s' ≡ record s { root = s'.root })
      × (copied ≡ false → s' ≡ s)
      × (copied ≡ true → s'.root ≡ some (merged bundle))
unfolding process_rootfs
rootfs_processed_lem bundle copy_err s s' copied h =
    ground (arith, strip-append bundle (codes "/merged"))

marshalled_ok : (m : Bool) (o : Outcome) {s : Spec} → marshalled m o ≡ spec_ok s → o ≡ spec_ok s
unfolding marshalled
marshalled_ok true o h = h
marshalled_ok false (spec_ok t) h = ground arith
marshalled_ok false (spec_failed e) h = ground arith
marshalled_ok false spec_panics h = ground arith

rootfs_then_network :
    (m : Bool) (r : Bool × Outcome) {copied : Bool} {s' : Spec}
    → rootfs_processed m r ≡ (copied, spec_ok s')
    → (s1 : Spec) × (r ≡ (copied, spec_ok s1)) × (process_network_namespace s1 ≡ spec_ok s')
unfolding rootfs_processed
rootfs_then_network m (c, spec_ok s1) h = (
  s1,
  ap (λ (x : Bool × Outcome). (x.0, spec_ok s1)) h,
  marshalled_ok m _ (ap (λ (x : Bool × Outcome). x.1) h),
)
rootfs_then_network m (c, spec_failed e) h = ground arith
rootfs_then_network m (c, spec_panics) h = ground arith

-- What is said of a specification and the processed one.
pub record Processed (bundle : Text) (copied : Bool) (s s' : Spec) : Type 0 where
  pub unconfined :
      (p : Process) → s.process ≡ some p → s'.process ≡ some (record p { apparmor_profile = [] })
  pub no_prestart : has_prestart s'.hooks ≡ false
  pub same_hooks : s'.hooks ≡ s.hooks
  pub in_bundle : InBundle bundle s'.root
  pub root_kept : copied ≡ false → s'.root ≡ s.root
  pub root_copied : copied ≡ true → s'.root ≡ some (merged bundle)
  pub host_network : LinuxProcessed s.linux s'.linux
  pub same_others : s'.others ≡ s.others

-- A specification that `processSpec` gives back has no AppArmor profile and no prestart hooks; its root
-- has the path of the bundle as a prefix or is empty, is unchanged if it was not copied, and is the
-- copy else; its namespaces are those given, in order, without those of networks; of its sysctls the one
-- for ports is gone and every other one has its value; the hooks and the rest are unchanged.
pub process_spec_lem :
    (bundle : Text) (s s' : Spec) (copied : Bool) (copy_err : Option ℕ) (marshals : Bool)
    → process_spec bundle (some s) copy_err marshals ≡ (copied, spec_ok s')
    → Processed bundle copied s s'
unfolding process_spec
process_spec_lem bundle s s' copied copy_err marshals h = elim (Option-cases s.process) [
  | inl e ↦ ground arith
  | inr (p, e) ↦
      let given : Spec = record s { process = some (record p { apparmor_profile = [] }) } in
      let (s1, r, n) =
        rootfs_then_network marshals (process_rootfs bundle copy_err given) (rw e at h) in
      let (b, t, kept, root) = rootfs_processed_lem bundle copy_err given s1 copied r in
      let (no_hook, t') = network_processed s1 s' n in
      let same : s'.linux ≡ linux_of s.linux =
        ap (λ (x : Spec). x.linux) t' ∙ ap (λ (x : Spec). linux_of x.linux) t in
      let root_same : s'.root ≡ s1.root = ap (λ (x : Spec). x.root) t' in
      record {
        unconfined = λ q k. ground arith;
        no_prestart = ground arith;
        same_hooks = ground arith;
        in_bundle = subst (InBundle bundle) (sym root_same) b;
        root_kept = λ c. ground arith;
        root_copied = λ c. ground arith;
        host_network = subst (LinuxProcessed s.linux) (sym same) (linux_of-LinuxProcessed s.linux);
        same_others = ground arith;
      }
]
