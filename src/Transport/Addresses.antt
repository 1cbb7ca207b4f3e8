-- ===== src/Transport/Addresses.antt =====
-- The addresses of sockets and the file that has one, in shim/util.go.
use systemd_runtime.Common.{
  Option, ℕ, ◌+◌, [], ◌∷◌, ◌++◌, none, some, ◌≡◌, ◌≢◌, inl, inr, refl, ap, sym, ◌∙◌, arith,
  Option-cases, Bool-cases, length, length-append, if◌then◌else◌, ◌==◌,
}
use systemd_runtime.Common.Texts.{Text, strip, is_empty}
use systemd_runtime.Transport.{
  AddressError, unix, path, AddressFiles, Answers, write_address, read_address, write_error,
  no_address,
}

strip-eq_append : (key line rest : Text) → strip key line ≡ some rest → line ≡ key ++ rest
strip-eq_append [] line rest h = ground arith
strip-eq_append (k ∷ key) [] rest h = ground arith
strip-eq_append (k ∷ key) (c ∷ line) rest h = elim (Bool-cases (k == c)) [
  | inl e ↦
      let inner : strip key line ≡ some rest = ground arith in
      let same : c ≡ k = ground arith in rw (same, strip-eq_append key line rest inner) refl
  | inr e ↦ ground arith
]

path_abstract : (a : Text) → strip unix a ≡ none → path a ≡ 0 ∷ a
unfolding path
path_abstract a h = ground arith

path_of_file : (a p : Text) → strip unix a ≡ some p → path a ≡ p
unfolding path
path_of_file a p h =
    let long : length a ≡ length p + 7 =
      ap length (strip-eq_append unix a p h) ∙ omega (arith, length-append unix p) in
    ground arith

-- Two addresses with the same path are the same, unless one of them is the path of a file that begins
-- with a zero byte.
path_injective :
    (a b : Text)
    → ((p : Text) → a ≢ unix ++ (0 ∷ p))
    → ((p : Text) → b ≢ unix ++ (0 ∷ p))
    → path a ≡ path b
    → a ≡ b
path_injective a b ha hb e = elim (Option-cases (strip unix a)) [
  | inl x ↦ elim (Option-cases (strip unix b)) [
    | inl y ↦ cc (path_abstract a x, path_abstract b y)
    | inr (q, y) ↦ absurd (
        hb a (
          strip-eq_append unix b q y
          ∙ ap (λ t. unix ++ t) (sym (path_of_file b q y) ∙ (sym e ∙ path_abstract a x))))
  ]
  | inr (p, x) ↦ elim (Option-cases (strip unix b)) [
    | inl y ↦ absurd (
        ha b (
          strip-eq_append unix a p x
          ∙ ap (λ t. unix ++ t) (sym (path_of_file a p x) ∙ (e ∙ path_abstract b y))))
    | inr (q, y) ↦
        strip-eq_append unix a p x
        ∙ (ap (λ t. unix ++ t) (sym (path_of_file a p x) ∙ (e ∙ path_of_file b q y))
            ∙ sym (strip-eq_append unix b q y))
  ]
]

-- What is said of each outcome of `WriteAddress`; `a'` are the answers to a later `ReadAddress`.
abbrev pub WrittenOrSame :
    (a' : Answers) (address : Text) (f : AddressFiles) → AddressFiles × Option AddressError → Type 0
WrittenOrSame a' address f (f', none) =
    (read_address a' f' ≡ (if is_empty address then ([], some no_address) else (address, none)))
    × (f'.temp ≡ none)
WrittenOrSame a' address f (f', some e) =
    (f'.address ≡ f.address) × (read_address a' f' ≡ read_address a' f)

-- Reading the address behind `WriteAddress`. Without an error the address is read that was written (or
-- none is found in it if it is empty), and the hidden file is gone. With an error the file of the
-- address is as it was, so a reader never finds a part of an address. Reading itself succeeds.
pub write_address_lem :
    (a a' : Answers) (address : Text) (f : AddressFiles)
    → a'.abs_err ≡ none
    → a'.read_err ≡ none
    → WrittenOrSame a' address f (write_address a address f)
unfolding write_address read_address
write_address_lem a a' address f p r = ground arith

-- A failed write leaves the hidden file, and then no later call can write an address: the hidden file
-- must not exist. There is none before, and the path and the opening are not refused.
failed_write_sticks :
    (a a' : Answers) (address address' part : Text) (e : ℕ) (f : AddressFiles)
    → f.temp ≡ none
    → a.abs_err ≡ none
    → a.open_err ≡ none
    → a.write_err ≡ some (part, e)
    → ((write_address a address f).1 ≡ some (write_error e))
      × ((write_address a' address' (write_address a address f).0).1 ≢ none)
      × ((write_address a' address' (write_address a address f).0).0
          ≡ (write_address a address f).0)
unfolding write_address
failed_write_sticks a a' address address' part e f t p o w = ground arith
