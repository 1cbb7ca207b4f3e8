-- ===== src/Transport/Examples.antt =====
-- Runs of the calls on the file of an address, in shim/util.go.
use systemd_runtime.Common.{none, some, ◌≡◌, refl}
use systemd_runtime.Common.Texts.{codes}
use systemd_runtime.Transport.{Answers, AddressFiles, write_address, path}
use systemd_runtime.Transport.Addresses.{write_address_lem, WrittenOrSame}

abbrev no_errors : Answers
no_errors = record {
  abs_err = none;
  open_err = none;
  write_err = none;
  rename_err = none;
  read_err = none;
}

abbrev old_address : AddressFiles
old_address = record { address = some (codes "unix:///a"); temp = none }

write_address_lem_example :
    WrittenOrSame no_errors
      (codes "unix:///b")
      old_address
      (write_address no_errors (codes "unix:///b") old_address)
write_address_lem_example =
    write_address_lem no_errors no_errors (codes "unix:///b") old_address refl refl

file_path : path (codes "unix:///run/s") ≡ codes "/run/s"
unfolding path
file_path = refl
