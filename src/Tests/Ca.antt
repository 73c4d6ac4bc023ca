-- ===== src/Tests/Ca.antt =====
-- internal/inspection/ca.go at work, on a volume that is empty at first.
use egress_gateway.Prelude.{ℕ, ◌+◌, ◌≡◌, refl, true, [], ◌∷◌, none, some, Text, text}
use egress_gateway.Prelude.Results.{◌>>=◌, ◌>>◌, refuse_if, or_fail}
use egress_gateway.GoLib.FilePath.{text_eq}
use egress_gateway.Inspection.Crypto.{Certificate, cert_sign, crl_sign, minute}
use egress_gateway.Inspection.Ca.Directory.{
  FileKind, DirectoryError, DirectoryCalls, check_directory, open_directory, not_exist,
  read_private,
}
use egress_gateway.Inspection.Ca.Write.{
  success, other_error, Oracle, rename, write_atomic, sync, close, publish, create_temp, chmod,
  write, open_dir, sync_dir, close_dir, remove_temp, before, deferred, fill, sync_directory,
  publish_certificate,
}
use egress_gateway.Inspection.Ca.Durability.{
  PublishesAfter, IsDurable, write_atomic-PublishesAfter, write_atomic-IsDurable,
}
use egress_gateway.Inspection.Ca.Open.{
  Codec, World, open_authority, open_locked, load_state, create_state, generate, use_state,
  is_usable, only_leftovers, succeeded, is_some,
}
use egress_gateway.Inspection.Ca.Origin.{IsOpened, open_authority-IsOpened}
use egress_gateway.Tests.Secrets.{marking}
use egress_gateway.Tests.Bundle.{pem}

abbrev pub fine : Oracle
fine c = success

-- An oracle whose fsync of the file fails.
abbrev full_disk : Oracle
full_disk create_temp = success
full_disk (chmod m) = success
full_disk (write b) = success
full_disk sync = other_error
full_disk close = success
full_disk (publish how path) = success
full_disk open_dir = success
full_disk sync_dir = success
full_disk close_dir = success
full_disk remove_temp = success

abbrev path : Text
path = text "/s/inspection-ca.json"

failing_sync :
    (write_atomic full_disk rename path (1 ∷ []) 0o600).calls
    ≡ create_temp ∷ chmod 0o600 ∷ write (1 ∷ []) ∷ sync ∷ close ∷ remove_temp ∷ []
unfolding write_atomic before deferred fill sync_directory
failing_sync = refl

shared_directory :
    check_directory
      (text "/s")
      0o700
      true
      (some (text "/s"))
      (some (record { kind = FileKind.directory; perm = 0o750; size = 0 }))
    ≡ some DirectoryError.unsafe_permissions
unfolding check_directory
shared_directory = refl

write_atomic-PublishesAfter_example :
    PublishesAfter full_disk rename path
      (create_temp ∷ chmod 0o600 ∷ write (1 ∷ []) ∷ sync ∷ close ∷ [])
      (write_atomic full_disk rename path (1 ∷ []) 0o600)
write_atomic-PublishesAfter_example =
    write_atomic-PublishesAfter full_disk rename path (1 ∷ []) 0o600

write_atomic-IsDurable_example : IsDurable fine rename path
unfolding write_atomic before deferred fill sync_directory
write_atomic-IsDurable_example = write_atomic-IsDurable fine rename path (1 ∷ []) 0o600 refl

abbrev pub certificate : Certificate
certificate = record {
  raw = 3 ∷ [];
  serial_number = 3;
  common_name = text "Gateway Pod inspection CA";
  dns_names = [];
  not_before = 0;
  not_after = 10_000_000_000_000;
  is_ca = true;
  basic_constraints_valid = true;
  max_path_len_zero = true;
  key_usage = cert_sign ∷ crl_sign ∷ [];
  ext_key_usage = [];
}

abbrev pub codec : Codec
codec = record {
  encode_state = λ s. some s.certificate;
  decode_state = λ b. none;
  key_pair = λ s. some (record { leaf = some certificate; ecdsa_key = some s.private_key });
  is_signed_by = λ a b. true;
  ten_years_after = λ t. t + 10_000_000_000_000;
  pem = pem;
}

-- A directory that is there, with its mode
abbrev pub safe : Text → ℕ → DirectoryCalls
safe path perm = record {
  made = true;
  actual = some path;
  info = some (record { kind = FileKind.directory; perm = perm; size = 0 });
}

abbrev pub empty_volume : World
empty_volume = record {
  private_calls = safe (text "/s") 0o700;
  public_calls = safe (text "/p") 0o755;
  lock_opens = λ path mode. true;
  lock_taken = true;
  state_opened = not_exist;
  trust_absent = true;
  entries = some (record { name = text ".lock"; kind = FileKind.regular } ∷ []);
  state_calls = fine;
  publish_calls = fine;
  published = none;
}

open_authority-IsOpened_example :
    IsOpened marking codec empty_volume
      (text "/s")
      (text "/p")
      3
      minute
      (record { certificate = certificate; key = 3 ∷ [] })
unfolding open_authority open_locked load_state create_state generate use_state is_usable
    only_leftovers succeeded ◌>>=◌ ◌>>◌ refuse_if or_fail is_some text_eq publish_certificate
    write_atomic before deferred fill sync_directory open_directory check_directory read_private
open_authority-IsOpened_example =
    open_authority-IsOpened marking codec empty_volume (text "/s") (text "/p") 3 minute refl
