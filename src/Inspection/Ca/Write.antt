-- ===== src/Inspection/Ca/Write.antt =====
-- writeAtomic and publishCertificate.
use egress_gateway.Prelude.{
  ℕ, Bool, true, false, ◌&&◌, List, [], ◌∷◌, ◌++◌, Option, none, some, if◌then◌else◌, Text, text,
}
use egress_gateway.GoLib.FilePath.{text_eq}
use egress_gateway.Inspection.Crypto.{Bytes, Certificate}
use egress_gateway.Inspection.Ca.Bundle.{Block, Pem}

-- How a temporary file becomes the target: os.Rename replaces it, os.Link refuses to.
pub data Publish : Type 0 where
  rename link : Publish

pub data Call : Type 0 where
  create_temp : Call
  chmod : ℕ → Call
  write : Bytes → Call
  sync : Call
  close : Call
  publish : Publish → Text → Call
  open_dir : Call
  sync_dir : Call
  close_dir : Call
  remove_temp : Call

pub data Answer : Type 0 where
  success : Answer
  exists_error : Answer
  other_error : Answer

-- A run: the calls made, in order, and the result.
pub record Run : Type 0 where
  pub calls : List Call
  pub result : Answer

abbrev pub Oracle : Type 0
Oracle = Call → Answer

-- A call, and the rest if it succeeds.
unfoldable pub before : Call → Answer → Run → Run
before c success r = record { calls = c ∷ r.calls; result = r.result }
before c exists_error r = record { calls = c ∷ []; result = exists_error }
before c other_error r = record { calls = c ∷ []; result = other_error }

-- What runs at the return whatever the result.
unfoldable pub deferred : List Call → Run → Run
deferred cs r = record r { calls = r.calls ++ cs }

abbrev pub done : Run
done = record { calls = []; result = success }

module _ (oracle : Oracle) where
  -- The directory is synced after the file has its name.
  unfoldable pub sync_directory : Run
  sync_directory =
      before open_dir (oracle open_dir)
        (deferred (close_dir ∷ []) (before sync_dir (oracle sync_dir) done))

  unfoldable pub fill : Publish → Text → Bytes → ℕ → Run
  fill how path content mode = before (chmod mode) (oracle (chmod mode)) (
      before (write content) (oracle (write content)) (
        before sync (oracle sync) (
          before close (oracle close)
            (before (publish how path) (oracle (publish how path)) sync_directory))))

  -- The temporary file is closed and removed in any case; if it was not made, nothing runs.
  unfoldable pub write_atomic : Publish → Text → Bytes → ℕ → Run
  write_atomic how path content mode =
      before create_temp (oracle create_temp)
        (deferred (close ∷ remove_temp ∷ []) (fill how path content mode))

-- `len(b) == 0`
unfoldable pub is_blank : Bytes → Bool
is_blank [] = true
is_blank (c ∷ s) = false

-- `block == nil || ...`: the published block must be a certificate, the given one, and the last.
unfoldable pub matches : Bytes → Bytes → Option Block → Bool
unfolding text_eq is_blank
matches raw rest none = false
matches raw rest (some b) =
    text_eq b.block_type (text "CERTIFICATE") && is_blank rest && text_eq b.content raw

-- publishCertificate: an error other than "exists" is the result; where the file exists, it must
-- hold the certificate, of which `raw` is the DER form. `file` is what os.ReadFile gives.
unfoldable pub after_link : Pem → Bytes → Answer → Option Bytes → Answer
unfolding matches
after_link pem raw success file = success
after_link pem raw other_error file = other_error
after_link pem raw exists_error none = other_error
after_link pem raw exists_error (some published) =
    if matches raw (pem.trim (pem.decode published).1) (pem.decode published).0
    then success
    else other_error

unfoldable pub publish_certificate : Pem → Oracle → Text → Bytes → Certificate → Option Bytes → Run
unfolding write_atomic after_link
publish_certificate pem oracle path certificate cert file =
    let r = write_atomic oracle link path certificate 0o644 in
    record { calls = r.calls; result = after_link pem cert.raw r.result file }
