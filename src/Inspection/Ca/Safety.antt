-- ===== src/Inspection/Ca/Safety.antt =====
-- What Directory, writeAtomic and publishCertificate have established where they succeed.
use Prim.Native.Nat.{bit_and}
use egress_gateway.Prelude.{
  ℕ, ◌≡◌, ◌⊎◌, inl, inr, refl, Bool, true, false, ◌||◌, not, ◌==◌, [], ◌∷◌, Option, none, some,
  if◌then◌else◌, Text, text, arith,
}
use egress_gateway.GoLib.FilePath.{text_eq, is_abs, clean}
use egress_gateway.Inspection.Crypto.{Bytes, Certificate}
use egress_gateway.Inspection.Ca.Bundle.{Block, Pem}
use egress_gateway.Inspection.Ca.Directory.{
  FileKind, FileInfo, is_directory, forbidden, check_info, check_links, check_directory,
  DirectoryCalls, open_directory,
}
use egress_gateway.Inspection.Ca.Write.{
  Publish, link, Call, create_temp, chmod, write, sync, close, publish, open_dir, sync_dir, Answer,
  success, exists_error, other_error, Run, Oracle, before, deferred, sync_directory, fill,
  write_atomic, is_blank, matches, after_link, publish_certificate,
}

-- A directory that is named by a clean absolute path without symbolic links, and whose mode has none
-- of the bits of the mask.
pub record IsSafeDirectory (path : Text) (mask : ℕ) (calls : DirectoryCalls) : Type 0 where
  pub absolute : is_abs path ≡ true
  pub cleaned : clean path ≡ path
  pub made : calls.made ≡ true
  pub no_links : calls.actual ≡ some path
  pub info : FileInfo
  pub is_info : calls.info ≡ some info
  pub is_directory : info.kind ≡ FileKind.directory
  pub closed : bit_and info.perm mask ≡ 0

directory_kind : (k : FileKind) → is_directory k ≡ true → k ≡ FileKind.directory
unfolding is_directory
directory_kind FileKind.directory h = refl
directory_kind FileKind.regular h = cc
directory_kind FileKind.symlink h = cc
directory_kind FileKind.socket h = cc
directory_kind FileKind.other h = cc

check_info-safe :
    (mode : ℕ) (i : Option FileInfo)
    → check_info mode i ≡ none
    → (info : FileInfo) × (i ≡ some info)
      × (info.kind ≡ FileKind.directory)
      × (bit_and info.perm (forbidden mode) ≡ 0)
unfolding check_info
check_info-safe mode none h = cc
check_info-safe mode (some info) h =
    let (k, b) = sound _ (is_directory info.kind) (bit_and info.perm (forbidden mode) == 0) h in
    (info, refl, directory_kind info.kind k, ground arith)
  where
    sound :
        {E : Type 0} (e : E) (a b : Bool)
        → ◌≡◌ {A = Option E} (if not a || not b then some e else none) none
        → (a ≡ true) × (b ≡ true)
    sound e true true h = (refl, refl)
    sound e true false h = cc
    sound e false b h = cc

check_links-safe :
    (path : Text) (mode : ℕ) (actual : Option Text) (i : Option FileInfo)
    → check_links path mode actual i ≡ none
    → (actual ≡ some path) × (check_info mode i ≡ none)
unfolding check_links text_eq
check_links-safe path mode none i h = cc
check_links-safe path mode (some actual) i h = (ground arith, ground arith)

open_directory-safe :
    (path : Text) (mode : ℕ) (calls : DirectoryCalls)
    → open_directory path mode calls ≡ none
    → (is_abs path ≡ true)
      × (clean path ≡ path)
      × (calls.made ≡ true)
      × (check_links path mode calls.actual calls.info ≡ none)
unfolding open_directory check_directory text_eq
open_directory-safe path mode calls h = (ground arith, ground arith, ground arith, ground arith)

pub open_directory-IsSafeDirectory :
    (path : Text) (mode : ℕ) (calls : DirectoryCalls)
    → open_directory path mode calls ≡ none
    → IsSafeDirectory path (forbidden mode) calls
open_directory-IsSafeDirectory path mode calls h =
    let (absolute, cleaned, made, links) = open_directory-safe path mode calls h in
    let (no_links, rest) = check_links-safe path mode calls.actual calls.info links in
    let (info, is_info, kind, closed) = check_info-safe mode calls.info rest in
    record {
      absolute = absolute;
      cleaned = cleaned;
      made = made;
      no_links = no_links;
      info = info;
      is_info = is_info;
      is_directory = kind;
      closed = closed;
    }

-- A file that was written and synced, given its name, and whose directory was synced.
abbrev pub IsWrittenFile : Oracle → Publish → Text → Bytes → ℕ → Type 0
IsWrittenFile oracle how path content mode =
    (oracle create_temp ≡ success)
    × (oracle (chmod mode) ≡ success)
    × (oracle (write content) ≡ success)
    × (oracle sync ≡ success)
    × (oracle close ≡ success)
    × (oracle (publish how path) ≡ success)
    × (oracle open_dir ≡ success)
    × (oracle sync_dir ≡ success)

before-success :
    (c : Call) (a : Answer) (r : Run)
    → (before c a r).result ≡ success
    → (a ≡ success) × (r.result ≡ success)
unfolding before
before-success c success r h = (refl, h)
before-success c exists_error r h = cc
before-success c other_error r h = cc

pub write_atomic-IsWrittenFile :
    (oracle : Oracle) (how : Publish) (path : Text) (content : Bytes) (mode : ℕ)
    → (write_atomic oracle how path content mode).result ≡ success
    → IsWrittenFile oracle how path content mode
unfolding write_atomic fill sync_directory deferred
write_atomic-IsWrittenFile oracle how path content mode h =
    let (created, h₁) = before-success _ _ _ h in
    let (changed, h₂) = before-success _ _ _ h₁ in
    let (wrote, h₃) = before-success _ _ _ h₂ in
    let (synced, h₄) = before-success _ _ _ h₃ in
    let (closed, h₅) = before-success _ _ _ h₄ in
    let (published, h₆) = before-success _ _ _ h₅ in
    let (opened, h₇) = before-success _ _ _ h₆ in
    let (directory, h₈) = before-success _ _ _ h₇ in
    (created, changed, wrote, synced, closed, published, opened, directory)

-- The published file: new, with the certificate's PEM form, or there before, and then it holds one
-- block, which is the certificate, and nothing else but space.
abbrev pub IsPublished : Pem → Oracle → Text → Bytes → Certificate → Option Bytes → Type 0
IsPublished pem oracle path certificate cert file =
    IsWrittenFile oracle link path certificate 0o644
    ⊎ ((content : Bytes) × (block : Block) × (file ≡ some content)
        × ((pem.decode content).0 ≡ some block)
        × (block.block_type ≡ text "CERTIFICATE")
        × (block.content ≡ cert.raw)
        × (pem.trim (pem.decode content).1 ≡ []))

matches-ok :
    (raw rest : Bytes) (o : Option Block)
    → matches raw rest o ≡ true
    → (b : Block) × (o ≡ some b)
      × (b.block_type ≡ text "CERTIFICATE")
      × (b.content ≡ raw)
      × (rest ≡ [])
unfolding matches text_eq
matches-ok raw rest none h = cc
matches-ok raw [] (some b) h = (b, refl, ground arith, ground arith, refl)
matches-ok raw (c ∷ rest) (some b) h = absurd (unfold is_blank in ground arith)

pub publish_certificate-IsPublished :
    (pem : Pem) (oracle : Oracle) (path : Text) (certificate : Bytes) (cert : Certificate)
    (file : Option Bytes)
    → (publish_certificate pem oracle path certificate cert file).result ≡ success
    → IsPublished pem oracle path certificate cert file
unfolding publish_certificate
publish_certificate-IsPublished pem oracle path certificate cert file h =
    go (write_atomic oracle link path certificate 0o644).result refl file refl h
  where
    accepted : (b : Bool) → ◌≡◌ {A = Answer} (if b then success else other_error) success → b ≡ true
    accepted true k = refl
    accepted false k = cc

    go :
        (a : Answer)
        → (write_atomic oracle link path certificate 0o644).result ≡ a
        → (f : Option Bytes) → file ≡ f
        → after_link pem cert.raw a f ≡ success
        → IsPublished pem oracle path certificate cert file
    go success e f same k = inl (write_atomic-IsWrittenFile oracle link path certificate 0o644 e)
    go other_error e f same k = absurd (unfold after_link in cc)
    go exists_error e none same k = absurd (unfold after_link in cc)
    go exists_error e (some content) same k =
        let (block, decoded, kind, equal, blank) =
          matches-ok cert.raw (pem.trim (pem.decode content).1) (pem.decode content).0
            (accepted _ (unfold after_link in k)) in
        inr (content, block, same, decoded, kind, equal, blank)
