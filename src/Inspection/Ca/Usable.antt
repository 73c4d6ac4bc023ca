-- ===== src/Inspection/Ca/Usable.antt =====
-- What Open accepts as an authority's certificate or as its state, and what it takes for a leftover.
use Prim.Native.Nat.{bit_and}
use egress_gateway.Inspection.Ca.Directory.{
  FileKind, is_regular, FileInfo, Opened, not_exist, open_failed, opened, missing, bytes,
  read_checked, read_private,
}
use egress_gateway.Inspection.Crypto.{
  Bytes, Certificate, KeyUsage, cert_sign, crl_sign, digital_signature, hour,
}
use egress_gateway.Prelude.{
  ℕ, ◌+◌, ◌≤◌, ◌<◌, ◌≡◌, refl, ap, none, some, ◌⊎◌, inl, inr, Bool, true, ◌&&◌, List, [], ◌∷◌, text,
  arith, All,
}
use egress_gateway.GoLib.Strings.{has_prefix}
use egress_gateway.GoLib.FilePath.{text_eq}
use egress_gateway.Inspection.Ca.Open.{Entry, is_leftover, only_leftovers, has_cert_sign, is_usable}

-- A certificate of an authority that may sign certificates, now and for an hour
abbrev pub CanSign : List KeyUsage → Type 0
CanSign [] = ⊥
CanSign (u ∷ us) = (u ≡ cert_sign) ⊎ CanSign us

pub record IsUsable (cert : Certificate) (now : ℕ) : Type 0 where
  pub authority : cert.is_ca ≡ true
  pub constrained : cert.basic_constraints_valid ≡ true
  pub signs : CanSign cert.key_usage
  pub begun : cert.not_before ≤ now
  pub lasts : now + hour < cert.not_after

has_cert_sign-CanSign : (us : List KeyUsage) → has_cert_sign us ≡ true → CanSign us
unfolding has_cert_sign
has_cert_sign-CanSign [] h = cc
has_cert_sign-CanSign (cert_sign ∷ us) h = inl refl
has_cert_sign-CanSign (crl_sign ∷ us) h = inr (has_cert_sign-CanSign us h)
has_cert_sign-CanSign (digital_signature ∷ us) h = inr (has_cert_sign-CanSign us h)

pub is_usable-IsUsable :
    (cert : Certificate) (now : ℕ) → is_usable cert now ≡ true → IsUsable cert now
unfolding is_usable
is_usable-IsUsable cert now h = record {
  authority = ground arith;
  constrained = ground arith;
  signs = has_cert_sign-CanSign cert.key_usage (ground arith);
  begun = ground arith;
  lasts = ground arith;
}

-- The lock, or a regular file with the name of a temporary one
abbrev pub IsLeftover : Entry → Type 0
IsLeftover e =
    (e.name ≡ text ".lock")
    ⊎ ((has_prefix e.name (text ".gateway-") ≡ true) × (e.kind ≡ FileKind.regular))

regular_kind : (k : FileKind) → is_regular k ≡ true → k ≡ FileKind.regular
unfolding is_regular
regular_kind FileKind.directory h = cc
regular_kind FileKind.regular h = refl
regular_kind FileKind.symlink h = cc
regular_kind FileKind.socket h = cc
regular_kind FileKind.other h = cc

is_leftover-IsLeftover : (e : Entry) → is_leftover e ≡ true → IsLeftover e
unfolding is_leftover text_eq
is_leftover-IsLeftover e h = ground (arith, regular_kind e.kind)

both : (a b : Bool) → (a && b) ≡ true → (a ≡ true) × (b ≡ true)
both a b h = (ground arith, ground arith)

pub only_leftovers-All : (es : List Entry) → only_leftovers es ≡ true → All IsLeftover es
unfolding only_leftovers
only_leftovers-All [] h = tt
only_leftovers-All (e ∷ es) h =
    let (first, rest) = both (is_leftover e) (only_leftovers es) h in
    (is_leftover-IsLeftover e first, only_leftovers-All es rest)

-- What readPrivate takes for a missing file, and what it reads.
pub read_private-missing : (o : Opened) → read_private o ≡ missing → o ≡ not_exist
unfolding read_private read_checked
read_private-missing not_exist h = refl
read_private-missing open_failed h = cc
read_private-missing (opened none content) h = cc
read_private-missing (opened (some info) none) h = cc
read_private-missing (opened (some info) (some content)) h = ground (arith, h)

read_checked-bytes :
    (info : FileInfo) (content : Bytes) {raw : Bytes}
    → read_checked info (some content) ≡ bytes raw
    → (content ≡ raw)
      × (is_regular info.kind ≡ true)
      × (bit_and info.perm 0o077 ≡ 0)
      × (info.size ≤ 65_536)
unfolding read_checked
read_checked-bytes info content h = (ground arith, ground arith, ground arith, ground arith)

pub read_private-bytes :
    (o : Opened) {raw : Bytes}
    → read_private o ≡ bytes raw
    → (info : FileInfo) × (o ≡ opened (some info) (some raw))
      × (info.kind ≡ FileKind.regular)
      × (bit_and info.perm 0o077 ≡ 0)
      × (info.size ≤ 65_536)
unfolding read_private
read_private-bytes not_exist h = cc
read_private-bytes open_failed h = cc
read_private-bytes (opened none content) h = cc
read_private-bytes (opened (some info) none) h = absurd (unfold read_checked in cc)
read_private-bytes (opened (some info) (some content)) h =
    let (same, kind, perm, size) = read_checked-bytes info content h in
    (
      info,
      ap (λ (b : Bytes). opened (some info) (some b)) same,
      regular_kind info.kind kind,
      perm,
      size,
    )
