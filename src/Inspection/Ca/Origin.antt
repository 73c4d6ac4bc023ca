-- ===== src/Inspection/Ca/Origin.antt =====
-- Where the authority that Open returns comes from.
use mathlib.Core.Path.{subst}
use Prim.Native.Nat.{bit_and}
use egress_gateway.Prelude.{
  ℕ, ◌-◌, ◌≤◌, ◌∙◌, ◌≡◌, ◌≢◌, refl, ◌⊎◌, inl, inr, Bool, true, false, not, List, [], ◌∷◌, Option,
  none, some, Text, text, arith, All,
}
use egress_gateway.Prelude.Results.{ok, >>=-ok, refuse_if-ok, or_fail-ok, ok-injective}
use egress_gateway.GoLib.FilePath.{text_eq, join}
use egress_gateway.Config.Names.{ca_state_file}
use egress_gateway.Inspection.Crypto.{Bytes, Crypto, Certificate, cert_sign, crl_sign, minute}
use egress_gateway.Inspection.Leaf.{Authority}
use egress_gateway.Inspection.Ca.Directory.{
  FileKind, FileInfo, forbidden, open_directory, Opened, not_exist, opened, read_private, ReadState,
  missing, failed, bytes,
}
use egress_gateway.Inspection.Ca.Write.{Answer, success, exists_error, other_error, rename}
use egress_gateway.Inspection.Ca.Safety.{
  IsSafeDirectory, open_directory-IsSafeDirectory, IsWrittenFile, write_atomic-IsWrittenFile,
  IsPublished, publish_certificate-IsPublished,
}
use egress_gateway.Inspection.Ca.Open.{
  State, Pair, Codec, Entry, World, is_some, succeeded, root_template, generate, create_state,
  load_state, use_state, open_locked, open_authority,
}
use egress_gateway.Inspection.Ca.Usable.{
  IsUsable, is_usable-IsUsable, IsLeftover, only_leftovers-All, read_private-missing,
  read_private-bytes,
}

succeeds : (a : Answer) → not (succeeded a) ≡ false → a ≡ success
unfolding succeeded
succeeds success h = refl
succeeds exists_error h = cc
succeeds other_error h = cc

kept : (b : Bool) → not b ≡ false → b ≡ true
kept b h = ground arith

unset : {E : Type 0} (o : Option E) → is_some o ≡ false → o ≡ none
unfolding is_some
unset none h = refl
unset (some e) h = cc

different : (s t : Text) → text_eq s t ≡ false → s ≢ t
unfolding text_eq
different s t h = ground arith

module _ (crypto : Crypto) (codec : Codec) (w : World) (private_dir public_dir : Text)
    (draw now : ℕ) where
  -- A fresh key and a certificate for it that it signs itself, of an authority for ten years that
  -- signs no further authorities, both in PEM
  pub record IsGenerated (s : State) : Type 0 where
    pub key : Bytes
    pub key_new : crypto.generate_key draw ≡ some key
    pub template : Certificate
    pub serial : crypto.random_serial draw ≡ some template.serial_number
    pub common_name : template.common_name ≡ text "Gateway Pod inspection CA"
    pub no_names : template.dns_names ≡ []
    pub from : template.not_before ≡ now - minute
    pub until : template.not_after ≡ codec.ten_years_after now
    pub authority : template.is_ca ≡ true
    pub constrained : template.basic_constraints_valid ≡ true
    pub no_further : template.max_path_len_zero ≡ true
    pub usage : template.key_usage ≡ cert_sign ∷ crl_sign ∷ []
    pub der : Bytes
    pub signed :
        crypto.create_certificate draw template template (crypto.public_key key) key ≡ some der
    pub encoded : Bytes
    pub marshalled : crypto.marshal_key key ≡ some encoded
    pub certificate : s.certificate ≡ crypto.pem_certificate der
    pub private_key : s.private_key ≡ crypto.pem_private_key encoded

  generate-IsGenerated : {s : State} → generate crypto codec draw now ≡ ok s → IsGenerated s
  unfolding generate
  generate-IsGenerated h =
      let (key, key_new, h₁) = >>=-ok _ _ h in
      let (serial, draws, h₂) = >>=-ok _ _ h₁ in
      let (der, signed, h₃) = >>=-ok _ _ h₂ in
      let (encoded, marshalled, last) = >>=-ok _ _ h₃ in
      subst IsGenerated (ok-injective last) (record {
        key = key;
        key_new = or_fail-ok _ _ key_new;
        template = root_template crypto codec serial now;
        serial = unfold root_template in or_fail-ok _ _ draws;
        common_name = unfold root_template in refl;
        no_names = unfold root_template in refl;
        from = unfold root_template in refl;
        until = unfold root_template in refl;
        authority = unfold root_template in refl;
        constrained = unfold root_template in refl;
        no_further = unfold root_template in refl;
        usage = unfold root_template in refl;
        der = der;
        signed = unfold root_template in or_fail-ok _ _ signed;
        encoded = encoded;
        marshalled = or_fail-ok _ _ marshalled;
        certificate = refl;
        private_key = refl;
      })

  -- A new state is made only where no trace of an older one stands: no state file, no published
  -- certificate, and nothing in the directory but the lock and temporary files; and it is written.
  pub record IsNew (s : State) : Type 0 where
    pub no_file : w.state_opened ≡ not_exist
    pub no_trust : w.trust_absent ≡ true
    pub entries : List Entry
    pub listed : w.entries ≡ some entries
    pub leftovers : All IsLeftover entries
    pub generated : IsGenerated s
    pub raw : Bytes
    pub encoded : codec.encode_state s ≡ some raw
    pub written :
        IsWrittenFile w.state_calls rename (join private_dir (text "inspection-ca.json")) raw 0o600

  -- Or the state is what the file holds, a regular file of a bounded size that only its user can read.
  abbrev pub IsStored : State → Type 0
  IsStored s =
      (info : FileInfo) × (raw : Bytes) × (w.state_opened ≡ opened (some info) (some raw))
      × (info.kind ≡ FileKind.regular)
      × (bit_and info.perm 0o077 ≡ 0)
      × (info.size ≤ 65_536)
      × (codec.decode_state raw ≡ some s)

  pub record IsOpened (a : Authority) : Type 0 where
    pub state : State
    pub origin : IsStored state ⊎ IsNew state
    pub pair : Pair
    pub paired : codec.key_pair state ≡ some pair
    pub leaf : pair.leaf ≡ some a.certificate
    pub key : pair.ecdsa_key ≡ some a.key
    pub usable : IsUsable a.certificate now
    pub self_signed : codec.is_signed_by a.certificate a.certificate ≡ true
    pub published :
        IsPublished codec.pem w.publish_calls
          (join public_dir (text "inspection-ca.pem"))
          state.certificate
          a.certificate
          w.published
    pub locked : w.lock_taken ≡ true
    pub private_safe : IsSafeDirectory private_dir 0o077 w.private_calls
    pub public_safe : IsSafeDirectory public_dir 0o022 w.public_calls
    pub apart : private_dir ≢ public_dir

  create_state-IsNew :
      {s : State}
      → w.state_opened ≡ not_exist
      → create_state crypto codec w (join private_dir ca_state_file) draw now ≡ ok s
      → IsNew s
  unfolding create_state
  create_state-IsNew {s} no_file h =
      let (absent, h₁) = refuse_if-ok _ _ _ h in
      let (entries, listed, h₂) = >>=-ok _ _ h₁ in
      let (leftovers, h₃) = refuse_if-ok _ _ _ h₂ in
      let (t, generated, h₄) = >>=-ok _ _ h₃ in
      let (raw, encoded, h₅) = >>=-ok _ _ h₄ in
      let (written, h₆) = refuse_if-ok _ _ _ h₅ in
      let same : t ≡ s = ground arith in
      subst IsNew same (record {
        no_file = no_file;
        no_trust = kept _ (double w.trust_absent absent);
        entries = entries;
        listed = or_fail-ok _ _ listed;
        leftovers = only_leftovers-All entries (kept _ leftovers);
        generated = generate-IsGenerated generated;
        raw = raw;
        encoded = or_fail-ok _ _ encoded;
        written = write_atomic-IsWrittenFile _ _ _ _ _ (succeeds _ written);
      })
    where
      double : (b : Bool) → not b ≡ false → not b ≡ false
      double b k = k

  load_state-origin :
      {s : State} (o : Opened) (r : ReadState)
      → w.state_opened ≡ o
      → read_private o ≡ r
      → load_state crypto codec w (join private_dir ca_state_file) draw now r ≡ ok s
      → IsStored s ⊎ IsNew s
  unfolding load_state
  load_state-origin o missing e k h = inr (create_state-IsNew (e ∙ read_private-missing o k) h)
  load_state-origin o failed e k h = cc
  load_state-origin o (bytes raw) e k h =
      let (info, same, kind, perm, size) = read_private-bytes o k in
      inl (info, raw, e ∙ same, kind, perm, size, or_fail-ok _ _ h)

  use_state-IsOpened :
      (s : State) {a : Authority}
      → IsStored s ⊎ IsNew s
      → w.lock_taken ≡ true
      → IsSafeDirectory private_dir 0o077 w.private_calls
      → IsSafeDirectory public_dir 0o022 w.public_calls
      → text_eq private_dir public_dir ≡ false
      → use_state crypto codec w public_dir now s ≡ ok a
      → IsOpened a
  unfolding use_state
  use_state-IsOpened s {a} origin locked private_safe public_safe apart h =
      let (pair, paired, h₁) = >>=-ok _ _ h in
      let (cert, leaf, h₂) = >>=-ok _ _ h₁ in
      let (usable, h₃) = refuse_if-ok _ _ _ h₂ in
      let (signed, h₄) = refuse_if-ok _ _ _ h₃ in
      let (key, has_key, h₅) = >>=-ok _ _ h₄ in
      let (published, h₆) = refuse_if-ok _ _ _ h₅ in
      let same : record { certificate = cert; key = key } ≡ a = ground arith in
      subst IsOpened same (record {
        state = s;
        origin = origin;
        pair = pair;
        paired = or_fail-ok _ _ paired;
        leaf = or_fail-ok _ _ leaf;
        key = or_fail-ok _ _ has_key;
        usable = is_usable-IsUsable cert now (kept _ usable);
        self_signed = kept _ signed;
        published = publish_certificate-IsPublished _ _ _ _ _ _ (succeeds _ published);
        locked = locked;
        private_safe = private_safe;
        public_safe = public_safe;
        apart = different private_dir public_dir apart;
      })

  -- An authority that Open returns was read from the state file, a regular file of 64 KiB at most that
  -- is closed to all other users, or made, as an authority for ten
  -- years, and durably written for the user only where no trace of an older one stood. Its certificate
  -- is an authority's that may sign certificates, valid now and for an hour, and signed by itself. It
  -- is published: its PEM form was durably linked to the path, or the file that was there holds the
  -- block of this very certificate and nothing behind it. The lock is held; both directories are clean
  -- absolute paths without links and different, the private one is closed to all other users, the
  -- public one is writable to none of them.
  pub open_authority-IsOpened :
      {a : Authority}
      → open_authority crypto codec w private_dir public_dir draw now ≡ ok a
      → IsOpened a
  unfolding open_authority open_locked
  open_authority-IsOpened h =
      let (private_ok, h₁) =
        refuse_if-ok (is_some (open_directory private_dir 0o700 w.private_calls)) _ _ h in
      let (public_ok, h₂) =
        refuse_if-ok (is_some (open_directory public_dir 0o755 w.public_calls)) _ _ h₁ in
      let (apart, h₃) = refuse_if-ok _ _ _ h₂ in
      let (_, h₄) = refuse_if-ok _ _ _ h₃ in
      let (locked, h₅) = refuse_if-ok _ _ _ h₄ in
      let (s, loaded, used) = >>=-ok _ _ h₅ in
      use_state-IsOpened s
        (load_state-origin w.state_opened (read_private w.state_opened) refl refl loaded)
        (kept _ locked)
        (unfold forbidden in
          open_directory-IsSafeDirectory private_dir 0o700 w.private_calls (unset _ private_ok))
        (unfold forbidden in
          open_directory-IsSafeDirectory public_dir 0o755 w.public_calls (unset _ public_ok))
        apart used
