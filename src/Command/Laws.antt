-- ===== src/Command/Laws.antt =====
-- Which command lines start the daemon, and what trust-init writes.
use mathlib.Core.Path.{subst}
use egress_gateway.Prelude.{
  ℕ, ◌≡◌, ◌↔◌, refl, sym, ap, ◌∙◌, inl, inr, Bool, true, false, Bool-cases, neither_iff, not, ◌==◌,
  List, [], ◌∷◌, Option, some, Text, text, Text-discrete, arith,
}
use egress_gateway.Prelude.Results.{
  Result, ok, err, >>=-ok, refuse_if-ok, or_fail-ok, ok-injective, ◌>>=◌,
}
use egress_gateway.GoLib.Strings.{is_set}
use egress_gateway.GoLib.FilePath.{text_eq}
use egress_gateway.Config.Laws.{text_eq_iff}
use egress_gateway.Config.Validate.{Config, ConfigError}
use egress_gateway.Inspection.Crypto.{Bytes}
use egress_gateway.Inspection.Ca.Bundle.{Pem, BundleError, bundle}
use egress_gateway.Inspection.Ca.Bundle.Laws.{IsBundle, bundle-IsBundle}
use egress_gateway.Daemon.Envoy.{Generated}
use egress_gateway.Command.{
  CommandError, TrustFlags, CommandEnd, runs, writes, checks_ready, parse_policies, asks_ready,
  run_daemon, or_bundle, or_config, trust_init, run,
}

-- The command line of a list of policies
abbrev pub policy_args : List Text → List Text
policy_args [] = []
policy_args (p ∷ ps) = text "--policy" ∷ p ∷ policy_args ps

parse-policy_args : (ps : List Text) → parse_policies (policy_args ps) ≡ ok ps
unfolding parse_policies text_eq Text-discrete ◌>>=◌
parse-policy_args [] = refl
parse-policy_args (p ∷ ps) = rw (parse-policy_args ps) refl

parse_policies-args : (args ps : List Text) → parse_policies args ≡ ok ps → args ≡ policy_args ps
unfolding parse_policies
parse_policies-args [] ps h = ap policy_args (ok-injective h)
parse_policies-args (a ∷ []) ps h = cc
parse_policies-args (a ∷ path ∷ args) ps h = elim (Bool-cases (text_eq a (text "--policy"))) [
  | inl e ↦
      let (paths, rest, last) = >>=-ok _ _ (rw e at h) in
      let same : path ∷ paths ≡ ps = ok-injective last in
      let named : a ∷ path ∷ args ≡ policy_args (path ∷ paths) =
        cc ((text_eq_iff a (text "--policy")).0 e, parse_policies-args args paths rest) in
      named ∙ ap policy_args same
  | inr e ↦ cc (rw e at h)
]

-- An action is not a file of trust-init.
runs_policies :
    {c d : Config} {ps qs : List Text} → ◌≡◌ {A = CommandEnd} (runs c ps) (runs d qs) → ps ≡ qs
runs_policies h = ground arith

run_daemon-runs :
    (c : Config) (args ps : List Text)
    → run_daemon (ok c) args ≡ ok (runs c ps)
    → parse_policies args ≡ ok ps
unfolding run_daemon or_config ◌>>=◌
run_daemon-runs c args ps h = elim (Bool-cases (asks_ready args)) [
  | inl e ↦ absurd (not_ready (rw e at h))
  | inr e ↦
      let (policies, parses, last) = >>=-ok (parse_policies args) _ (rw e at h) in
      parses ∙ ap ok (runs_policies (ok-injective last))
]
  where
    not_ready : ◌≡◌ {A = Result CommandError CommandEnd} (ok (checks_ready c)) (ok (runs c ps)) → ⊥
    not_ready k = cc

module _ (pem : Pem) (fuel : ℕ) (parse : List Text → Option TrustFlags)
    (read_file : Text → Option Bytes) where
  -- The file that trust-init writes: readable by all, at the path that was given, a bundle of the
  -- files that were given.
  pub record IsTrustFile (args : List Text) (w : Generated) : Type 0 where
    pub flags : TrustFlags
    pub parsed : parse args ≡ some flags
    pub no_more : (flags.left_over == 0) ≡ true
    pub base : Bytes
    pub is_base : read_file flags.base ≡ some base
    pub ca : Bytes
    pub is_ca : read_file flags.ca ≡ some ca
    pub bundled : bundle pem fuel base ca ≡ ok w.content
    pub is_bundle : IsBundle pem base ca w.content
    pub path : w.path ≡ flags.output
    pub path_given : is_set flags.output ≡ true
    pub mode : w.mode ≡ 0o644

  or_bundle-ok : (r : Result BundleError Bytes) {b : Bytes} → or_bundle r ≡ ok b → r ≡ ok b
  unfolding or_bundle
  or_bundle-ok (err e) h = cc
  or_bundle-ok (ok b) h = ap ok (ok-injective h)

  trust_init-IsTrustFile :
      (args : List Text) {a : CommandEnd}
      → trust_init pem fuel parse read_file args ≡ ok a
      → (w : Generated) × (a ≡ writes w) × IsTrustFile args w
  unfolding trust_init
  trust_init-IsTrustFile args {a} h =
      let (f, parses, h₁) = >>=-ok _ _ h in
      let (given, h₂) = refuse_if-ok _ _ _ h₁ in
      let (base, reads, h₃) = >>=-ok _ _ h₂ in
      let (ca, reads', h₄) = >>=-ok _ _ h₃ in
      let (content, bundles, last) = >>=-ok _ _ h₄ in
      let (g, output) = (neither_iff _ _).0 given in
      let (g', ca_given) = (neither_iff _ _).0 g in
      let (more, base_given) = (neither_iff _ _).0 g' in
      (
        record { path = f.output; content = content; mode = 0o644 },
        sym (ok-injective last),
        record {
          flags = f;
          parsed = or_fail-ok _ _ parses;
          no_more = kept _ more;
          base = base;
          is_base = or_fail-ok _ _ reads;
          ca = ca;
          is_ca = or_fail-ok _ _ reads';
          bundled = or_bundle-ok _ bundles;
          is_bundle = bundle-IsBundle pem fuel base ca (or_bundle-ok _ bundles);
          path = refl;
          path_given = kept _ output;
          mode = refl;
        },
      )
    where
      kept : (b : Bool) → not b ≡ false → b ≡ true
      kept b k = ground arith

  run_policies :
      (c : Config) (ps : List Text)
      → run pem fuel parse read_file (ok c) (policy_args ps) ≡ ok (runs c ps)
  unfolding run run_daemon or_config asks_ready text_eq Text-discrete ◌>>=◌
  run_policies c [] = rw (parse-policy_args []) refl
  run_policies c (p ∷ ps) = rw (parse-policy_args (p ∷ ps)) refl

  run-args :
      (c : Config) (args ps : List Text)
      → run pem fuel parse read_file (ok c) args ≡ ok (runs c ps)
      → args ≡ policy_args ps
  unfolding run
  run-args c [] ps h = parse_policies-args [] ps (run_daemon-runs c [] ps h)
  run-args c (a ∷ args) ps h = elim (Bool-cases (text_eq a (text "trust-init"))) [
    | inl e ↦ let (w, same, file) = trust_init-IsTrustFile args (rw e at h) in absurd (no_file same)
    | inr e ↦ parse_policies-args (a ∷ args) ps (run_daemon-runs c (a ∷ args) ps (rw e at h))
  ]
    where
      no_file : {w : Generated} → runs c ps ≡ writes w → ⊥
      no_file k = cc

  -- With a configuration that loads, the daemon runs with a list of policies exactly if the command
  -- line names them in order, each behind --policy, and nothing else.
  pub run-runs_iff :
      (c : Config) (args ps : List Text)
      → (run pem fuel parse read_file (ok c) args ≡ ok (runs c ps)) ↔ (args ≡ policy_args ps)
  run-runs_iff c args ps = (
    run-args c args ps,
    λ e.
        subst (λ l. run pem fuel parse read_file (ok c) l ≡ ok (runs c ps)) (sym e)
          (run_policies c ps),
  )

  -- If trust-init succeeds, with whatever configuration, it writes one file, readable by all, at the
  -- path that its flags give, and nothing followed the flags: a bundle of the two files that they name.
  pub run-IsTrustFile :
      (loaded : Result ConfigError Config) (args : List Text) {a : CommandEnd}
      → run pem fuel parse read_file loaded (text "trust-init" ∷ args) ≡ ok a
      → (w : Generated) × (a ≡ writes w) × IsTrustFile args w
  unfolding run text_eq Text-discrete
  run-IsTrustFile loaded args h = trust_init-IsTrustFile args h
