-- ===== src/Enrollment/Compose/Mounts.antt =====
-- The trust mounts of the business containers.
use mathlib.Core.Path.{subst}
use mathlib.Core.List.{append_assoc, append-nil}
use egress_gateway.Prelude.{
  map, ◌≡◌, refl, sym, ap, ◌∙◌, ◌⊎◌, inl, inr, true, false, List, [], ◌∷◌, ◌++◌, Text, text, arith,
  All, All-append, Bool-cases, if◌then◌else◌,
}
use egress_gateway.Prelude.Results.{Result, ok, err, ◌>>=◌, >>=-ok, refuse_if-ok, ok-injective}
use egress_gateway.GoLib.FilePath.{text_eq}
use egress_gateway.Config.Names.{bundle_file}
use egress_gateway.Config.Laws.{text_eq_iff}
use egress_gateway.Enrollment.Pod.{VolumeMount, Container, container_name}
use egress_gateway.Enrollment.Proxy.{Options}
use egress_gateway.Enrollment.Compose.{
  ComposeError, mounts_at, bundle_mount, add_trust_mount, add_trust_mounts,
}

-- The bundle, for reading
abbrev pub IsBundleMount : VolumeMount → Type 0
IsBundleMount m = (m.name ≡ text "bundle") × (m.sub_path ≡ bundle_file) × (m.read_only ≡ true)

-- The container with mounts of the bundle, and nothing else changed
abbrev pub IsMounted : Container → Container → Type 0
IsMounted c d =
    (ms : List VolumeMount) × (d ≡ record c { volume_mounts = c.volume_mounts ++ ms })
    × All IsBundleMount ms

abbrev pub AreMounted : List Container → List Container → Type 0
AreMounted [] [] = Unit
AreMounted [] (d ∷ ds) = ⊥
AreMounted (c ∷ cs) [] = ⊥
AreMounted (c ∷ cs) (d ∷ ds) = IsMounted c d × AreMounted cs ds

-- The bundle is mounted at the path, for reading.
abbrev pub HasBundle : Text → List VolumeMount → Type 0
HasBundle path [] = ⊥
HasBundle path (m ∷ ms) =
    (m ≡ record {
      name = text "bundle";
      mount_path = path;
      sub_path = bundle_file;
      read_only = true;
    })
    ⊎ HasBundle path ms

-- A container of the name has it.
abbrev pub HasMount : Text → Text → List Container → Type 0
HasMount name path [] = ⊥
HasMount name path (c ∷ cs) =
    ((c.name ≡ name) × HasBundle path c.volume_mounts) ⊎ HasMount name path cs

IsMounted-refl : (c : Container) → IsMounted c c
IsMounted-refl c = (
  [],
  ap (λ (ms : List VolumeMount). record c { volume_mounts = ms })
      (sym (append-nil c.volume_mounts)),
  tt,
)

IsMounted-trans : (c d e : Container) → IsMounted c d → IsMounted d e → IsMounted c e
IsMounted-trans c d e (ms, p, a) (ns, q, b) = (
  ms ++ ns,
  q
      ∙ ap (λ (x : Container). record x { volume_mounts = x.volume_mounts ++ ns }) p
      ∙ ap (λ (l : List VolumeMount). record c { volume_mounts = l })
          (append_assoc c.volume_mounts ms ns),
  All-append IsBundleMount ms ns a b,
)

AreMounted-refl : (cs : List Container) → AreMounted cs cs
AreMounted-refl [] = tt
AreMounted-refl (c ∷ cs) = (IsMounted-refl c, AreMounted-refl cs)

AreMounted-trans :
    (cs ds es : List Container) → AreMounted cs ds → AreMounted ds es → AreMounted cs es
AreMounted-trans [] [] [] p q = tt
AreMounted-trans [] [] (e ∷ es) p q = q
AreMounted-trans [] (d ∷ ds) es p q = absurd p
AreMounted-trans (c ∷ cs) [] es p q = absurd p
AreMounted-trans (c ∷ cs) (d ∷ ds) [] p q = q
AreMounted-trans (c ∷ cs) (d ∷ ds) (e ∷ es) p q =
    (IsMounted-trans c d e p.0 q.0, AreMounted-trans cs ds es p.1 q.1)

HasBundle-append :
    (path : Text) (ms ns : List VolumeMount) → HasBundle path ms → HasBundle path (ms ++ ns)
HasBundle-append path [] ns h = absurd h
HasBundle-append path (m ∷ ms) ns (inl e) = inl e
HasBundle-append path (m ∷ ms) ns (inr h) = inr (HasBundle-append path ms ns h)

-- A new mount is found at its path.
HasBundle-last :
    (path : Text) (ms : List VolumeMount) → HasBundle path (ms ++ (bundle_mount path ∷ []))
HasBundle-last path [] = inl refl
HasBundle-last path (m ∷ ms) = inr (HasBundle-last path ms)

HasMount-mounted :
    (name path : Text) (cs ds : List Container)
    → AreMounted cs ds
    → HasMount name path cs
    → HasMount name path ds
HasMount-mounted name path [] ds a h = absurd h
HasMount-mounted name path (c ∷ cs) [] a h = absurd a
HasMount-mounted name path (c ∷ cs) (d ∷ ds) a (inl h) =
    let (ms, same, _) = a.0 in
    inl (rw same h.0, rw same (HasBundle-append path c.volume_mounts ms h.1))
HasMount-mounted name path (c ∷ cs) (d ∷ ds) a (inr h) =
    inr (HasMount-mounted name path cs ds a.1 h)

add_trust_mount-ok :
    (name path : Text) (cs : List Container) {ds : List Container}
    → add_trust_mount name path cs ≡ ok ds
    → AreMounted cs ds × HasMount name path ds
unfolding add_trust_mount
add_trust_mount-ok name path [] h = cc
add_trust_mount-ok name path (c ∷ cs) {ds} h = elim (Bool-cases (text_eq c.name name)) [
  | inl e ↦ here e (Bool-cases (mounts_at path c.volume_mounts)) (rw e at h)
  | inr e ↦ there (λ rest. add_trust_mount-ok name path cs {ds = rest}) (rw e at h)
]
  where
    here :
        text_eq c.name name ≡ true
        → (mounts_at path c.volume_mounts ≡ true) ⊎ (mounts_at path c.volume_mounts ≡ false)
        → (if mounts_at path c.volume_mounts
            then err (ComposeError.mount_collision name)
            else ok (record c { volume_mounts = c.volume_mounts ++ (bundle_mount path ∷ []) } ∷ cs))
          ≡ ok ds
        → AreMounted (c ∷ cs) ds × HasMount name path ds
    here e (inl k) q = absurd (collides (rw k at q))
      where
        collides :
            ◌≡◌ {A = Result ComposeError (List Container)}
              (err (ComposeError.mount_collision name))
              (ok ds)
            → ⊥
        collides z = cc
    here e (inr k) q =
        subst (λ l. AreMounted (c ∷ cs) l × HasMount name path l) (ok-injective (rw k at q))
          (
            ((bundle_mount path ∷ [], refl, ((refl, refl, refl), tt)), AreMounted-refl cs),
            inl ((text_eq_iff c.name name).0 e, HasBundle-last path c.volume_mounts),
          )

    there :
        ((rest : List Container)
          → add_trust_mount name path cs ≡ ok rest
          → AreMounted cs rest × HasMount name path rest)
        → (add_trust_mount name path cs >>= (λ rest. ok (c ∷ rest))) ≡ ok ds
        → AreMounted (c ∷ cs) ds × HasMount name path ds
    there more_mounted q =
        let (rest, more, last) = >>=-ok (add_trust_mount name path cs) _ q in
        let (mounted, has) = more_mounted rest more in
        subst (λ l. AreMounted (c ∷ cs) l × HasMount name path l) (ok-injective last)
          ((IsMounted-refl c, mounted), inr has)

module _ {Network : Type 0} (o : Options Network) where
  -- The loop over the trust mounts changes nothing but the mounts of containers, adds only the
  -- bundle, for reading, and gives every container that is named its mount.
  pub add_trust_mounts-ok :
      (ms : List (Text × Text)) (cs : List Container) {ds : List Container}
      → add_trust_mounts o ms cs ≡ ok ds
      → AreMounted cs ds × All (λ m. HasMount m.0 m.1 ds) ms
  unfolding add_trust_mounts
  add_trust_mounts-ok [] cs {ds} h =
      (subst (AreMounted cs) (ok-injective h) (AreMounted-refl cs), tt)
  add_trust_mounts-ok ((name, path) ∷ ms) cs {ds} h =
      let (_, h₁) = refuse_if-ok _ _ _ h in
      let (changed, adds, more) = >>=-ok _ _ h₁ in
      let (mounted, has) = add_trust_mount-ok name path cs adds in
      let (later, all) = add_trust_mounts-ok ms changed more in
      (
        AreMounted-trans cs changed ds mounted later,
        (HasMount-mounted name path changed ds later has, all),
      )

-- Names stay, in order.
pub AreMounted-names :
    (cs ds : List Container) → AreMounted cs ds → map container_name ds ≡ map container_name cs
AreMounted-names [] [] h = refl
AreMounted-names [] (d ∷ ds) h = absurd h
AreMounted-names (c ∷ cs) [] h = absurd h
AreMounted-names (c ∷ cs) (d ∷ ds) h = ground (arith, AreMounted-names cs ds h.1, h.0.1)
