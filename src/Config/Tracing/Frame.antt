-- ===== src/Config/Tracing/Frame.antt =====
-- The stages of LoadTracing behind the endpoint leave the exporter's settings alone.
use egress_gateway.GoLib.Strings.{trim_space, cut, split_on}
use egress_gateway.GoLib.FilePath.{text_eq}
use egress_gateway.Prelude.{
  ℕ, ap, text, ◌||◌, ◌&&◌, not, ltb, ◌++◌, ◌≡◌, refl, ◌∙◌, Bool, true, false, List, [], ◌∷◌, Option,
  none, some, Text, if_both,
}
use egress_gateway.Prelude.Results.{ok, err, ok-injective, ◌>>=◌, ◌>>◌, refuse_if}
use egress_gateway.Config.Tracing.{
  is_empty, get, or_else, float_zero, float_one, Tracing, Checked, Platform, Lookup, TracingError,
  setting,
}
use egress_gateway.Config.Tracing.Attributes.{
  is_supported, set_attribute, set_unescaped, add_pair, add_item, add_items, load_attributes,
}
use egress_gateway.Config.Tracing.Sampling.{
  set_ratio, set_sampler, load_sampler, set_batch, load_batch_item, load_batch_items, load_batch,
  batch_suffixes, queue_size, batch_size,
}

abbrev pub Exporter : Type 0
Exporter = Text × Text × Bool × Text × Text × Text

abbrev pub exporter : Tracing → Exporter
exporter c = (c.protocol, c.address, c.tls, c.certificate, c.client_certificate, c.client_key)

-- If there are settings at all, their exporter is that of `c`.
pub data Keeps (c : Tracing) : Checked Tracing → Type 0 where
  kept : {d : Tracing} → exporter c ≡ exporter d → Keeps c (ok d)
  refused : {e : TracingError} → Keeps c (err e)

pub Keeps-ok :
    {c d : Tracing} {r : Checked Tracing} → Keeps c r → r ≡ ok d → exporter c ≡ exporter d
Keeps-ok (kept q) h = q ∙ ap exporter (ok-injective h)
Keeps-ok refused h = cc

Keeps-trans :
    {c d : Tracing} {r : Checked Tracing} → exporter c ≡ exporter d → Keeps d r → Keeps c r
Keeps-trans p (kept q) = kept (p ∙ q)
Keeps-trans p refused = refused

>>=-Keeps :
    {c : Tracing} {m : Checked Tracing} {next : Tracing → Checked Tracing}
    → Keeps c m
    → ((d : Tracing) → Keeps d (next d))
    → Keeps c (m >>= next)
unfolding ◌>>=◌
>>=-Keeps {next = next} (kept {d} q) k = Keeps-trans q (k d)
>>=-Keeps refused k = refused

>>-Keeps :
    {c : Tracing} (bad : Bool) (name : Text) {next : Checked Tracing}
    → Keeps c next
    → Keeps c (refuse_if bad (setting name) >> next)
unfolding ◌>>◌ ◌>>=◌ refuse_if
>>-Keeps true name h = refused
>>-Keeps false name h = h

set_attribute-Keeps : (key value : Text) (c : Tracing) → Keeps c (set_attribute key value c)
unfolding set_attribute
set_attribute-Keeps key value c =
    if_both (Keeps c) (text_eq key (text "service.name")) (kept refl)
      (if_both (Keeps c) (is_supported key) (kept refl) refused)

set_unescaped-Keeps : (key : Text) (o : Option Text) (c : Tracing) → Keeps c (set_unescaped key o c)
unfolding set_unescaped
set_unescaped-Keeps key none c = refused
set_unescaped-Keeps key (some value) c = set_attribute-Keeps key value c

set_batch-Keeps : (suffix : Text) (o : Option ℕ) (c : Tracing) → Keeps c (set_batch suffix o c)
unfolding set_batch
set_batch-Keeps suffix none c = refused
set_batch-Keeps suffix (some n) c = kept refl

load_batch_item-Keeps :
    (lookup : Lookup) (suffix : Text) (c : Tracing) → Keeps c (load_batch_item lookup suffix c)
unfolding load_batch_item
load_batch_item-Keeps lookup suffix c =
    if_both (Keeps c) (is_empty (get lookup (text "OTEL_BSP_" ++ suffix))) (kept refl)
      (set_batch-Keeps suffix _ c)

load_batch_items-Keeps :
    (lookup : Lookup) (suffixes : List Text) (c : Tracing)
    → Keeps c (load_batch_items lookup suffixes c)
unfolding load_batch_items
load_batch_items-Keeps lookup [] c = kept refl
load_batch_items-Keeps lookup (s ∷ ss) c =
    >>=-Keeps (load_batch_item-Keeps lookup s c) (load_batch_items-Keeps lookup ss)

module _ (platform : Platform) where
  add_pair-Keeps : (pair : Text × Text × Bool) (c : Tracing) → Keeps c (add_pair platform pair c)
  unfolding add_pair
  add_pair-Keeps (key, value, true) c =
      set_unescaped-Keeps (trim_space key) (platform.path_unescape (trim_space value)) c
  add_pair-Keeps (key, value, false) c = refused

  add_item-Keeps : (item : Text) (c : Tracing) → Keeps c (add_item platform item c)
  unfolding add_item
  add_item-Keeps item c =
      if_both (Keeps c) (is_empty (trim_space item)) (kept refl) (add_pair-Keeps (cut b'=' item) c)

  add_items-Keeps : (items : List Text) (c : Tracing) → Keeps c (add_items platform items c)
  unfolding add_items
  add_items-Keeps [] c = kept refl
  add_items-Keeps (item ∷ items) c = >>=-Keeps (add_item-Keeps item c) (add_items-Keeps items)

  pub load_attributes-Keeps :
      (lookup : Lookup) (c : Tracing) → Keeps c (load_attributes platform lookup c)
  unfolding load_attributes
  load_attributes-Keeps lookup c =
      >>=-Keeps (add_items-Keeps (split_on b',' (get lookup (text "OTEL_RESOURCE_ATTRIBUTES"))) c)
        (λ d.
          kept
            {d = record d {
              service_name = or_else (get lookup (text "OTEL_SERVICE_NAME")) d.service_name;
            }}
            refl)

  set_ratio-Keeps : (o : Option ℕ) (c : Tracing) → Keeps c (set_ratio platform o c)
  unfolding set_ratio
  set_ratio-Keeps none c = refused
  set_ratio-Keeps (some n) c =
      if_both (Keeps c)
        (platform.is_nan n || platform.float_ltb n float_zero || platform.float_ltb float_one n)
        refused (kept refl)

  set_sampler-Keeps :
      (sampler arg : Text) (c : Tracing) → Keeps c (set_sampler platform sampler arg c)
  unfolding set_sampler
  set_sampler-Keeps sampler arg c =
      if_both (Keeps c) (is_empty sampler || text_eq sampler (text "parentbased_always_on"))
        (kept refl)
        (if_both (Keeps c) (text_eq sampler (text "parentbased_always_off")) (kept refl) (
          if_both (Keeps c) (text_eq sampler (text "parentbased_traceidratio"))
            (set_ratio-Keeps _ c) refused))

  pub load_sampler-Keeps :
      (lookup : Lookup) (c : Tracing) → Keeps c (load_sampler platform lookup c)
  unfolding load_sampler
  load_sampler-Keeps lookup c = >>=-Keeps (set_sampler-Keeps sampler arg c) (λ d.
      >>-Keeps (not (is_empty arg) && not (text_eq sampler (text "parentbased_traceidratio"))) _
        (>>-Keeps (not (is_empty (get lookup (text "OTEL_PROPAGATORS")))) _ (kept refl)))
    where
      sampler : Text
      sampler = get lookup (text "OTEL_TRACES_SAMPLER")

      arg : Text
      arg = get lookup (text "OTEL_TRACES_SAMPLER_ARG")

pub load_batch-Keeps : (lookup : Lookup) (c : Tracing) → Keeps c (load_batch lookup c)
unfolding load_batch
load_batch-Keeps lookup c =
    >>=-Keeps (load_batch_items-Keeps lookup batch_suffixes c)
      (λ d. >>-Keeps (ltb (queue_size d) (batch_size d)) _ (kept refl))
