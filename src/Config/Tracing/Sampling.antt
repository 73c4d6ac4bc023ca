-- ===== src/Config/Tracing/Sampling.antt =====
-- LoadTracing: the sampler, the propagators and the batch processor.
use egress_gateway.Prelude.{
  ℕ, ◌&&◌, ◌||◌, not, List, [], ◌∷◌, ◌++◌, Option, none, some, ltb, ◌==◌, if◌then◌else◌, Text, text,
  Text-discrete, insert, find,
}
use egress_gateway.Prelude.Results.{ok, ◌>>=◌, ◌>>◌, refuse_if}
use egress_gateway.GoLib.FilePath.{text_eq}
use egress_gateway.GoLib.Numbers.{atoi}
use egress_gateway.Config.Tracing.{
  refuse, Platform, Tracing, Checked, invalid, Lookup, get, is_empty, float_zero, float_one,
}
use egress_gateway.Config.Tracing.Endpoint.{positive}

module _ (platform : Platform) where
  unfoldable pub set_ratio : Option ℕ → Tracing → Checked Tracing
  set_ratio none c = invalid (text "OTEL_TRACES_SAMPLER_ARG")
  set_ratio (some n) c =
      if platform.is_nan n || platform.float_ltb n float_zero || platform.float_ltb float_one n
      then invalid (text "OTEL_TRACES_SAMPLER_ARG")
      else ok (record c { sample_ratio = n })

  unfoldable pub set_sampler : Text → Text → Tracing → Checked Tracing
  unfolding text_eq is_empty set_ratio
  set_sampler sampler arg c =
      if is_empty sampler || text_eq sampler (text "parentbased_always_on")
      then ok c
      else if text_eq sampler (text "parentbased_always_off")
      then ok (record c { sample_ratio = float_zero })
      else if text_eq sampler (text "parentbased_traceidratio")
      then set_ratio (platform.parse_float arg) c
      else invalid (text "OTEL_TRACES_SAMPLER: pinned OPA requires a parent-based sampler")

  unfoldable pub load_sampler : Lookup → Tracing → Checked Tracing
  unfolding refuse_if ◌>>◌ ◌>>=◌ get set_sampler text_eq is_empty
  load_sampler lookup c = do
    let sampler = get lookup (text "OTEL_TRACES_SAMPLER")
    let arg = get lookup (text "OTEL_TRACES_SAMPLER_ARG")
    c' ← set_sampler sampler arg c
    refuse (not (is_empty arg) && not (text_eq sampler (text "parentbased_traceidratio")))
        (text "OTEL_TRACES_SAMPLER_ARG: requires parentbased_traceidratio")
    refuse (not (is_empty (get lookup (text "OTEL_PROPAGATORS"))))
        (text "OTEL_PROPAGATORS: OPA-Envoy uses fixed W3C and B3 propagation")
    ok c'

unfoldable pub set_batch : Text → Option ℕ → Tracing → Checked Tracing
unfolding insert
set_batch suffix none c = invalid (text "OTEL_BSP_" ++ suffix)
set_batch suffix (some n) c = ok (record c { batch = insert Text-discrete suffix n c.batch })

unfoldable pub load_batch_item : Lookup → Text → Tracing → Checked Tracing
unfolding get is_empty set_batch positive atoi
load_batch_item lookup suffix c =
    let v = get lookup (text "OTEL_BSP_" ++ suffix) in
    if is_empty v then ok c else set_batch suffix (positive (atoi v)) c

unfoldable pub load_batch_items : Lookup → List Text → Tracing → Checked Tracing
unfolding ◌>>=◌ load_batch_item
load_batch_items lookup [] c = ok c
load_batch_items lookup (s ∷ ss) c = load_batch_item lookup s c >>= load_batch_items lookup ss

-- `c.Batch[key]`, with the default in place of a missing or zero entry
unfoldable pub or_default : Option ℕ → ℕ → ℕ
or_default none d = d
or_default (some n) d = if n == 0 then d else n

unfoldable pub queue_size : Tracing → ℕ
unfolding find or_default
queue_size c = or_default (find Text-discrete (text "MAX_QUEUE_SIZE") c.batch) 2048

unfoldable pub batch_size : Tracing → ℕ
unfolding find or_default
batch_size c = or_default (find Text-discrete (text "MAX_EXPORT_BATCH_SIZE") c.batch) 512

abbrev pub batch_suffixes : List Text
batch_suffixes =
    text "SCHEDULE_DELAY"
    ∷ text "EXPORT_TIMEOUT"
    ∷ text "MAX_QUEUE_SIZE"
    ∷ text "MAX_EXPORT_BATCH_SIZE"
    ∷ []

unfoldable pub load_batch : Lookup → Tracing → Checked Tracing
load_batch lookup c = do
  c' ← load_batch_items lookup batch_suffixes c
  refuse (ltb (queue_size c') (batch_size c'))
      (text "OTEL_BSP_MAX_EXPORT_BATCH_SIZE: exceeds queue size")
  ok c'
