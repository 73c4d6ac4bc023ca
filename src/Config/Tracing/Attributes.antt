-- ===== src/Config/Tracing/Attributes.antt =====
-- LoadTracing: the resource attributes and the name of the service.
use egress_gateway.Prelude.{
  Bool, ◌||◌, List, [], ◌∷◌, Option, none, some, if◌then◌else◌, Text, text, Text-discrete, insert,
}
use egress_gateway.Prelude.Results.{ok, ◌>>=◌}
use egress_gateway.GoLib.Strings.{split_on, cut, trim_space}
use egress_gateway.GoLib.FilePath.{text_eq}
use egress_gateway.Config.Tracing.{
  Platform, Tracing, Checked, invalid, Lookup, get, is_empty, or_else,
}

-- The attributes that the pinned OPA supports.
unfoldable pub is_supported : Text → Bool
unfolding text_eq
is_supported key =
    text_eq key (text "service.version")
    || text_eq key (text "service.instance.id")
    || text_eq key (text "service.namespace")
    || text_eq key (text "deployment.environment")

-- The switch over the key.
unfoldable pub set_attribute : Text → Text → Tracing → Checked Tracing
unfolding text_eq is_supported insert
set_attribute key value c =
    if text_eq key (text "service.name")
    then ok (record c { service_name = value })
    else if is_supported key
    then ok (record c { resource = insert Text-discrete key value c.resource })
    else invalid (text "OTEL_RESOURCE_ATTRIBUTES: attribute not supported by pinned OPA")

unfoldable pub set_unescaped : Text → Option Text → Tracing → Checked Tracing
unfolding set_attribute
set_unescaped key none c = invalid (text "OTEL_RESOURCE_ATTRIBUTES")
set_unescaped key (some value) c = set_attribute key value c

module _ (platform : Platform) where
  unfoldable pub add_pair : Text × Text × Bool → Tracing → Checked Tracing
  unfolding trim_space set_unescaped
  add_pair (key, value, found) c =
      if found
      then set_unescaped (trim_space key) (platform.path_unescape (trim_space value)) c
      else invalid (text "OTEL_RESOURCE_ATTRIBUTES")

  -- An item of blanks is passed over.
  unfoldable pub add_item : Text → Tracing → Checked Tracing
  unfolding trim_space is_empty cut add_pair
  add_item item c = if is_empty (trim_space item) then ok c else add_pair (cut b'=' item) c

  unfoldable pub add_items : List Text → Tracing → Checked Tracing
  unfolding ◌>>=◌ add_item
  add_items [] c = ok c
  add_items (item ∷ items) c = add_item item c >>= add_items items

  unfoldable pub load_attributes : Lookup → Tracing → Checked Tracing
  unfolding ◌>>=◌ add_items split_on get or_else
  load_attributes lookup c = do
    c' ← add_items (split_on b',' (get lookup (text "OTEL_RESOURCE_ATTRIBUTES"))) c
    ok (record c' {
      service_name = or_else (get lookup (text "OTEL_SERVICE_NAME")) c'.service_name;
    })
