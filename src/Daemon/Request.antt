-- ===== src/Daemon/Request.antt =====
-- internal/request/filter.go: the filter that embeds the Lua guard. The text of guard.lua and
-- strconv.Quote are parameters.
use egress_gateway.Prelude.{◌++◌, Text, text}
use egress_gateway.Daemon.Json.{Json, string, object, no_fields, field}

pub record Guard : Type 0 where
  pub guard : Text
  pub quote : Text → Text

-- source, Source, HTTPSource and Filter
module _ (g : Guard) where
  unfoldable pub source : Text → Text → Text
  source role scheme =
      text "local role = "
      ++ g.quote role
      ++ text "\nlocal scheme = "
      ++ g.quote scheme
      ++ text "\n"
      ++ g.guard

  unfoldable pub https_source : Text → Text
  https_source role = source role (text "https")

  unfoldable pub http_source : Text → Text
  http_source role = source role (text "http")

  unfoldable pub filter : Text → Json
  filter role = object (
      field (text "@type")
        (string (text "type.googleapis.com/envoy.extensions.filters.http.lua.v3.Lua"))
        (field (text "default_source_code")
          (object (field (text "inline_string") (string (https_source role)) no_fields)) no_fields))
