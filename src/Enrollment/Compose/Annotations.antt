-- ===== src/Enrollment/Compose/Annotations.antt =====
-- The annotations of a composed Pod.
use egress_gateway.Prelude.{
  ◌≡◌, ◌≢◌, ◌⊎◌, inl, inr, List, [], ite, none, some, Text, text, Text-discrete, find, find-insert,
  find-erase, insert, erase, arith, Bool-cases,
}
use egress_gateway.GoLib.FilePath.{text_eq}
use egress_gateway.Config.Names.{workload}
use egress_gateway.Config.Laws.{text_eq_iff, text_ne}
use egress_gateway.Enrollment.Proxy.{Options}
use egress_gateway.Enrollment.Compose.{annotate, istio_status}

abbrev pub inject : Text
inject = text "sidecar.istio.io/inject"

abbrev pub outbound : Text
outbound = text "traffic.sidecar.istio.io/includeOutboundIPRanges"

abbrev pub inbound : Text
inbound = text "traffic.sidecar.istio.io/includeInboundPorts"

abbrev pub status : Text
status = text "sidecar.istio.io/status"

module _ {Network : Type 0} (o : Options Network) where
  -- The annotations by their keys: those of the role, and otherwise those of the business.
  abbrev pub AreAnnotations : List (Text × Text) → List (Text × Text) → Type 0
  AreAnnotations a b =
      ((o.role ≢ workload)
        × ((k : Text)
            → find Text-discrete k b
              ≡ ite (Text-discrete inject k) (some (text "false")) (find Text-discrete k a)))
      ⊎ ((o.role ≡ workload)
          × ((k : Text)
              → find Text-discrete k b
                ≡ ite (Text-discrete outbound k) (some (text "*")) (
                    ite (Text-discrete inbound k) (some []) (
                      ite (Text-discrete status k) (some istio_status)
                        (ite (Text-discrete inject k) none (find Text-discrete k a))))))

  pub annotate-AreAnnotations : (a : List (Text × Text)) → AreAnnotations a (annotate o a)
  unfolding annotate
  annotate-AreAnnotations a =
      let off = insert Text-discrete inject (text "false") a in
      let erased = erase Text-discrete inject off in
      let known = insert Text-discrete status istio_status erased in
      let ports = insert Text-discrete inbound [] known in
      elim (Bool-cases (text_eq o.role workload)) [
        | inl e ↦ inr (
          (text_eq_iff o.role workload).0 e,
          λ k. rw e (
              ground (
                arith,
                find-insert Text-discrete k outbound (text "*") ports,
                find-insert Text-discrete k inbound [] known,
                find-insert Text-discrete k status istio_status erased,
                find-erase Text-discrete k inject off,
                find-insert Text-discrete k inject (text "false") a,
              )),
        )
        | inr e ↦ inl (
          text_ne o.role workload e,
          λ k. rw e (find-insert Text-discrete k inject (text "false") a),
        )
      ]
