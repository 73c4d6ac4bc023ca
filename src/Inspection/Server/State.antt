-- ===== src/Inspection/Server/State.antt =====
-- The state of SecretServer, and the operations of container/list on its list.
use egress_gateway.Prelude.{
  ℕ, Bool, true, false, ◌||◌, List, [], ◌∷◌, Option, none, some, ite, ltb, if◌then◌else◌, Text,
  text, Text-discrete, ℕ_discrete, forget,
}
use egress_gateway.Inspection.Crypto.{Bytes}
use egress_gateway.Inspection.Leaf.{Authority}

-- discovery.Resource. The version is the number that fmt.Sprint prints.
pub record Resource : Type 0 where
  pub name : Text
  pub version : ℕ
  pub value : Bytes
  pub ttl : ℕ

pub record CachedSecret : Type 0 where
  pub name : Text
  pub resource : Resource
  pub expires : ℕ

pub record Element : Type 0 where
  pub address : ℕ
  pub secret : CachedSecret

-- discovery.DeltaDiscoveryRequest: the fields that the code reads
pub record Request : Type 0 where
  pub type_url : Text
  pub subscribe : List Text
  pub unsubscribe : List Text
  pub initial_versions : List Text
  pub error_detail : Bool

-- discovery.DeltaDiscoveryResponse
pub record Response : Type 0 where
  pub type_url : Text
  pub nonce : ℕ
  pub system_version_info : Text
  pub resources : List Resource
  pub removed : List Text

pub data StatusError : Type 0 where
  resource_exhausted failed_precondition invalid_argument canceled internal receive_error
        end_of_stream :
      StatusError

pub record Watch : Type 0 where
  pub names : List Text
  pub updates : List Response
  pub errors : List StatusError

-- `next_address` is the allocator's next address, `draws` the position in crypto/rand.
pub record Server : Type 0 where
  pub authority : Authority
  pub capacity : ℕ
  pub watches : List (ℕ × Watch)
  pub entries : Text → Option Element
  pub lru : List Element
  pub version : ℕ
  pub nonce : ℕ
  pub next_address : ℕ
  pub draws : ℕ

abbrev pub secret_type : Text
secret_type = text "type.googleapis.com/envoy.extensions.transport_sockets.tls.v3.Secret"

abbrev pub secret_ttl : ℕ
secret_ttl = 600_000_000_000

abbrev pub max_request_names : ℕ
max_request_names = 128

abbrev pub uint64_mod : ℕ
uint64_mod = 18_446_744_073_709_551_616

unfoldable pub empty_server : Authority → ℕ → Server
empty_server a capacity = record {
  authority = a;
  capacity = capacity;
  watches = [];
  entries = λ name. none;
  lru = [];
  version = 0;
  nonce = 0;
  next_address = 0;
  draws = 0;
}

-- NewSecretServer
unfoldable pub new_server : Option Authority → ℕ → Option Server
unfolding empty_server
new_server none capacity = none
new_server (some a) capacity =
    if ltb capacity 1 || ltb max_request_names capacity
    then none
    else some (empty_server a capacity)

unfoldable pub has_address : ℕ → List Element → Bool
has_address a [] = false
has_address a (e ∷ l) = ite (ℕ_discrete e.address a) true (has_address a l)

-- List.Remove: an element that is not in the list changes nothing.
unfoldable pub drop_address : ℕ → List Element → List Element
drop_address a [] = []
drop_address a (e ∷ l) = ite (ℕ_discrete e.address a) (drop_address a l) (e ∷ drop_address a l)

-- List.MoveToFront
unfoldable pub move_to_front : Element → List Element → List Element
unfolding has_address drop_address
move_to_front e l = if has_address e.address l then e ∷ drop_address e.address l else l

-- List.Back
unfoldable pub back : List Element → Option Element
back [] = none
back (e ∷ []) = some e
back (e ∷ f ∷ l) = back (f ∷ l)

-- SecretServer.remove
unfoldable pub remove : Text → Server → Server
unfolding drop_address
remove name s = elim (s.entries name) [
  | none ↦ s
  | some e ↦ record s {
    lru = drop_address e.address s.lru;
    entries = forget Text-discrete name s.entries;
  }
]
