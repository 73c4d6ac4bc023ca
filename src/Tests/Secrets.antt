-- ===== src/Tests/Secrets.antt =====
-- internal/inspection/sds.go and leaf.go at work, with cryptography that only marks its inputs.
use egress_gateway.Prelude.{IsDistinct}
use egress_gateway.Prelude.{
  ℕ, ◌+◌, ◌<◌, ◌≤◌, ◌≡◌, refl, ◌↔◌, Bool, true, false, ◌&&◌, not, List, [], ◌∷◌, Option, none, some,
  Text, text, Text-discrete, ℕ_discrete, find, length, has, arith,
}
use egress_gateway.Prelude.Results.{ok, err}
use egress_gateway.GoLib.Strings.{to_lower}
use egress_gateway.Inspection.Crypto.{Crypto, Certificate, minute}
use egress_gateway.Inspection.Leaf.{Authority, issue}
use egress_gateway.Inspection.Leaf.Laws.{IsIssued, issue-IsIssued}
use egress_gateway.Inspection.Names
use egress_gateway.Inspection.Names.{canonical_name}
use egress_gateway.Inspection.Names.Laws.{IsServerName, canonical_name-ok_iff}
use egress_gateway.Inspection.Server.State.{
  Server, Watch, Request, Response, secret_type, empty_server, new_server,
}
use egress_gateway.Inspection.Server.Update.{Updated, answered, sorted, requested, update_locked}
use egress_gateway.Inspection.Server.Recency.{order_of}
use egress_gateway.Inspection.Server.Refinement.{
  release, is_name, use_names, update_locked-use_names,
}
use egress_gateway.Inspection.Server.Responses.{IsOutcome, update_locked-IsOutcome, names_of}
use egress_gateway.Inspection.Server.Consistency.{empty_server-IsConsistent}
use egress_gateway.Inspection.Server.Watches.{
  event_for, notify, receive, notify_all, Processed, done, refused, crashed, deliver, process,
  process_watch,
}
use egress_gateway.Inspection.Server.Watches.Limits.{process-names}
use egress_gateway.Inspection.Server.Watches.Delivery.{
  AreChosen, notify-names, notify-Queued, Queued,
}
use egress_gateway.Inspection.Server.Watches.Bounds.{IsServing, Survives}
use egress_gateway.Inspection.Server.Watches.Steps.{here, Reach-new_server}

abbrev lower : ℕ → ℕ
lower c = c

abbrev no_ipv6 : Text → Bool
no_ipv6 s = false

abbrev pub marking : Crypto
marking = record {
  generate_key = λ d. some (d ∷ []);
  random_serial = λ d. some d;
  public_key = λ k. k;
  create_certificate = λ d template parent public key. some (d ∷ []);
  marshal_key = λ k. some k;
  pem_certificate = λ d. d;
  pem_private_key = λ k. k;
  any_new = λ s. some s.certificate_chain;
}

abbrev root_certificate : Certificate
root_certificate = record {
  raw = [];
  serial_number = 1;
  common_name = text "Gateway Pod inspection CA";
  dns_names = [];
  not_before = 0;
  not_after = 10_000_000_000_000;
  is_ca = true;
  basic_constraints_valid = true;
  max_path_len_zero = true;
  key_usage = [];
  ext_key_usage = [];
}

abbrev root : Authority
root = record { certificate = root_certificate; key = 7 ∷ [] }

abbrev ask : List Text → Request
ask names = record {
  type_url = secret_type;
  subscribe = names;
  unsubscribe = [];
  initial_versions = [];
  error_detail = false;
}

-- The names and removals of an answer.
abbrev summary : Updated → Option (List Text × List Text)
summary (answered s r) = some (names_of r.resources, r.removed)
summary (Updated.failed s) = none
summary Updated.panicked = none

abbrev server_of : Updated → Server
server_of (answered s r) = s
server_of (Updated.failed s) = s
server_of Updated.panicked = empty_server root 1

run : List Text → Server → Updated
unfolding update_locked
run names s = update_locked marking lower no_ipv6 (ask names) 1_000 s

canonical_upper : canonical_name lower no_ipv6 (text "API.Example") ≡ ok (text "api.example")
unfolding canonical_name
canonical_upper = refl

canonical_address : canonical_name lower no_ipv6 (text "10.0.0.1") ≡ err Names.needs_dns_name
unfolding canonical_name
canonical_address = refl

two_names :
    summary (run (text "b" ∷ text "a" ∷ text "-x" ∷ []) (empty_server root 2))
    ≡ some (text "a" ∷ text "b" ∷ [], text "-x" ∷ [])
unfolding run empty_server Text-discrete
two_names = refl

-- A full cache whose back is asked for behind a new name: the answer both sends `b` and removes it.
sent_and_removed :
    summary (
      run
        (text "a" ∷ text "b" ∷ [])
        (server_of (run (text "x" ∷ []) (server_of (run (text "b" ∷ []) (empty_server root 2))))))
    ≡ some (text "a" ∷ text "b" ∷ [], text "b" ∷ text "x" ∷ [])
unfolding run empty_server Text-discrete
sent_and_removed = refl

canonical_name-ok_iff_example :
    (canonical_name lower no_ipv6 (text "API.Example") ≡ ok (text "api.example")) ↔ (
      (text "api.example" ≡ to_lower lower (text "API.Example"))
      × IsServerName lower no_ipv6 (text "API.Example"))
canonical_name-ok_iff_example =
    canonical_name-ok_iff lower no_ipv6 (text "API.Example") (text "api.example")

issue-IsIssued_example :
    IsIssued marking root (text "a") 3 1_000 (3 ∷ [], 3 ∷ [])
    × (0 ≤ 1_000)
    × (1_000 + minute < 10_000_000_000_000)
unfolding issue
issue-IsIssued_example = issue-IsIssued marking root (text "a") 3 1_000 refl

update_locked-IsOutcome_example :
    IsOutcome
      (ask (text "a" ∷ []))
      1_000
      (update_locked marking lower no_ipv6 (ask (text "a" ∷ [])) 1_000 (empty_server root 2))
update_locked-IsOutcome_example =
    update_locked-IsOutcome marking lower no_ipv6 (ask (text "a" ∷ [])) 1_000 (empty_server root 2)
      (empty_server-IsConsistent root 2 (omega arith) (omega arith))

abbrev quiet : Watch
quiet = record { names = text "a" ∷ []; updates = []; errors = [] }

abbrev removal : Response
removal = record {
  type_url = secret_type;
  nonce = 1;
  system_version_info = text "inspection";
  resources = [];
  removed = text "a" ∷ text "b" ∷ [];
}

notify-names_example :
    AreChosen quiet.names removal.resources (event_for removal quiet).resources
    × IsDistinct Text-discrete (event_for removal quiet).removed
    × ((event_for removal quiet).type_url ≡ removal.type_url)
    × ((event_for removal quiet).nonce ≡ removal.nonce)
    × ((event_for removal quiet).system_version_info ≡ removal.system_version_info)
    × (has Text-discrete (text "a") (names_of (event_for removal quiet).resources) ≡ (
        has Text-discrete (text "a") quiet.names
        && has Text-discrete (text "a") (names_of removal.resources)))
    × (has Text-discrete (text "a") (event_for removal quiet).removed ≡ (
        has Text-discrete (text "a") quiet.names && has Text-discrete (text "a") removal.removed))
    × (has Text-discrete (text "a") (notify removal quiet).names ≡ (
        has Text-discrete (text "a") quiet.names
        && not (has Text-discrete (text "a") removal.removed)))
notify-names_example = notify-names removal quiet (text "a")

notify-Queued_example : Queued (event_for removal quiet) quiet (notify removal quiet)
notify-Queued_example = notify-Queued removal quiet

Reach-new_server_example :
    IsServing (empty_server root 2)
    × Survives (receive marking lower no_ipv6 0 (ask (text "a" ∷ [])) 1_000 (empty_server root 2))
unfolding new_server
Reach-new_server_example =
    Reach-new_server marking lower no_ipv6 (some root) 2 0 (ask (text "a" ∷ [])) 1_000 refl here

-- The response of an answer
abbrev response_of : Updated → Response
response_of (answered s r) = r
response_of (Updated.failed s) = removal
response_of Updated.panicked = removal

abbrev asked : Updated
asked = update_locked marking lower no_ipv6 (ask (text "a" ∷ [])) 1_000 (empty_server root 2)

is_answered : asked ≡ answered (server_of asked) (response_of asked)
unfolding update_locked empty_server Text-discrete
is_answered = refl

update_locked-use_names_example :
    order_of (server_of asked)
    ≡ use_names
        (is_name lower no_ipv6)
        2
        (sorted (requested (ask (text "a" ∷ []))))
        (release [] [] (order_of (empty_server root 2)))
unfolding empty_server
update_locked-use_names_example =
    update_locked-use_names marking lower no_ipv6 (ask (text "a" ∷ [])) 1_000 (empty_server root 2)
      (empty_server-IsConsistent root 2 (omega arith) (omega arith)) is_answered

-- The abstract cache: of three names in a cache of two the first is given up.
three_uses :
    use_names (is_name lower no_ipv6) 2 (text "a" ∷ text "b" ∷ text "-x" ∷ text "c" ∷ []) []
    ≡ text "c" ∷ text "b" ∷ []
unfolding use_names is_name Text-discrete
three_uses = refl

-- A stream that asks for a name
abbrev one_stream : Server
one_stream = record (empty_server root 2) {
  watches = (0, record { names = []; updates = []; errors = [] }) ∷ [];
}

-- The server behind a request
abbrev behind : Processed → Server
behind (done s) = s
behind (refused e s) = s
behind crashed = one_stream

abbrev processed : Processed
processed = process marking lower no_ipv6 0 (ask (text "a" ∷ [])) 1_000 one_stream

is_done : processed ≡ done (behind processed)
unfolding process process_watch deliver update_locked empty_server Text-discrete
is_done = refl

-- Its watch
abbrev watch_of : Option Watch → Watch
watch_of none = quiet
watch_of (some w) = w

abbrev watching : Watch
watching = watch_of (find ℕ_discrete 0 (behind processed).watches)

is_watching : find ℕ_discrete 0 (behind processed).watches ≡ some watching
unfolding process process_watch deliver update_locked empty_server Text-discrete find notify_all
is_watching = refl

process-names_example : length watching.names ≤ 128
process-names_example =
    process-names marking lower no_ipv6 0 (ask (text "a" ∷ [])) 1_000 one_stream is_done is_watching
