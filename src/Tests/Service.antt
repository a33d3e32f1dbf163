-- ===== src/Tests/Service.antt =====
-- The theorems on the services and the probe, at concrete runs.
use bitheim.Prelude.{
  ◌⊎◌, ℕ, ◌+◌, ◌*◌, ◌≤◌, Bool-cases, inl, inr, le→leb, String, [], Option, none, some, true, false,
  ◌≡◌, refl, leb, arith, string_eq, if◌then◌else◌,
}
use bitheim.Prelude.Int.{pos}
use bitheim.Prelude.Text.{strip, lstrip, rstrip, is_space}
use bitheim.Errors.{ok, startup_timeout, rpc_error, overflow_error, is_lifecycle_error}
use bitheim.Value.{is_too_large, float_limit, null, int, str, obj, field, end, find, second}
use bitheim.Effect.{returns, raises, IsStuck, pure, raise, ◌>>=◌}
use bitheim.Effect.Clock.{Clock, IsMonotonic, now, sleep}
use bitheim.Effect.Results.{Reached}
use bitheim.Effect.Errors.{RaisesOnly-pure}
use bitheim.Domain.Node.{
  State, healthy, starting, stopped, incompatible, same_state, Health, health, Status,
}
use bitheim.Domain.Block.{hex_64}
use bitheim.Service.Guards.{
  validate_service_node_id, validate_service_timeout, node_id_match, command_deadline,
}
use bitheim.Service.Lifecycle.{NodeLifecyclePort, after_probe, poll, start_node}
use bitheim.Service.Lifecycle.Liveness.{IsPrompt, Probed, Succeeds, start_node-Succeeds}
use bitheim.Service.Lifecycle.Polling.{IsTimely, start_node-ends}
use bitheim.Service.Lifecycle.Safety.{RaisesLifecycle, start_node-IsHealthy, start_node_errors}
use bitheim.Service.Observation.{NodeObservationPort, inspect_block}
use bitheim.Service.Observation.Requests.{IsRequest, by_hash, inspect_block_requests}
use bitheim.Bitcoin.Probe.{
  ProbeEnvironment, body, call_result, read_result, send_rpc_call, check_version, check_chain_value,
  check_chain, probe_chain, with_header, probe_rpc_http,
}
use bitheim.Bitcoin.Probe.Laws.{probe_rpc_http-healthy}
use bitheim.Tests.{hash}

-- The world is the time.
abbrev clock : Clock ℕ
clock = record { time = λ w. w; monotonic = λ w. (w, w); sleep = λ d w. w + d }

clock-IsMonotonic : IsMonotonic clock
clock-IsMonotonic = record {
  reading = λ w. omega arith;
  read = λ w. omega arith;
  slept = λ d w. omega arith;
}

-- a node that is healthy from the given time on
abbrev state_at : ℕ → ℕ → State
state_at ready w = if leb ready w then healthy else starting

abbrev port : ℕ → NodeLifecyclePort ℕ
port ready = record {
  start = λ id t. pure tt;
  stop = λ id t. pure tt;
  probe_health = λ id t w. returns (health (state_at ready w) "probe") w;
  get_lifecycle_state = λ id. pure stopped;
  get_status = λ id. pure (record {
    node_id = id;
    state = stopped;
    health = health stopped "container_stopped";
    details = none;
  });
}

port-IsTimely : (ready : ℕ) → IsTimely clock (port ready)
unfolding pure
port-IsTimely ready = record {
  start = λ id t. record { ends = λ w s. s; forward = λ w. omega arith };
  probe_health = λ id t. record { ends = λ w s. s; forward = λ w. omega arith };
  get_status = λ id. record { ends = λ w s. s; forward = λ w. omega arith };
}

port-RaisesLifecycle : (ready : ℕ) → RaisesLifecycle (port ready)
port-RaisesLifecycle ready = record {
  start = λ id t. RaisesOnly-pure tt;
  stop = λ id t. RaisesOnly-pure tt;
  probe_health = λ id t. record { at = λ w. tt };
  get_status = λ id. RaisesOnly-pure _;
  get_lifecycle_state = λ id. RaisesOnly-pure _;
}

clock-IsPrompt : IsPrompt clock 0
clock-IsPrompt = record { read = λ w. omega arith; slept = λ d w. omega arith }

up_healthy : (ready w : ℕ) → ready ≤ w → same_state (state_at ready w) healthy ≡ true
up_healthy ready w h = rw (le→leb ready w h) refl

never_incompatible : (ready w : ℕ) → same_state (state_at ready w) incompatible ≡ false
never_incompatible ready w = elim (Bool-cases (leb ready w)) [
  | inl up ↦ rw up refl
  | inr down ↦ rw down refl
]

port-Probed :
    (ready : ℕ) (id : String) (t w : ℕ)
    → Probed clock ready 0 0 t w ((port ready).probe_health id t w)
port-Probed ready id t w = record {
  found = health (state_at ready w) "probe";
  after = w;
  returned = refl;
  forward = omega arith;
  in_time = omega arith;
  compatible = never_incompatible ready w;
  answered = λ h _. up_healthy ready w h;
}

start_node-Succeeds_example : Succeeds (start_node clock (port second) (str "n1") (int (pos 5)) 0)
unfolding float_limit validate_service_node_id validate_service_timeout pure strip is_space
    node_id_match
start_node-Succeeds_example =
    start_node-Succeeds clock clock-IsMonotonic (port second) second 0 0 clock-IsPrompt "n1"
      (port-Probed second "n1") (str "n1") (int (pos 5)) (5 * second)
      (record {
        node_id = "n1";
        state = stopped;
        health = health stopped "container_stopped";
        details = none;
      })
      0 0 0 refl refl refl refl (omega arith) (omega arith) (omega arith)

start_node-ends_example : ¬ IsStuck (start_node clock (port second) (str "n1") (int (pos 5)) 0)
start_node-ends_example =
    start_node-ends clock clock-IsMonotonic (port second) (port-IsTimely second) (str "n1")
      (int (pos 5)) 0

abbrev started : Status
started = record {
  node_id = "n1";
  state = healthy;
  health = health healthy "probe";
  details = none;
}

start_run : start_node clock (port second) (str "n1") (int (pos 5)) 0 ≡ returns started second
unfolding float_limit start_node poll after_probe now sleep validate_service_node_id
    validate_service_timeout node_id_match strip lstrip rstrip is_space ◌>>=◌
start_run = refl

start_node-IsHealthy_example :
    (id : String) × (validate_service_node_id (str "n1") ≡ ok id)
    × (started.state ≡ healthy)
    × (Reached ((port second).get_status id) started
        ⊎ ((t : ℕ) × Reached ((port second).probe_health id t) started.health
            × (started.health.state ≡ healthy)))
start_node-IsHealthy_example =
    start_node-IsHealthy clock (port second) (str "n1") (int (pos 5)) 0 second started start_run

late_run :
    start_node clock (port (9 * second)) (str "n1") (int (pos 5)) 0
    ≡ raises startup_timeout (5 * second)
unfolding float_limit start_node poll after_probe now sleep validate_service_node_id
    validate_service_timeout node_id_match strip lstrip rstrip is_space ◌>>=◌
late_run = refl

small : (n : ℕ) → n ≤ 60 → is_too_large (int (pos n)) ≡ false
unfolding float_limit
small n le = ground arith

start_node_errors_example :
    (is_lifecycle_error startup_timeout ≡ true) ⊎ (startup_timeout ≡ overflow_error)
start_node_errors_example =
    start_node_errors clock (port (9 * second)) (port-RaisesLifecycle (9 * second)) (str "n1")
      (int (pos 5)) 0 (5 * second) startup_timeout late_run

abbrev node : NodeObservationPort ℕ
node = record {
  get_node_overview = λ t. raise rpc_error;
  get_block = λ h n t. raise rpc_error;
  get_mempool = λ t. raise rpc_error;
  get_peers = λ t. pure [];
}

ten_seconds : command_deadline (int (pos 10)) ≡ ok (10 * second)
unfolding float_limit command_deadline
ten_seconds = refl

hash_matches : hex_64 hash ≡ true
unfolding hex_64
hash_matches = refl

inspect_block_requests_example :
    ((h : Option String)
      → IsRequest (str hash) null (int (pos 10)) h
      → inspect_block node (str hash) null (int (pos 10)) 0
        ≡ node.get_block h null (int (pos 10)) 0)
    × (is_too_large (int (pos 10)) ≡ true
        → inspect_block node (str hash) null (int (pos 10)) 0 ≡ raises overflow_error 0)
    × (is_too_large (int (pos 10)) ≡ false
        → ((h : Option String) → ¬ IsRequest (str hash) null (int (pos 10)) h)
        → inspect_block node (str hash) null (int (pos 10)) 0 ≡ raises rpc_error 0)
inspect_block_requests_example = inspect_block_requests node (str hash) null (int (pos 10)) 0

named : IsRequest (str hash) null (int (pos 10)) (some hash)
named = by_hash hash (int (pos 10)) (10 * second) hash_matches ten_seconds

named_run :
    inspect_block node (str hash) null (int (pos 10)) 0
    ≡ node.get_block (some hash) null (int (pos 10)) 0
named_run = (inspect_block_requests node (str hash) null (int (pos 10)) 0).0 (some hash) named

no-IsRequest : (h : Option String) → ¬ IsRequest null null (int (pos 10)) h
no-IsRequest h r = elim r [ ]

unnamed_run : inspect_block node null null (int (pos 10)) 0 ≡ raises rpc_error 0
unnamed_run =
    (inspect_block_requests node null null (int (pos 10)) 0).2 (small 10 (omega arith)) no-IsRequest

-- The world counts the calls.
abbrev pub probe_env : ProbeEnvironment ℕ
probe_env = record {
  text = record {
    decode = λ b. some "x";
    loads = λ s. some (
        obj (
          field "error" null (
            field "result"
              (obj (
                field "chain" (str "regtest")
                  (field "version" (int (pos 310100)) (field "blocks" (int (pos 7)) end))))
              end)));
  };
  show = λ v. "x";
  cookie = λ w. (some "u:p", w);
  base64 = λ s. s;
  post = λ m h w. (body [], w + 1);
}

abbrev ready_health : Health
ready_health = record {
  state = healthy;
  chain = some "regtest";
  version = some (pos 310100);
  protocol_version = none;
  blocks = some (pos 7);
  headers = none;
  details = some "ready";
}

probe_run : probe_rpc_http probe_env true true 0 ≡ returns ready_health 2
unfolding probe_rpc_http with_header probe_chain check_chain check_chain_value check_version
    send_rpc_call call_result read_result find strip lstrip rstrip is_space ◌>>=◌
probe_run = refl

probe_rpc_http-healthy_example :
    (ready_health.chain ≡ some "regtest") × (ready_health.version ≡ some (pos 310100))
probe_rpc_http-healthy_example =
    probe_rpc_http-healthy probe_env true true 0 2 ready_health probe_run refl
