-- ===== src/Lib.antt =====
-- Bitheim starts, stops and observes one Bitcoin Core regtest node in a container. This library models the code that
-- decides what the program believes about the node and what its callers are told.
--
-- The parts, and the files that model them (source paths from the root of the repository):
--   Prelude          Boolean tests, lists, integers and texts as Python has them
--   Errors           src/bitheim/domain/errors.py, and fallible functions as values of `Result`
--   Value            values of unknown type: what JSON holds and what validators are given. Value/Depth and Value/Keys are
--                    `_check_json_depth` and `_reject_duplicate_keys` of infrastructure/bitcoin/rpc_client.py, which
--                    infrastructure/compose/adapter.py repeats
--   Domain           src/bitheim/domain/node.py: a record for each snapshot, its constructor as a function that may raise,
--                    and `to_dict`; the Laws say which snapshots a constructor accepts
--   Peers            the loop over a list of peers, which the client and the adapter share
--   Effect           actions `World → Outcome`: a value, an exception or the end of the fuel, with the world left behind.
--                    Effect/Errors, Effect/Results and Effect/Ends have one rule for each way to build an action
--   Service          src/bitheim/application/service.py over the ports of src/bitheim/application/ports.py, which are records
--                    of actions (`NodeLifecyclePort`, `NodeObservationPort`)
--   Bitcoin          src/bitheim/infrastructure/bitcoin: Credential and Cookie are `_read_cookie_header`, Envelope is
--                    `_read_and_parse_envelope`, Parse the checks on results, Client the class `BitcoinRpcClient`, which
--                    `observation` makes an instance of `NodeObservationPort`; Probe is rpc_probe.py
--   Network          Python's `ipaddress`, a parameter of the adapter and of the configuration
--   Configuration    src/bitheim/bootstrap/configuration.py: the validators, and `load_configuration` over its four layers
--   Logging          src/bitheim/bootstrap/logging.py: sanitising, the payload, levels, and the set-up of the logger
--   Compose          src/bitheim/infrastructure/compose: Docker has the commands and what is outside the adapter, Resources
--                    is resources.py, Diagnostics is diagnostics.py, and the others are adapter.py: Runtime the checks before
--                    a start, Containers the reading of `docker compose ps`, Health the reading of a delegated probe,
--                    Lifecycle the operations of `NodeLifecyclePort`, which `lifecycle_port` makes an instance of it,
--                    Delegation and Parse the reading of a delegated inspection, Inspect the four inspections. Errors,
--                    ReadOnly, Safety and Stopping are about these
--   Cli              src/bitheim/interfaces/cli.py: the handlers of the commands, over the services, the adapter, the client
--                    and the configuration, and `main`; Output and Lines are what they write, Doctor is `handle_doctor`,
--                    Argparse is what the program uses of Python's argparse, Parser is `build_parser` and `main` from the
--                    command line on. Exits, HostOnly, Misconfigured, ReadOnly and Delegation are about `main`, Probed is
--                    about the output of `status --json`, and the modules below Parser are about command lines: Delegated
--                    about those that a host gives to a container, Answer about what comes back from there to the host,
--                    Kept and Lost about an option that is given too early
--   Tests            the theorems at concrete inputs
--
-- How the code is represented: an exception is its class, without its text. An int is unbounded. A finite float is a whole
-- number of microseconds, since every float of the modelled code is a duration. Logging changes nothing and is left out.
-- A clock, system calls, processes, HTTP, TOML, IP networks, `json.loads`, `decimal`, Base64 and UTF-8 are parameters;
-- what is assumed of them are the records IsMonotonic, Documented, RaisesConversion, Tracks, IsTimely, IsPrompt, Probed,
-- RaisesLifecycle, Decodable, Harmless, Outside and Ran.
--
-- Bounds and fuel: the polling loop of `start_node` runs on `timeout / 0.5 s + 2` rounds, since every round but the last
-- sleeps half a second or up to the deadline. The loop that reads a body runs on 4 MiB + 2 rounds, since every round but
-- the last reads a byte at least.
--
-- Not modelled: the report that `doctor` writes, with the texts of exceptions in it; the stream and the JSON text of the
-- log. Of argparse, an abbreviated option, `--option=value`, `--`, a value that begins with a dash, the options for help
-- and version and the messages on a mistake are left out: of such a command line nothing is said. In the
-- probe an int of more than 4300 digits, and the recursion limit of the JSON and TOML parsers, are left out. A text with a
-- lone surrogate is a value of its own, which no record of a snapshot holds: the chain of a health that is not healthy is
-- left out then.
pub mod Prelude
pub mod Errors
pub mod Value
pub mod Domain
pub mod Network
pub mod Configuration
pub mod Logging
pub mod Peers
pub mod Compose
pub mod Effect
pub mod Service
pub mod Bitcoin
pub mod Cli
pub mod Tests
