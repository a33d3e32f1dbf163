-- ===== src/Cli/Parser/Answer/EndToEnd.antt =====
-- From the client or the probe in a container, through `main` there and the adapter on a host, to what the host reads.
use bitheim.Prelude.{String, true, Option, some, List, ◌++◌, ◌≡◌}
use bitheim.Prelude.Int.{ℤ}
use bitheim.Value.{Value, Float}
use bitheim.Effect.{returns}
use bitheim.Compose.Docker.{Completed, Loaded, Settings, argv}
use bitheim.Compose.Delegation.RoundTrip.{Printed}
use bitheim.Cli.{Finished, json, is_container_execution_context}
use bitheim.Cli.Argparse.{Parsed, parse_args}
use bitheim.Cli.Parser.{run_handler, main_parsed, build_parser}
use bitheim.Cli.Parser.Delegated.{
  Request, handler_of, args_for, command_of, service_run, IsAccepted, ReadsHeight, argv-ReadsAs,
}
use bitheim.Cli.Doctor.{Machine}
use bitheim.Prelude.{false}
use bitheim.Prelude.Text.{strip, is_empty}
use bitheim.Cli.Parser.Answer.{Answer, Answered}
use bitheim.Cli.Parser.Answer.{Answered-IsAnswer, IsRead, Prints-IsRead}
use bitheim.Cli.Parser.Answer.Printing.{request_printed, parsed_run}

module _ {W : Type 0} (m : Machine W) where
  module _
      (inside : (w : W) → (w' : W) × (is_container_execution_context m.host w ≡ returns true w'))
      (float_of_text : String → Option Float) (int_of_text : String → Option ℤ)
      (show : Value → String) (loads : String → Loaded) where
    -- A host runs the Docker command for a request: a probe, or an inspection whose hash has been checked or whose height
    -- `int` reads back. If the program in the container reads the arguments after the service and exits with the code 0,
    -- and the host finds the value that it has printed in its output, at most 65536 bytes and not blank, then the client
    -- or the probe in the container has answered this very request, and the host reads this answer: the same snapshot,
    -- or the same health.
    pub delegation-Answered :
        (s : Settings) (node_id : String) (r : Request) (args : List String) (ps : Parsed)
        (w w' : W) (f : Finished) (c : Completed)
        → ReadsHeight float_of_text int_of_text r
        → IsAccepted r
        → argv s (command_of node_id r) ≡ service_run s node_id ++ args
        → parse_args float_of_text int_of_text build_parser args ≡ some ps
        → main_parsed m ps w ≡ returns f w'
        → f.code ≡ 0
        → ((v : Value) → f.output ≡ some (json v) → Printed loads c v)
        → is_empty (strip c.stdout) ≡ false
        → (a : Answer) × Answered m r a × IsRead show loads c a
    delegation-Answered s id r args ps w w' f c height accepted command read run z print written =
        let (args', command', (ps', read', handler, attributes)) =
          argv-ReadsAs float_of_text int_of_text s id r height accepted in
        let same_args : args ≡ args' = cc (command, command') in
        let same : ps ≡ ps' = cc (read, read', same_args) in
        let run' : run_handler m (handler_of r) (args_for r) w ≡ returns f w' =
          cc (run, same, parsed_run m inside r ps' handler attributes) in
        let (p, (a, answered, (v, prints, q)), e) = request_printed m inside r w w' f run' z in
        (
          a,
          answered,
          Prints-IsRead show loads a c v (Answered-IsAnswer m answered) prints (print v (cc (e, q)))
              written,
        )
