-- ===== src/Dispatch/Examples.antt =====
-- A server that answers pings, and the theorems about src/dispatch at it.
use Prim.Native.String
use aros_kernel.Prelude.{
  String, ◌≡◌, Bool, true, false, Option, none, some, List, [], ◌∷◌, map, All, if◌then◌else◌, ◌==◌,
  ◌||◌, string_eq,
}
use aros_kernel.Prelude.Result.{Result, ok, err}
use aros_kernel.Dispatch.Rpc.{JsonRpcRequest, JsonRpcResponse}
use aros_kernel.Dispatch.Server.{Reader, RequestHandler, ping_handler, serve_lines}
use aros_kernel.Dispatch.Server.Answers.{IsResponse, answered, id_of, serve_lines_answers}

abbrev Value : Type 0
Value = Unit

-- JSON with one value, so that a request is a method and whether it has parameters.
request : String → Option Value → JsonRpcRequest Value
request method params = record { jsonrpc = "2.0"; method = method; params = params; id = tt }

-- The line of a request ends in a line break or not.
is_line : String → String → Bool
is_line text line = line == text || line == String.◌++◌ text "\n"

parse : String → Result (JsonRpcRequest Value) String
parse line =
    if is_line "task.submit" line
    then ok (request "task.submit" none)
    else if is_line "task.progress" line
    then ok (request "task.progress" none)
    else if is_line "task.complete" line
    then ok (request "task.complete" none)
    else if is_line "task.cancel" line
    then ok (request "task.cancel" none)
    else if is_line "loop.trigger" line
    then ok (request "loop.trigger" none)
    else if is_line "ping" line
    then ok (request "ping" none)
    else if is_line "!task.submit" line
    then ok (request "task.submit" (some tt))
    else if is_line "!task.progress" line
    then ok (request "task.progress" (some tt))
    else if is_line "!task.complete" line
    then ok (request "task.complete" (some tt))
    else if is_line "!task.cancel" line
    then ok (request "task.cancel" (some tt))
    else if is_line "!loop.trigger" line
    then ok (request "loop.trigger" (some tt))
    else if is_line "!ping" line
    then ok (request "ping" (some tt))
    else err "expected value"

reader : Reader Value
reader = record { null = tt; from_line = parse }

handle : RequestHandler Value Value
handle = ping_handler (λ text. tt)

abbrev arriving : List (String × Bool)
arriving = ("ping", true) ∷ ("pong", true) ∷ ("task.submit", false) ∷ ("ping", true) ∷ []

serve_lines_answers_example :
    All IsResponse (serve_lines reader handle arriving tt).0
    × (map (λ (r : JsonRpcResponse Value). r.id) (serve_lines reader handle arriving tt).0
        ≡ map (id_of reader handle) (answered arriving))
serve_lines_answers_example = serve_lines_answers reader handle arriving tt
