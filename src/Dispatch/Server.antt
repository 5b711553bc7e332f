-- ===== src/Dispatch/Server.antt =====
-- src/dispatch/server.rs: one response for each line of a connection. The reader of JSON and the
-- handler are parameters; the handler works on a state `S`.
pub mod Answers
use Prim.Native.String
use aros_kernel.Prelude.{String, Bool, true, false, Option, none, some, List, [], ◌∷◌}
use aros_kernel.Prelude.Int.{ℤ}
use aros_kernel.Prelude.Result.{Result, ok, err}
use aros_kernel.Dispatch.Rpc.{
  JsonRpcRequest, JsonRpcResponse, success, error, RpcMethod, ping, from_str, error_parse,
  error_method_not_found, error_internal,
}

-- `RequestHandler`; the error is a code and a text.
abbrev pub RequestHandler : (Value S : Type 0) → Type 0
RequestHandler Value S = RpcMethod → Option Value → S → Result Value (ℤ × String) × S

-- `Value::Null`, and `serde_json::from_str` for a request.
pub record Reader (Value : Type 0) : Type 0 where
  pub null : Value
  pub from_line : String → Result (JsonRpcRequest Value) String

module _ {Value S : Type 0} (reader : Reader Value) (handle : RequestHandler Value S) where
  -- The `match` on the answer of the handler.
  unfoldable pub respond : Value → Result Value (ℤ × String) → JsonRpcResponse Value
  respond id (ok result) = success id result
  respond id (err (code, message)) = error id code message none

  unfoldable pub process_line : String → S → JsonRpcResponse Value × S
  unfolding respond from_str success error
  process_line line s = elim (reader.from_line line) [
    | err e ↦ (error reader.null error_parse (String.◌++◌ "Parse error: " e) none, s)
    | ok request ↦ elim (from_str request.method) [
      | none ↦ (
        error request.id error_method_not_found (String.◌++◌ "Unknown method: " request.method)
            none,
        s,
      )
      | some method ↦
          let (answer, s') = handle method request.params s in (respond request.id answer, s')
    ]
  ]

  -- The loop of a connection over the lines that arrive before it ends. Each comes with whether its
  -- response can be written; the first that cannot ends the loop, and its request is handled.
  unfoldable pub serve_lines : List (String × Bool) → S → List (JsonRpcResponse Value) × S
  unfolding process_line
  serve_lines [] s = ([], s)
  serve_lines ((line, writable) ∷ lines) s =
      let (response, s') = process_line line s in
      elim writable [
        | false ↦ ([], s')
        | true ↦ let (responses, s'') = serve_lines lines s' in (response ∷ responses, s'')
      ]

-- `PingHandler`; `text` makes a JSON string.
unfoldable pub ping_handler : {Value : Type 0} → (String → Value) → RequestHandler Value Unit
ping_handler text ping params s = (ok (text "pong"), s)
ping_handler text _ params s = (err (error_internal, "Not implemented"), s)
