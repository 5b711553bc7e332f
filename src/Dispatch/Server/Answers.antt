-- ===== src/Dispatch/Server/Answers.antt =====
-- src/dispatch/server.rs: the answers of a connection, in order.
use aros_kernel.Prelude.{
  String, ◌≡◌, refl, Bool, true, false, none, some, List, [], ◌∷◌, map, arith, All, is_some, not,
}
use aros_kernel.Prelude.Result.{ok, err}
use aros_kernel.Dispatch.Rpc.{JsonRpcResponse, success, error, from_str}
use aros_kernel.Dispatch.Server.{RequestHandler, Reader, respond, process_line, serve_lines}

-- Exactly one of a result and an error.
abbrev pub IsResponse : {Value : Type 0} → JsonRpcResponse Value → Type 0
IsResponse r = (r.jsonrpc ≡ "2.0") × (is_some r.result ≡ not (is_some r.error))

-- The lines whose answers reach the client.
abbrev pub answered : List (String × Bool) → List String
answered [] = []
answered ((line, false) ∷ lines) = []
answered ((line, true) ∷ lines) = line ∷ answered lines

module _ {Value S : Type 0} (reader : Reader Value) (handle : RequestHandler Value S) where
  -- The identifier that a client expects back.
  abbrev pub id_of : String → Value
  id_of line = elim (reader.from_line line) [ err e ↦ reader.null | ok request ↦ request.id ]

  -- What a line does to the state of the handler: nothing, if it is no request or has no method.
  abbrev pub effect : String → S → S
  effect line s = elim (reader.from_line line) [
    | err e ↦ s
    | ok request ↦ elim (from_str request.method) [
      | none ↦ s
      | some m ↦ (handle m request.params s).1
    ]
  ]

  process_line-answers :
      (line : String) (s : S)
      → IsResponse (process_line reader handle line s).0
        × ((process_line reader handle line s).0.id ≡ id_of line)
        × ((process_line reader handle line s).1 ≡ effect line s)
  unfolding process_line success error respond
  process_line-answers line s = ground arith

  abbrev responses : List (String × Bool) → S → List (JsonRpcResponse Value)
  responses lines s = (serve_lines reader handle lines s).0

  -- A connection answers the lines in their order: each answer is a version 2.0 response with either
  -- a result or an error, and carries the identifier of its request, or null if the line cannot be
  -- read. The answers end at the first that cannot be written.
  pub serve_lines_answers :
      (lines : List (String × Bool)) (s : S)
      → All IsResponse (serve_lines reader handle lines s).0
        × (map (λ (r : JsonRpcResponse Value). r.id) (serve_lines reader handle lines s).0
            ≡ map id_of (answered lines))
  unfolding serve_lines
  serve_lines_answers [] s = (tt, refl)
  serve_lines_answers ((line, false) ∷ lines) s = (tt, refl)
  serve_lines_answers ((line, true) ∷ lines) s =
      let (formed, same, _) = process_line-answers line s in
      let (rest, ids) = serve_lines_answers lines (process_line reader handle line s).1 in
      ((formed, rest), ground arith)
