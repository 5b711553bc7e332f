-- ===== src/Dispatch/Client.antt =====
-- src/dispatch/client.rs: a call over a stream. The stream is a type `Stream` with its operations,
-- and the texts of requests and responses are read and written by a JSON library.
use Prim.Native.String
use aros_kernel.Prelude.{ℕ, String, Option, if◌then◌else◌, ◌==◌, string_eq, add64}
use aros_kernel.Prelude.Result.{Result, ok, err}
use aros_kernel.Dispatch.Rpc.{JsonRpcRequest, JsonRpcResponse}
use aros_kernel.Dispatch.Rpc

pub record RpcClient (Stream : Type 0) : Type 0 where
  pub stream : Stream
  pub next_id : ℕ

pub data ClientError : Type 0 where
  io serialize deserialize : String → ClientError
  connection_closed : ClientError

pub record Transport (Stream : Type 0) : Type 0 where
  pub write_all : String → Stream → Result Unit String × Stream
  pub flush : Stream → Result Unit String × Stream
  pub read_line : Stream → Result String String × Stream

pub record Texts (Value : Type 0) : Type 0 where
  pub number : ℕ → Value
  pub to_text : JsonRpcRequest Value → Result String String
  pub from_text : String → Result (JsonRpcResponse Value) String

-- `connect`, once the socket is open.
unfoldable pub connect : {Stream : Type 0} → Stream → RpcClient Stream
connect stream = record { stream = stream; next_id = 1 }

module _ {Value Stream : Type 0} (texts : Texts Value) (transport : Transport Stream) where
  -- What is made of the line that was read.
  unfoldable pub received : String → Result (JsonRpcResponse Value) ClientError
  received line =
      if line == ""
      then err connection_closed
      else elim (texts.from_text line) [ err e ↦ err (deserialize e) | ok response ↦ ok response ]

  -- The exchange on the stream, from the first byte sent to the last byte read.
  unfoldable pub exchange : String → Stream → Result (JsonRpcResponse Value) ClientError × Stream
  unfolding received
  exchange buf stream =
      let (sent, stream) = transport.write_all buf stream in
      elim sent [
        | err e ↦ (err (io e), stream)
        | ok _ ↦
            let (flushed, stream) = transport.flush stream in
            elim flushed [
              | err e ↦ (err (io e), stream)
              | ok _ ↦
                  let (line, stream) = transport.read_line stream in
                  elim line [ err e ↦ (err (io e), stream) | ok text ↦ (received text, stream) ]
            ]
      ]

  unfoldable pub call :
      String
      → Option Value
      → RpcClient Stream
      → Result (JsonRpcResponse Value) ClientError × RpcClient Stream
  unfolding exchange Rpc.new
  call method params client =
      let counted = record client { next_id = add64 client.next_id 1 } in
      elim (texts.to_text (Rpc.new texts.number method params client.next_id)) [
        | err e ↦ (err (serialize e), counted)
        | ok text ↦
            let (answer, stream) = exchange (String.◌++◌ text "\n") client.stream in
            (answer, record counted { stream = stream })
      ]
