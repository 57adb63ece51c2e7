-- ===== src/WsClient.antt =====
-- kit/src/ws/client.ts: the WebSocket client with reconnects and RPC envelopes (`createWebSocket`).
-- A call returns the new state and what it does outside, in order; a callback that it runs there
-- makes its own calls as later steps. Promises, sockets and handlers are numbers. JSON, the text of
-- a number and the state of a socket are arguments.
mod Types
pub mod Valid
pub mod Backoff
pub mod Requests
pub mod Handlers
mod Tests
unfoldable pub use Types.*
use Prim.Native.String
use vais_lang.Prelude.{
  ℕ, suc, ◌+◌, ◌*◌, ◌^◌, String, Option, none, some, List, [], ◌∷◌, ◌++◌, map, Bool, true, false,
  ◌||◌, not, if◌then◌else◌, leb, or_else, is_some, ◌==◌, string_eq, nat_eq, str_eq,
}
use vais_lang.Prelude.JsMap
use vais_lang.Prelude.JsMap.{JsMap}
use vais_lang.Prelude.JsSet

-- `for (const [, req] of pending) req.reject(new Error(why))`
abbrev pub reject_all : String → JsMap String ℕ → List Effect
reject_all why [] = []
reject_all why ((id, promise) ∷ pending) = reject promise why ∷ reject_all why pending

abbrev pub run_all : List ℕ → String → List Effect
run_all [] payload = []
run_all (h ∷ handlers) payload = run_handler h payload ∷ run_all handlers payload

-- `handlers.get(key)`, run in order where it is there
abbrev pub run_at : String → JsMap String (List ℕ) → String → List Effect
run_at key handlers payload = elim (JsMap.get key handlers) [
  | none ↦ []
  | some hs ↦ run_all hs payload
]

unfoldable pub clear_reconnect_timer : Client → Outcome
clear_reconnect_timer c = elim c.reconnect_timer [
  | none ↦ (c, [])
  | some timer ↦ (record c { reconnect_timer = none }, clear_timer ∷ [])
]

module _ (opts : WebSocketOptions) where
  unfoldable pub schedule_reconnect : Client → Outcome
  schedule_reconnect c =
      if c.manually_disconnected || leb opts.max_retries c.retry_count
      then (
        record c { connection_state = closed; pending = [] },
        reject_all "WebSocket closed; max retries reached." c.pending,
      )
      else let delay = opts.backoff_ms * 2 ^ c.retry_count in
        (
          record c {
            connection_state = reconnecting;
            retry_count = c.retry_count + 1;
            reconnect_timer = some delay;
          },
          set_timer delay ∷ [],
        )

-- Detaching the current socket; `live` says whether it is open or connecting.
unfoldable pub drop_socket : Bool → Client → Outcome
drop_socket live c = elim c.ws [
  | none ↦ (c, [])
  | some n ↦ (record c { ws = none }, if live then close_socket n ∷ [] else [])
]

module _ (opts : WebSocketOptions) where
  -- `made` is the new socket, or `none` where the constructor throws.
  unfoldable pub do_connect : Bool → Option ℕ → Client → Outcome
  unfolding drop_socket schedule_reconnect
  do_connect live made c =
      let (d, closing) = drop_socket live c in
      elim made [
        | some n ↦ (record d { connection_state = connecting; ws = some n }, closing)
        | none ↦
            let (e, effects) = schedule_reconnect opts (record d { connection_state = error }) in
            (e, closing ++ effects)
      ]

  unfoldable pub connect : Bool → Option ℕ → Client → Outcome
  unfolding clear_reconnect_timer do_connect
  connect live made c =
      let (d, clearing) = clear_reconnect_timer (record c { manually_disconnected = false }) in
      let (e, effects) = do_connect live made (record d { retry_count = 0 }) in
      (e, clearing ++ effects)

  -- The callback of the reconnect timer.
  unfoldable pub timer_fires : Bool → Option ℕ → Client → Outcome
  unfolding do_connect
  timer_fires live made c = do_connect live made (record c { reconnect_timer = none })

  -- The handlers of the current socket.
  unfoldable pub socket_opens : Client → Outcome
  socket_opens c = (record c { connection_state = connected; retry_count = 0 }, on_open ∷ [])

  unfoldable pub socket_errs : Client → Outcome
  socket_errs c = (record c { connection_state = error }, on_error ∷ [])

  unfoldable pub socket_closes : Client → Outcome
  unfolding schedule_reconnect
  socket_closes c =
      let d = record c { ws = none } in
      let (e, effects) = schedule_reconnect opts d in
      if c.manually_disconnected
      then (record d { connection_state = closed }, on_close ∷ [])
      else (e, on_close ∷ effects)

unfoldable pub handle_envelope : WsEnvelope → Client → Outcome
handle_envelope env c =
    if env.msg_type == "response"
    then elim (JsMap.get env.id c.pending) [
      | none ↦ (c, [])
      | some promise ↦ (
        record c { pending = JsMap.delete env.id c.pending },
        (if env.error == "" then resolve promise env.payload else reject promise env.error) ∷ [],
      )
    ]
    else if env.msg_type == "event"
    then (c, run_at env.method c.event_handlers env.payload)
    else if env.msg_type == "stream"
    then (
      c,
      if env.method == "stream_end" || env.method == "stream_flush"
          then []
          else run_at env.method c.stream_handlers env.payload,
    )
    else (c, [])

unfoldable pub handle_message : Outside → String → Client → Outcome
unfolding parse_envelope handle_envelope
handle_message out raw c = elim (parse_envelope out raw) [
  | none ↦ (c, [])
  | some env ↦ handle_envelope env c
]

unfoldable pub disconnect : Bool → Client → Outcome
unfolding clear_reconnect_timer drop_socket
disconnect live c =
    let (d, clearing) = clear_reconnect_timer (record c { manually_disconnected = true }) in
    let (e, closing) = drop_socket live (record d { pending = []; connection_state = closed }) in
    (e, clearing ++ (reject_all "WebSocket disconnected by client." d.pending ++ closing))

-- The text that `nextId` returns for the n-th request.
abbrev pub request_id : Outside → ℕ → ℕ → String
request_id out n now =
    String.◌++◌ "req_" (String.◌++◌ (out.text_of n) (String.◌++◌ "_" (out.text_of now)))

abbrev pub not_connected : String
not_connected = "WebSocket is not connected. Call connect() before send()."

-- `is_open` says whether the current socket is open, and `threw` is the message of what its `send`
-- throws, if it throws.
unfoldable pub send : Outside → Bool → ℕ → Option String → ℕ → String → String → Client → Outcome
send out is_open now threw promise method payload c = elim c.ws [
  | none ↦ (c, reject promise not_connected ∷ [])
  | some n ↦
      let id = request_id out (c.id_counter + 1) now in
      let env : WsEnvelope = record {
        id = id;
        msg_type = "request";
        method = method;
        payload = payload;
        error = "";
      } in
      let waiting = JsMap.set id promise c.pending in
      let sent : Outcome = elim threw [
        | none ↦ (
          record c { id_counter = c.id_counter + 1; pending = waiting },
          send_text n (out.json_stringify env) ∷ [],
        )
        | some why ↦ (
          record c { id_counter = c.id_counter + 1; pending = JsMap.delete id waiting },
          reject promise why ∷ [],
        )
      ] in
      if is_open then sent else (c, reject promise not_connected ∷ [])
]

unfoldable pub add_handler : String → ℕ → JsMap String (List ℕ) → JsMap String (List ℕ)
unfolding JsSet.add
add_handler key h handlers =
    JsMap.set key (JsSet.add h (or_else (JsMap.get key handlers) [])) handlers

abbrev pub put_handlers : String → List ℕ → JsMap String (List ℕ) → JsMap String (List ℕ)
put_handlers key [] handlers = JsMap.delete key handlers
put_handlers key (h ∷ hs) handlers = JsMap.set key (h ∷ hs) handlers

-- The function that `on` and `onStream` return.
unfoldable pub remove_handler : String → ℕ → JsMap String (List ℕ) → JsMap String (List ℕ)
unfolding JsSet.delete
remove_handler key h handlers = elim (JsMap.get key handlers) [
  | none ↦ handlers
  | some hs ↦ put_handlers key (JsSet.delete h hs) handlers
]

abbrev pub on : String → ℕ → Client → Client
on method h c = record c { event_handlers = add_handler method h c.event_handlers }

abbrev pub off : String → ℕ → Client → Client
off method h c = record c { event_handlers = remove_handler method h c.event_handlers }

abbrev pub on_stream : String → ℕ → Client → Client
on_stream id h c = record c { stream_handlers = add_handler id h c.stream_handlers }

abbrev pub off_stream : String → ℕ → Client → Client
off_stream id h c = record c { stream_handlers = remove_handler id h c.stream_handlers }
