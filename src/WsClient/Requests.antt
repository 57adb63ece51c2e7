-- ===== src/WsClient/Requests.antt =====
-- Requests and their responses.
use vais_lang.Prelude.{
  ◌∙◌, ◌^◌, ◌*◌, ◌<◌, ℕ, ◌+◌, ◌≡◌, refl, String, none, some, [], ◌∷◌, true, false, if◌then◌else◌,
  arith, str_eq, string_eq,
}
use text.Mathlib.TextPositions.{eq_refl}
use vais_lang.Prelude.JsMap
use vais_lang.Prelude.JsMap.{JsMap, get-set, get-delete}
use vais_lang.WsClient.{
  WsEnvelope, connected, WebSocketOptions, Outside, Client, Effect, resolve, reject, on_close,
  set_timer, send_text, socket_closes, timer_fires, socket_opens, handle_envelope, request_id, send,
}

abbrev pub response : String → String → String → WsEnvelope
response id payload error = record {
  id = id;
  msg_type = "response";
  method = "";
  payload = payload;
  error = error;
}

-- What a promise gets from a response.
abbrev pub settled : ℕ → String → String → Effect
settled promise payload error =
    if str_eq error "" then resolve promise payload else reject promise error

response_waited :
    (id answer error : String) (promise : ℕ) (c : Client)
    → JsMap.get id c.pending ≡ some promise
    → handle_envelope (response id answer error) c
      ≡ (record c { pending = JsMap.delete id c.pending }, settled promise answer error ∷ [])
unfolding handle_envelope
response_waited id answer error promise c h = rw (h, handle_envelope) refl

response_unknown :
    (id answer error : String) (c : Client)
    → JsMap.get id c.pending ≡ none
    → handle_envelope (response id answer error) c ≡ (c, [])
unfolding handle_envelope
response_unknown id answer error c h = rw (h, handle_envelope) refl

abbrev sent_state : Outside → ℕ → ℕ → Client → Client
sent_state out now promise c = record c {
  id_counter = c.id_counter + 1;
  pending = JsMap.set (request_id out (c.id_counter + 1) now) promise c.pending;
}

send_lem :
    (out : Outside) (now promise n : ℕ) (method payload : String) (c : Client)
    → c.ws ≡ some n
    → send out true now none promise method payload c ≡ (
      sent_state out now promise c,
      send_text n (
            out.json_stringify (record {
              id = request_id out (c.id_counter + 1) now;
              msg_type = "request";
              method = method;
              payload = payload;
              error = "";
            }))
          ∷ [],
    )
unfolding send
send_lem out now promise n method payload c h = ground arith

-- A request that is sent over an open socket is settled by the first response with its identifier,
-- resolved with the payload if the response has no error and else rejected with it; a second such
-- response does nothing, and the requests with other identifiers wait as before.
pub send-handle_envelope :
    (out : Outside) (now promise n : ℕ) (method payload answer error answer' error' j : String)
    (c : Client)
    → c.ws ≡ some n
    → let sent = (send out true now none promise method payload c).0 in
      let id = request_id out (c.id_counter + 1) now in
      let first = handle_envelope (response id answer error) sent in
      (first.1 ≡ settled promise answer error ∷ [])
      × (handle_envelope (response id answer' error') first.0 ≡ (first.0, []))
      × (JsMap.get j first.0.pending ≡ (if str_eq id j then none else JsMap.get j c.pending))
send-handle_envelope out now promise n method payload answer error answer' error' j c h =
    let id = request_id out (c.id_counter + 1) now in
    let d = sent_state out now promise c in
    let e : Client = record d { pending = JsMap.delete id d.pending } in
    let here : JsMap.get id d.pending ≡ some promise =
      get-set id id promise c.pending ∙ (rw eq_refl refl) in
    let gone : JsMap.get id e.pending ≡ none = get-delete id id d.pending ∙ (rw eq_refl refl) in
    rw (send_lem out now promise n method payload c h) (
      rw (response_waited id answer error promise d here) (
        refl,
        response_unknown id answer' error' e gone,
        get-delete id j d.pending ∙ (ground (arith, get-set id j promise c.pending)),
      ))

-- When the connection closes while a retry is left, no waiting request is settled, neither then nor
-- by the reconnection: its promise still waits on the new connection.
pub socket_closes-pending :
    (opts : WebSocketOptions) (n : ℕ) (c : Client)
    → c.manually_disconnected ≡ false
    → c.retry_count < opts.max_retries
    → let lost = socket_closes opts c in
      let made = timer_fires opts false (some n) lost.0 in
      let back = socket_opens opts made.0 in
      (back.0.connection_state ≡ connected)
      × (back.0.pending ≡ c.pending)
      × (lost.1 ≡ on_close ∷ set_timer (opts.backoff_ms * 2 ^ c.retry_count) ∷ [])
      × (made.1 ≡ [])
unfolding socket_closes timer_fires socket_opens
socket_closes-pending opts n c m h = ground arith
