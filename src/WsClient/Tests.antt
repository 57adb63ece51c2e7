-- ===== src/WsClient/Tests.antt =====
-- Runs of the WebSocket client, and its theorems at concrete inputs.
use vais_lang.Prelude.{
  str_eq, if◌then◌else◌, string_eq, nat_eq, ◌++◌, eq_iff, arith, ◌≡◌, refl, none, some, [], ◌∷◌,
  true,
}
use vais_lang.Prelude.JsMap
use vais_lang.WsClient.{
  reject_all, reject, closed, handle_envelope, set_timer, connected, reconnecting, timer_fires,
  send, WebSocketOptions, Outside, Client, new_client,
}
use vais_lang.WsClient.Handlers.{HasNoEmpty}
use vais_lang.WsClient.Backoff.{failures_end, too_many, waits, failures}
use vais_lang.WsClient.Requests.{send-handle_envelope, settled, response}

abbrev options : WebSocketOptions
options = record { max_retries = 2; backoff_ms = 1000 }

abbrev outside : Outside
outside = record { json_parse = λ raw. none; json_stringify = λ env. env.id; text_of = λ n. "1" }

abbrev lost : Client
lost = record new_client {
  connection_state = reconnecting;
  retry_count = 1;
  reconnect_timer = some 1000;
  pending = ("req_1_5", 7) ∷ [];
}

abbrev online : Client
online = record new_client { connection_state = connected; ws = some 3; pending = ("a", 7) ∷ [] }

closes_for_good : (failures options 2 lost).1 ≡ set_timer 2000 ∷ reject 7 too_many ∷ []
unfolding timer_fires
closes_for_good = refl

failures_end_example :
    ((failures options 2 lost).0.connection_state ≡ closed)
    × ((failures options 2 lost).0.pending ≡ [])
    × ((failures options 2 lost).0.reconnect_timer ≡ none)
    × ((failures options 2 lost).1 ≡ waits options 1 1 ++ reject_all too_many (("req_1_5", 7) ∷ []))
failures_end_example = failures_end options 1 lost (refl, refl) refl

send-handle_envelope_example :
    let sent = (send outside true 5 none 8 "get" "" online).0 in
    let first = handle_envelope (response "req_1_1" "ok" "") sent in
    (first.1 ≡ settled 8 "ok" "" ∷ [])
    × (handle_envelope (response "req_1_1" "late" "") first.0 ≡ (first.0, []))
    × (JsMap.get "a" first.0.pending
        ≡ (if str_eq "req_1_1" "a" then none else JsMap.get "a" online.pending))
send-handle_envelope_example =
    send-handle_envelope outside 5 8 3 "get" "" "ok" "" "late" "" "a" online refl

one_handler-HasNoEmpty : HasNoEmpty (("news", 1 ∷ []) ∷ [])
unfolding JsMap.get
one_handler-HasNoEmpty key = ground (arith, eq_iff "news" key)
