-- ===== src/WsClient/Types.antt =====
-- The data of the WebSocket client, and the parsing of an envelope (kit/src/ws/client.ts).
use vais_lang.Prelude.{
  ℕ, String, Option, none, some, List, [], Bool, false, or_else, string_eq, nat_eq,
}
use vais_lang.Prelude.JsMap.{JsMap}

pub record WsEnvelope : Type 0 where
  pub id : String
  pub msg_type : String
  pub method : String
  pub payload : String
  pub error : String

-- A parsed object: each field of interest where it is a string.
pub record PartialEnvelope : Type 0 where
  pub id : Option String
  pub msg_type : Option String
  pub method : Option String
  pub payload : Option String
  pub error : Option String

pub data WsConnectionState : Type 0 where
  idle connecting connected reconnecting closed error : WsConnectionState

-- What a call does outside the client.
pub data Effect : Type 0 where
  resolve : ℕ → String → Effect
  reject : ℕ → String → Effect
  run_handler : ℕ → String → Effect
  close_socket : ℕ → Effect
  set_timer : ℕ → Effect
  clear_timer : Effect
  send_text : ℕ → String → Effect
  on_open on_close on_error : Effect

pub record WebSocketOptions : Type 0 where
  pub max_retries : ℕ
  pub backoff_ms : ℕ

pub record Outside : Type 0 where
  -- `JSON.parse`, and `none` where it throws or gives `null`
  pub json_parse : String → Option PartialEnvelope
  pub json_stringify : WsEnvelope → String
  pub text_of : ℕ → String

pub record Client : Type 0 where
  pub ws : Option ℕ
  pub connection_state : WsConnectionState
  pub retry_count : ℕ
  pub reconnect_timer : Option ℕ
  pub manually_disconnected : Bool
  pub pending : JsMap String ℕ
  pub event_handlers : JsMap String (List ℕ)
  pub stream_handlers : JsMap String (List ℕ)
  pub id_counter : ℕ

abbrev pub Outcome : Type 0
Outcome = Client × List Effect

abbrev pub new_client : Client
new_client = record {
  ws = none;
  connection_state = idle;
  retry_count = 0;
  reconnect_timer = none;
  manually_disconnected = false;
  pending = [];
  event_handlers = [];
  stream_handlers = [];
  id_counter = 0;
}

abbrev check_envelope : PartialEnvelope → Option WsEnvelope
check_envelope obj = elim obj.id [
  | none ↦ none
  | some i ↦ elim obj.msg_type [
    | none ↦ none
    | some t ↦ elim obj.method [
      | none ↦ none
      | some m ↦ some (record {
        id = i;
        msg_type = t;
        method = m;
        payload = or_else obj.payload "";
        error = or_else obj.error "";
      })
    ]
  ]
]

unfoldable pub parse_envelope : Outside → String → Option WsEnvelope
parse_envelope out raw = elim (out.json_parse raw) [ none ↦ none | some obj ↦ check_envelope obj ]
