-- ===== src/WsClient/Valid.antt =====
-- The states that a client can be in: the invariant of every step.
use vais_lang.Prelude.{ℕ, ◌≤◌, ◌≡◌, ◌≢◌, String, Option, none, [], Bool, true, false}
use vais_lang.WsClient.{
  idle, connected, reconnecting, closed, WebSocketOptions, Outside, Client, new_client, connect,
  timer_fires, socket_opens, socket_errs, socket_closes, handle_message, disconnect, send, on, off,
  on_stream, off_stream,
}

-- A timer runs only while the client waits to reconnect, with no socket; a closed or idle client
-- has no socket, no timer and no request waiting; a client that was disconnected by hand is closed;
-- a connected client has a socket; and the retries stay within their limit.
pub record IsValid (opts : WebSocketOptions) (c : Client) : Type 0 where
  pub waiting :
      c.reconnect_timer ≢ none
      → (c.connection_state ≡ reconnecting) × (c.ws ≡ none) × (c.manually_disconnected ≡ false)
  pub at_rest :
      c.connection_state ≡ closed → (c.ws ≡ none) × (c.reconnect_timer ≡ none) × (c.pending ≡ [])
  pub unused : c.connection_state ≡ idle → (c.ws ≡ none) × (c.pending ≡ [])
  pub by_hand : c.manually_disconnected ≡ true → c.connection_state ≡ closed
  pub live : c.connection_state ≡ connected → c.ws ≢ none
  pub within : c.retry_count ≤ opts.max_retries

-- One call of the client, or one event of its socket or its timer. Only a socket that the client
-- holds has handlers, and only a timer that is set fires.
pub data Step (opts : WebSocketOptions) (out : Outside) (c : Client) : Client → Type 0 where
  connects : (alive : Bool) (made : Option ℕ) → Step opts out c (connect opts alive made c).0
  fires :
      (alive : Bool) (made : Option ℕ)
      → c.reconnect_timer ≢ none
      → Step opts out c (timer_fires opts alive made c).0
  opens : c.ws ≢ none → Step opts out c (socket_opens opts c).0
  errs : c.ws ≢ none → Step opts out c (socket_errs opts c).0
  closes : c.ws ≢ none → Step opts out c (socket_closes opts c).0
  receives : (raw : String) → c.ws ≢ none → Step opts out c (handle_message out raw c).0
  disconnects : (alive : Bool) → Step opts out c (disconnect alive c).0
  sends :
      (is_open : Bool) (now : ℕ) (threw : Option String) (promise : ℕ) (method payload : String)
      → Step opts out c (send out is_open now threw promise method payload c).0
  subscribes : (method : String) (h : ℕ) → Step opts out c (on method h c)
  unsubscribes : (method : String) (h : ℕ) → Step opts out c (off method h c)
  subscribes_stream : (id : String) (h : ℕ) → Step opts out c (on_stream id h c)
  unsubscribes_stream : (id : String) (h : ℕ) → Step opts out c (off_stream id h c)

pub data Reach (opts : WebSocketOptions) (out : Outside) : Client → Type 0 where
  start : Reach opts out new_client
  next : {c d : Client} → Reach opts out c → Step opts out c d → Reach opts out d
