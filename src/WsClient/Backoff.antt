-- ===== src/WsClient/Backoff.antt =====
-- Reconnecting when no socket can be made: how long the client waits each time, and that it gives up.
use vais_lang.Prelude.{
  ap₂, ◌∙◌, append-nil, ◌+◌, ◌≤◌, String, ℕ, zero, suc, ◌*◌, ◌^◌, ◌<◌, ◌≡◌, none, List, [], ◌∷◌,
  ◌++◌, false, arith,
}
use vais_lang.WsClient.{
  reject_all, closed, WebSocketOptions, Client, Effect, set_timer, timer_fires,
}

-- The timer fires `n` times, and each time the constructor of the socket throws.
abbrev pub failures : WebSocketOptions → ℕ → Client → Client × List Effect
failures opts zero c = (c, [])
failures opts (suc n) c =
    let (d, effects) = timer_fires opts false none c in
    let (e, later) = failures opts n d in (e, effects ++ later)

-- The waits before the retries from the k-th on: each twice as long as the one before.
abbrev pub waits : WebSocketOptions → ℕ → ℕ → List Effect
waits opts k zero = []
waits opts k (suc n) = set_timer (opts.backoff_ms * 2 ^ k) ∷ waits opts (suc k) n

-- A client that waits to reconnect.
abbrev pub IsWaiting : Client → Type 0
IsWaiting c = (c.ws ≡ none) × (c.manually_disconnected ≡ false)

failure_waits :
    (opts : WebSocketOptions) (c : Client)
    → IsWaiting c
    → c.retry_count < opts.max_retries
    → (IsWaiting (timer_fires opts false none c).0)
      × ((timer_fires opts false none c).0.retry_count ≡ suc c.retry_count)
      × ((timer_fires opts false none c).0.pending ≡ c.pending)
      × ((timer_fires opts false none c).1 ≡ set_timer (opts.backoff_ms * 2 ^ c.retry_count) ∷ [])
unfolding timer_fires
failure_waits opts c (w, m) h = ground arith

abbrev pub too_many : String
too_many = "WebSocket closed; max retries reached."

failure_closes :
    (opts : WebSocketOptions) (c : Client)
    → IsWaiting c
    → opts.max_retries ≤ c.retry_count
    → ((timer_fires opts false none c).0.connection_state ≡ closed)
      × ((timer_fires opts false none c).0.pending ≡ [])
      × ((timer_fires opts false none c).0.reconnect_timer ≡ none)
      × ((timer_fires opts false none c).1 ≡ reject_all too_many c.pending)
unfolding timer_fires
failure_closes opts c (w, m) h = ground arith

-- A client that waits to reconnect, has made r of its R retries and cannot make a socket any more:
-- each failure but the last sets the timer again, for backoff * 2^r, backoff * 2^(r + 1) and so on,
-- and after R - r + 1 of them it is closed, without a timer, and has rejected each waiting request
-- once, in their order.
pub failures_end :
    (opts : WebSocketOptions) (n : ℕ) (c : Client)
    → IsWaiting c
    → c.retry_count + n ≡ opts.max_retries
    → ((failures opts (suc n) c).0.connection_state ≡ closed)
      × ((failures opts (suc n) c).0.pending ≡ [])
      × ((failures opts (suc n) c).0.reconnect_timer ≡ none)
      × ((failures opts (suc n) c).1 ≡ waits opts c.retry_count n ++ reject_all too_many c.pending)
failures_end opts zero c w e =
    let (s, p, t, effects) = failure_closes opts c w (omega arith) in
    (s, p, t, append-nil _ ∙ effects)
failures_end opts (suc n) c w e =
    let d = (timer_fires opts false none c).0 in
    let (w', r, p, effects) = failure_waits opts c w (omega arith) in
    let (s', p', t', effects') = failures_end opts n d w' (omega (arith, r)) in
    (
      s',
      p',
      t',
      ap₂ (λ x y. x ++ y) effects
          (effects' ∙ ap₂ (λ k q. waits opts k n ++ reject_all too_many q) r p),
    )
