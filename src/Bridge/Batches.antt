-- ===== src/Bridge/Batches.antt =====
-- Where messages go that wait in the queue.
use vais_lang.Prelude.{
  if◌then◌else◌, subst, arith, inr, ap, inl, ◌∙◌, append-nil, Bool-cases, ap₂, ℕ, ◌<◌, String,
  Option, Option-cases, none, some, List, [], ◌∷◌, ◌++◌, true, false, ◌≡◌, refl, sym, length,
  append_assoc,
}
use vais_lang.Bridge.{
  leb, Bridge, QueuedMessage, Effect, handles, on_error, call_handlers, deliver, flush_messages,
  timer_fires, send_message,
}

-- A call of sendMessage, a call of flushMessages, or the interval of the timer.
pub data Traffic (V : Type 0) : Type 0 where
  send : QueuedMessage V → Traffic V
  flush : Traffic V
  tick : Traffic V

abbrev pub sent : {V : Type 0} → List (Traffic V) → List (QueuedMessage V)
sent [] = []
sent (send m ∷ ts) = m ∷ sent ts
sent (flush ∷ ts) = sent ts
sent (tick ∷ ts) = sent ts

module _ {V : Type 0} (throws : ℕ → Option String) (max_batch_size : ℕ) where
  abbrev pub pass : Traffic V → Bridge V → Bridge V × List (Effect V)
  pass (send m) b = send_message throws max_batch_size m b
  pass flush b = flush_messages throws b
  pass tick b = timer_fires throws b

  unfoldable pub pass_all : List (Traffic V) → Bridge V → Bridge V × List (Effect V)
  pass_all [] b = (b, [])
  pass_all (t ∷ ts) b =
      let (c, first) = pass t b in let (d, later) = pass_all ts c in (d, first ++ later)

  -- What a handler that throws is followed by.
  abbrev pub report : Option String → List (Effect V)
  report none = []
  report (some error) = on_error error ∷ []

  -- Some messages, each to every handler in turn.
  abbrev pub to_each : List ℕ → QueuedMessage V → List (Effect V)
  to_each [] m = []
  to_each (h ∷ hs) m = (handles h m ∷ report (throws h)) ++ to_each hs m

  abbrev pub all_to_each : List ℕ → List (QueuedMessage V) → List (Effect V)
  all_to_each hs [] = []
  all_to_each hs (m ∷ ms) = to_each hs m ++ all_to_each hs ms

  call_handlers-to_each :
      (hs : List ℕ) (m : QueuedMessage V) → call_handlers throws hs m ≡ to_each hs m
  unfolding call_handlers
  call_handlers-to_each [] m = refl
  call_handlers-to_each (h ∷ hs) m = elim (Option-cases (throws h)) [
    | inl e ↦ rw (e, call_handlers-to_each hs m) refl
    | inr (error, e) ↦ rw (e, call_handlers-to_each hs m) refl
  ]

  deliver-all_to_each :
      (hs : List ℕ) (ms : List (QueuedMessage V)) → deliver throws hs ms ≡ all_to_each hs ms
  unfolding deliver
  deliver-all_to_each hs [] = refl
  deliver-all_to_each hs (m ∷ ms) =
      ap₂ (λ xs ys. xs ++ ys) (call_handlers-to_each hs m) (deliver-all_to_each hs ms)

  all_to_each-append :
      (hs : List ℕ) (ms ns : List (QueuedMessage V))
      → all_to_each hs (ms ++ ns) ≡ all_to_each hs ms ++ all_to_each hs ns
  all_to_each-append hs [] ns = refl
  all_to_each-append hs (m ∷ ms) ns =
      rw (all_to_each-append hs ms ns)
        (sym (append_assoc (to_each hs m) (all_to_each hs ms) (all_to_each hs ns)))

  abbrev put_in : Traffic V → List (QueuedMessage V)
  put_in t = sent (t ∷ [])

  -- Some steps, with the messages that it delivers.
  pub record Passes (b c : Bridge V) (effects : List (Effect V)) (new : List (QueuedMessage V))
      : Type 0 where
    pub out : List (QueuedMessage V)
    pub delivered : effects ≡ all_to_each b.message_handlers out
    pub in_order : out ++ c.message_queue ≡ b.message_queue ++ new
    pub same_handlers : c.message_handlers ≡ b.message_handlers
    pub alive : c.destroyed ≡ false
    pub timed : c.batch_timer ≡ true
    pub bounded : length b.message_queue < max_batch_size → length c.message_queue < max_batch_size

  module _ (positive : 0 < max_batch_size) where
    flush-Passes :
        (b : Bridge V)
        → b.destroyed ≡ false
        → b.batch_timer ≡ true
        → Passes b (flush_messages throws b).0 (flush_messages throws b).1 []
    unfolding flush_messages
    flush-Passes b alive timed = record {
      out = b.message_queue;
      delivered = deliver-all_to_each b.message_handlers b.message_queue;
      in_order = refl;
      same_handlers = refl;
      alive = alive;
      timed = timed;
      bounded = λ h. positive;
    }

    send-Passes :
        (m : QueuedMessage V) (b : Bridge V)
        → b.destroyed ≡ false
        → Passes b
            (send_message throws max_batch_size m b).0
            (send_message throws max_batch_size m b).1
            (m ∷ [])
    unfolding send_message flush_messages deliver
    send-Passes m b alive =
        let queue = b.message_queue ++ m ∷ [] in
        rw alive (elim (Bool-cases (leb max_batch_size (length queue))) [
          | inl full ↦ rw full (record {
            out = queue;
            delivered = deliver-all_to_each b.message_handlers queue;
            in_order = append-nil queue;
            same_handlers = refl;
            alive = refl;
            timed = refl;
            bounded = λ h. positive;
          })
          | inr more ↦ rw more (record {
            out = [];
            delivered = refl;
            in_order = refl;
            same_handlers = refl;
            alive = refl;
            timed = refl;
            bounded = λ h. ground (arith, more);
          })
        ])

    timer_fires-flush :
        (b : Bridge V) → b.batch_timer ≡ true → timer_fires throws b ≡ flush_messages throws b
    unfolding timer_fires
    timer_fires-flush b timed = ap (λ t. if t then flush_messages throws b else (b, [])) timed

    pass-Passes :
        (t : Traffic V) (b : Bridge V)
        → b.destroyed ≡ false
        → b.batch_timer ≡ true
        → Passes b (pass t b).0 (pass t b).1 (put_in t)
    pass-Passes (send m) b alive timed = send-Passes m b alive
    pass-Passes flush b alive timed = flush-Passes b alive timed
    pass-Passes tick b alive timed =
        subst (λ r. Passes b r.0 r.1 []) (sym (timer_fires-flush b timed))
          (flush-Passes b alive timed)

    sent-cons : (t : Traffic V) (ts : List (Traffic V)) → put_in t ++ sent ts ≡ sent (t ∷ ts)
    sent-cons (send m) ts = refl
    sent-cons flush ts = refl
    sent-cons tick ts = refl

    -- Of a bridge that is not destroyed and whose timer runs, with a batch size above 0, and of handlers
    -- that do not call the bridge while they run: whatever is sent and whenever the queue is flushed,
    -- each message goes once to each handler, in the order in which it was put in the queue, whether
    -- other handlers throw or not, or waits there still; the error of a handler that throws is reported
    -- right after the handler; and the queue stays shorter than a batch.
    pub pass_all-Passes :
        (ts : List (Traffic V)) (b : Bridge V)
        → b.destroyed ≡ false
        → b.batch_timer ≡ true
        → Passes b (pass_all ts b).0 (pass_all ts b).1 (sent ts)
    unfolding pass_all deliver
    pass_all-Passes [] b alive timed = record {
      out = [];
      delivered = refl;
      in_order = sym (append-nil b.message_queue);
      same_handlers = refl;
      alive = alive;
      timed = timed;
      bounded = λ h. h;
    }
    pass_all-Passes (t ∷ ts) b alive timed =
        let p = pass-Passes t b alive timed in
        let c = (pass t b).0 in
        let q = pass_all-Passes ts c p.alive p.timed in
        let d = (pass_all ts c).0 in
        record {
          out = p.out ++ q.out;
          delivered =
              ap₂ (λ xs ys. xs ++ ys) p.delivered
                (q.delivered ∙ ap (λ hs. all_to_each hs q.out) p.same_handlers)
              ∙ sym (all_to_each-append b.message_handlers p.out q.out);
          in_order =
              append_assoc p.out q.out d.message_queue
              ∙ (ap (λ ms. p.out ++ ms) q.in_order
                  ∙ (sym (append_assoc p.out c.message_queue (sent ts))
                      ∙ (ap (λ ms. ms ++ sent ts) p.in_order
                          ∙ (append_assoc b.message_queue (put_in t) (sent ts)
                              ∙ ap (λ ms. b.message_queue ++ ms) (sent-cons t ts)))));
          same_handlers = q.same_handlers ∙ p.same_handlers;
          alive = q.alive;
          timed = q.timed;
          bounded = λ h. q.bounded (p.bounded h);
        }
