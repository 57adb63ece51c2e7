-- ===== src/Bridge/Calls.antt =====
-- A call of the native side ends once.
use vais_lang.Prelude.{
  ℕ, String, none, some, List, [], ◌∷◌, ◌≡◌, refl, if◌then◌else◌, string_eq, ◌==◌, beq_self, ◌∙◌,
}
use vais_lang.Prelude.JsMap
use vais_lang.Prelude.JsMap.{get-set, get-delete}
use vais_lang.Bridge.{
  Bridge, Effect, settles, on_error, resolved, rejected, resolve_call, reject_call, call_times_out,
  settle_call,
}

-- An answer of the native side, or the time that is up.
pub data Ending (V : Type 0) : Type 0 where
  resolves : V → Ending V
  rejects : String → Ending V
  times_out : String → Ending V

module _ {V : Type 0} where
  abbrev pub end_call : String → Ending V → Bridge V → Bridge V × List (Effect V)
  end_call id (resolves v) b = resolve_call id v b
  end_call id (rejects reason) b = reject_call id reason b
  end_call id (times_out error) b = call_times_out id error b

  abbrev pub ending_effects : ℕ → Ending V → List (Effect V)
  ending_effects promise (resolves v) = settles promise (resolved v) ∷ []
  ending_effects promise (rejects reason) = settles promise (rejected reason) ∷ []
  ending_effects promise (times_out error) = on_error error ∷ settles promise (rejected error) ∷ []

  end_pending :
      (id : String) (ending : Ending V) (b : Bridge V) {promise : ℕ}
      → JsMap.get id b.pending_calls ≡ some promise
      → end_call id ending b ≡ (
        record b { pending_calls = JsMap.delete id b.pending_calls },
        ending_effects promise ending,
      )
  unfolding resolve_call reject_call call_times_out settle_call
  end_pending id (resolves v) b h = rw (h, settle_call) refl
  end_pending id (rejects reason) b h = rw (h, settle_call) refl
  end_pending id (times_out error) b h = rw (h, call_times_out) refl

  end_ended :
      (id : String) (ending : Ending V) (b : Bridge V)
      → JsMap.get id b.pending_calls ≡ none
      → end_call id ending b ≡ (b, [])
  unfolding resolve_call reject_call call_times_out settle_call
  end_ended id (resolves v) b h = rw (h, settle_call) refl
  end_ended id (rejects reason) b h = rw (h, settle_call) refl
  end_ended id (times_out error) b h = rw (h, call_times_out) refl

  -- The first answer to a pending call, or its time-out, settles its promise and no other; the call is
  -- then forgotten, the other calls stay, and any further answer or time-out does nothing.
  pub end_call_once :
      (id : String) (first second : Ending V) (b : Bridge V) {promise : ℕ}
      → JsMap.get id b.pending_calls ≡ some promise
      → let (c, effects) = end_call id first b in
        (effects ≡ ending_effects promise first)
        × (end_call id second c ≡ (c, []))
        × ((other : String)
            → JsMap.get other c.pending_calls
              ≡ (if id == other then none else JsMap.get other b.pending_calls))
  end_call_once id first second b {promise} h =
      let forgotten = record b { pending_calls = JsMap.delete id b.pending_calls } in
      rw (end_pending id first b h) (
        refl,
        end_ended id second forgotten (get-delete id id b.pending_calls ∙ rw (beq_self id) refl),
        λ other. get-delete id other b.pending_calls,
      )
