-- ===== src/Outbox/Tests.antt =====
-- The relay at concrete inputs: two events, and handlers that note the ids they are given.
use qayoda_backend.Base.{ℕ, ◌≡◌, refl, true, false, none, List, [], ◌∷◌, Bool, arith, map}
use qayoda_backend.Outbox.Relay.{OutboxEvent, Outbox, relay, deliver}
use qayoda_backend.Outbox.Waiting.{waiting}
use qayoda_backend.Outbox.Delivered.{relays, relays-waiting}

abbrev paid : ℕ → ℕ → OutboxEvent ℕ
paid id at = record {
  id = id;
  event_name = "billing.payment.paid";
  payload = id;
  created_at = at;
  dispatched_at = none;
}

abbrev start : Outbox ℕ (List ℕ)
start = record { now = 100; running = false; events = paid 1 20 ∷ paid 2 10 ∷ []; world = [] }

abbrev note_id : OutboxEvent ℕ → List ℕ → Bool × List ℕ
note_id e seen = (true, e.id ∷ seen)

relays-waiting_example :
    (waiting (relays note_id 2 start) ≡ 0)
    × (map (λ x. x.id) (relays note_id 2 start).events ≡ 1 ∷ 2 ∷ [])
relays-waiting_example = relays-waiting note_id 2 start (λ e w. refl) refl (omega arith)

-- The older event first.
relay_test : (relay note_id start).world ≡ 1 ∷ 2 ∷ []
unfolding relay deliver
relay_test = refl

-- A handler that throws leaves the event for the next run.
relay_failed_test : (relay (λ e w. (false, w)) start).events ≡ start.events
unfolding relay deliver
relay_failed_test = refl
