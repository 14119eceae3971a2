-- ===== src/Outbox/Relay.antt =====
-- shared/events/outbox-relay.service.ts and outbox.event.entity.ts. `W` is what the handlers write,
-- `P` the payload of an event; `emit` is the delivery of an event to its handlers (emitAsync): that
-- no handler threw, and what they wrote. Events that handlers publish are not part of a delivery.
use qayoda_backend.Base.{
  ℕ, ◌-◌, ◌*◌, Bool, true, false, not, Option, none, some, List, [], ◌∷◌, ◌==◌, ltb, leb,
  if◌then◌else◌, select, sort_by, take, update_where, String, is_some,
}

-- `DISPATCHED_RETENTION_MS`
abbrev pub dispatched_retention_ms : ℕ
dispatched_retention_ms = 24 * 60 * 60 * 1000

pub record OutboxEvent (P : Type 0) : Type 0 where
  pub id : ℕ
  pub event_name : String
  pub payload : P
  pub created_at : ℕ
  pub dispatched_at : Option ℕ

-- The table, the clock, the flag of the service, and what the handlers write.
pub record Outbox (P W : Type 0) : Type 0 where
  pub now : ℕ
  pub running : Bool
  pub events : List (OutboxEvent P)
  pub world : W

module _ {P : Type 0} where
  abbrev pub is_waiting : OutboxEvent P → Bool
  is_waiting e = not (is_some e.dispatched_at)

  abbrev pub is_older : OutboxEvent P → OutboxEvent P → Bool
  is_older a b = leb a.created_at b.created_at

  abbrev pub dispatched : ℕ → OutboxEvent P → OutboxEvent P
  dispatched now e = record e { dispatched_at = some now }

  abbrev pub is_stale : ℕ → OutboxEvent P → Bool
  is_stale now e = elim e.dispatched_at [
    | none ↦ false
    | some at ↦ ltb at (now - dispatched_retention_ms)
  ]

module _ {P W : Type 0} where
  abbrev pub batch_of : Outbox P W → List (OutboxEvent P)
  batch_of s = take 50 (sort_by is_older (select is_waiting s.events))

  -- After a handler threw, the row is left as it is.
  abbrev pub noted : OutboxEvent P → Bool × W → Outbox P W → Outbox P W
  noted e (true, w) s = record s {
    world = w;
    events = update_where (λ r. r.id == e.id) (dispatched s.now) s.events;
  }
  noted e (false, w) s = record s { world = w }

  unfoldable pub deliver :
      (OutboxEvent P → W → Bool × W) → List (OutboxEvent P) → Outbox P W → Outbox P W
  deliver emit [] s = s
  deliver emit (e ∷ es) s = deliver emit es (noted e (emit e s.world) s)

  unfoldable pub relay : (OutboxEvent P → W → Bool × W) → Outbox P W → Outbox P W
  relay emit s =
      if s.running
      then s
      else (record (deliver emit (batch_of s) (record s { running = true })) { running = false })

  unfoldable pub prune : Outbox P W → Outbox P W
  prune s = record s { events = select (λ e. not (is_stale s.now e)) s.events }
