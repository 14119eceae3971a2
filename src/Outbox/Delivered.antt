-- ===== src/Outbox/Delivered.antt =====
-- Every waiting event is delivered, when the handlers do not throw
-- (shared/events/outbox-relay.service.ts).
use qayoda_backend.Base.{
  ℕ, zero, suc, ◌≤◌, ◌<◌, ◌≡◌, refl, Bool, true, false, List, [], ◌∷◌, ◌==◌, arith, select, take,
  count_if-update_where, Bool-cases, inl, inr, map, ◌∙◌, ◌-◌,
}
use qayoda_backend.Outbox.Relay.{
  OutboxEvent, Outbox, is_waiting, batch_of, dispatched, noted, deliver, relay,
}
use qayoda_backend.Outbox.Waiting.{
  waiting, is_there, select-there, dispatched-fewer, oldest, select-nothing, ids-kept,
}

module _ {P W : Type 0} (emit : OutboxEvent P → W → Bool × W) where
  noted-waiting :
      (e : OutboxEvent P) (r : Bool × W) (s : Outbox P W) → waiting (noted e r s) ≤ waiting s
  noted-waiting e (true, w) s =
      count_if-update_where is_waiting (λ r. r.id == e.id) (dispatched s.now) s.events
        (λ x own waits. absurd (cc waits))
  noted-waiting e (false, w) s = omega arith

  noted-ids :
      (e : OutboxEvent P) (r : Bool × W) (s : Outbox P W)
      → map (λ x. x.id) (noted e r s).events ≡ map (λ x. x.id) s.events
  noted-ids e (true, w) s = ids-kept s.now e.id s.events
  noted-ids e (false, w) s = refl

  deliver-waiting :
      (es : List (OutboxEvent P)) (s : Outbox P W) → waiting (deliver emit es s) ≤ waiting s
  unfolding deliver
  deliver-waiting [] s = omega arith
  deliver-waiting (e ∷ es) s =
      ground
        (arith, noted-waiting e (emit e s.world) s, deliver-waiting es (noted e (emit e s.world) s))

  deliver-ids :
      (es : List (OutboxEvent P)) (s : Outbox P W)
      → map (λ x. x.id) (deliver emit es s).events ≡ map (λ x. x.id) s.events
  unfolding deliver
  deliver-ids [] s = refl
  deliver-ids (e ∷ es) s =
      deliver-ids es (noted e (emit e s.world) s) ∙ noted-ids e (emit e s.world) s

  noted-fewer :
      (e : OutboxEvent P) (r : Bool × W) (s : Outbox P W)
      → r.0 ≡ true
      → is_there s.events e ≡ true
      → waiting (noted e r s) < waiting s
  noted-fewer e (true, w) s good there = dispatched-fewer s.now e.id s.events there
  noted-fewer e (false, w) s good there = absurd (cc good)

  -- A run of the relay has one event less that waits, or none did.
  relay-waiting :
      (s : Outbox P W)
      → ((e : OutboxEvent P) (w : W) → (emit e w).0 ≡ true)
      → s.running ≡ false
      → waiting (relay emit s) ≤ waiting s - 1
  unfolding relay deliver
  relay-waiting s good idle =
      elim (oldest s.events (select is_waiting s.events) (select-there s.events)) [
        | inl nothing ↦
            let zero_left = select-nothing s.events nothing in
            rw idle (
              ground (arith, zero_left, deliver-waiting (batch_of s) (record s { running = true })))
        | inr (b, bs, e, there) ↦
            let t : Outbox P W = record s { running = true } in
            rw (idle, e)
              (ground (
                arith,
                noted-fewer b (emit b s.world) t (good b s.world) there,
                deliver-waiting (take 49 bs) (noted b (emit b s.world) t),
              ))
      ]

  relay-idle : (s : Outbox P W) → s.running ≡ false → (relay emit s).running ≡ false
  unfolding relay
  relay-idle s idle = rw idle refl

  relay-ids : (s : Outbox P W) → map (λ x. x.id) (relay emit s).events ≡ map (λ x. x.id) s.events
  unfolding relay
  relay-ids s = elim (Bool-cases s.running) [
    | inl busy ↦ rw busy refl
    | inr idle ↦ rw idle (deliver-ids (batch_of s) (record s { running = true }))
  ]

  -- The relay run a number of times.
  unfoldable pub relays : ℕ → Outbox P W → Outbox P W
  relays zero s = s
  relays (suc n) s = relays n (relay emit s)

  -- When the handlers never throw, the relay is not under way and no event is published meanwhile, as
  -- many runs of the relay as events wait leave none that waits, and the table has the same events.
  pub relays-waiting :
      (n : ℕ) (s : Outbox P W)
      → ((e : OutboxEvent P) (w : W) → (emit e w).0 ≡ true)
      → s.running ≡ false
      → waiting s ≤ n
      → (waiting (relays n s) ≡ 0)
        × (map (λ x. x.id) (relays n s).events ≡ map (λ x. x.id) s.events)
  unfolding relays
  relays-waiting zero s good idle enough = (omega arith, refl)
  relays-waiting (suc n) s good idle enough =
      let step = relay-waiting s good idle in
      let rest = relays-waiting n (relay emit s) good (relay-idle s idle) (ground (arith, step)) in
      (rest.0, rest.1 ∙ relay-ids s)
