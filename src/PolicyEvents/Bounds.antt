-- ===== src/PolicyEvents/Bounds.antt =====
-- What the store of policy events keeps, and what it logs (Add and Since of
-- internal/policyevents/events.go).
use sandbox_codex.Common.{
  ==_iff, Bool, Bool-cases, List, [], arith, if◌then◌else◌, inl, inr, leb, length, length-append,
  negsuc, pos, refl, subst, suc, zero, ℕ, ℤ, ◌&&◌, ◌+◌, ◌<◌, ◌==◌, ◌∙◌, ◌∷◌, ◌≡◌, ◌≤◌,
}
use sandbox_codex.PolicyEvents.{
  Event, Store, add, limit_event, new_store, next_sequence, push_event, shift, stamp,
  store_capacity, write_event,
}

-- The invariant of a store: it has room for at least one event and no more than its capacity of
-- them, and its log has as many events as it counted, at most one more than the limit.
pub record IsBounded (s : Store) : Type 0 where
  pub roomy : 0 < s.capacity
  pub within : length s.events ≤ s.capacity
  pub counted : length s.log ≡ s.written
  pub limited : s.written ≤ s.write_limit + 1

length-shift : (e : Event) (es : List Event) → 0 < length es → length (shift e es) ≡ length es
length-shift e [] h = absurd (omega arith)
length-shift e (x ∷ es) h = length-append es (e ∷ []) ∙ omega arith

length-push_event :
    (n : ℕ) (e : Event) (es : List Event) → 0 < n → length es ≤ n → length (push_event n e es) ≤ n
length-push_event n e es roomy h = elim (Bool-cases (length es == n)) [
  | inl full ↦
      let eq = (==_iff (length es) n).0 full in
      let same = length-shift e es (omega arith) in rw full (rw same h)
  | inr free ↦
      let room = length-append es (e ∷ []) in
      rw free (rw room (ground (arith, ==_iff (length es) n)))
]

write_event-IsBounded : (e : Event) (s : Store) → IsBounded s → IsBounded (write_event e s)
write_event-IsBounded e s b = elim (Bool-cases (s.has_writer && leb s.written s.write_limit)) [
  | inr out ↦ rw out b
  | inl open_log ↦
      let more =
        length-append s.log ((if s.written == s.write_limit then limit_event e else e) ∷ []) in
      rw open_log (record {
        roomy = b.roomy;
        within = b.within;
        counted = more ∙ (let h = b.counted in omega arith);
        limited = ground (arith, b.limited);
      })
]

-- A new store is within its bounds, whatever capacity it was asked for.
pub new_store-IsBounded :
    (capacity : ℤ) (has_writer : Bool) → IsBounded (new_store capacity has_writer)
unfolding new_store
new_store-IsBounded capacity has_writer = record {
  roomy = positive capacity;
  within = omega arith;
  counted = refl;
  limited = omega arith;
}
  where
    positive : (n : ℤ) → 0 < store_capacity n
    positive (pos zero) = omega arith
    positive (pos (suc n)) = omega arith
    positive (negsuc n) = omega arith

-- Add keeps the store within its bounds, the event buffer and the log both.
pub add-IsBounded : (now : ℕ) (e : Event) (s : Store) → IsBounded s → IsBounded (add now e s)
unfolding add
add-IsBounded now e s b =
    let stamped = stamp (next_sequence s) now e in
    write_event-IsBounded stamped
      (record s { last = next_sequence s; events = push_event s.capacity stamped s.events })
      (record {
        roomy = b.roomy;
        within = length-push_event s.capacity stamped s.events b.roomy b.within;
        counted = b.counted;
        limited = b.limited;
      })

-- Adding a list of events, the first one first; each comes with its time.
unfoldable pub add_all : List (ℕ × Event) → Store → Store
unfolding add
add_all [] s = s
add_all ((now, e) ∷ es) s = add_all es (add now e s)

pub add_all-IsBounded : (es : List (ℕ × Event)) (s : Store) → IsBounded s → IsBounded (add_all es s)
unfolding add_all
add_all-IsBounded [] s b = b
add_all-IsBounded ((now, e) ∷ es) s b = add_all-IsBounded es (add now e s) (add-IsBounded now e s b)

write_event-limits :
    (e : Event) (s : Store)
    → ((write_event e s).capacity ≡ s.capacity) × ((write_event e s).write_limit ≡ s.write_limit)
write_event-limits e s = elim (Bool-cases (s.has_writer && leb s.written s.write_limit)) [
  | inl open_log ↦ rw open_log (refl, refl)
  | inr out ↦ rw out (refl, refl)
]

add_all-limits :
    (es : List (ℕ × Event)) (s : Store)
    → ((add_all es s).capacity ≡ s.capacity) × ((add_all es s).write_limit ≡ s.write_limit)
unfolding add_all
add_all-limits [] s = (refl, refl)
add_all-limits ((now, e) ∷ es) s =
    let (room, limit) = add_all-limits es (add now e s) in
    let (room', limit') = add-limits now e s in (room ∙ room', limit ∙ limit')
  where
    add-limits :
        (now : ℕ) (e : Event) (s : Store)
        → ((add now e s).capacity ≡ s.capacity) × ((add now e s).write_limit ≡ s.write_limit)
    add-limits now e s = write_event-limits (stamp (next_sequence s) now e) (record s {
      last = next_sequence s;
      events = push_event s.capacity (stamp (next_sequence s) now e) s.events;
    })

-- The number of events is within the capacity that was asked for, and within 512 if that is not
-- positive.
abbrev pub IsWithinCapacity : ℤ → ℕ → Type 0
IsWithinCapacity (pos zero) k = k ≤ 512
IsWithinCapacity (pos (suc n)) k = k ≤ n + 1
IsWithinCapacity (negsuc n) k = k ≤ 512

-- However many events are added to a new store, it never holds more than the capacity that it was
-- asked for (512 if that is not positive), and its log never has more than 100001 events.
pub added_events_bounds :
    (capacity : ℤ) (has_writer : Bool) (es : List (ℕ × Event))
    → IsWithinCapacity capacity (length (add_all es (new_store capacity has_writer)).events)
      × (length (add_all es (new_store capacity has_writer)).log ≤ 100001)
unfolding new_store
added_events_bounds capacity has_writer es =
    let s = new_store capacity has_writer in
    let b = add_all-IsBounded es s (new_store-IsBounded capacity has_writer) in
    let (room, limit) = add_all-limits es s in
    let within = b.within in
    let counted = b.counted in
    let limited = b.limited in
    (
      of_capacity capacity (length (add_all es s).events)
          (subst (λ c. length (add_all es s).events ≤ c) room within),
      omega arith,
    )
  where
    of_capacity : (n : ℤ) (k : ℕ) → k ≤ store_capacity n → IsWithinCapacity n k
    of_capacity (pos zero) k h = h
    of_capacity (pos (suc n)) k h = omega arith
    of_capacity (negsuc n) k h = h
