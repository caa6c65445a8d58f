-- ===== src/PolicyEvents/Polling.antt =====
-- What a reader that polls the store sees (Since of internal/policyevents/events.go).
use sandbox_codex.Common.{
  ==_iff, All, All-mono, Bool-cases, List, [], ap, arith, false, filter, inl, inr, length, ltb,
  refl, suc, ℕ, ◌++◌, ◌+◌, ◌<◌, ◌==◌, ◌∙◌, ◌∷◌, ◌≡◌, ◌≤◌,
}
use sandbox_codex.PolicyEvents.{
  Event, Store, add, next_sequence, push_event, shift, since, stamp, write_event,
}
use sandbox_codex.PolicyEvents.Bounds.{IsBounded}

abbrev pub IsUpTo : ℕ → Event → Type 0
IsUpTo n e = e.sequence ≤ n

-- No event has a number above the last one.
abbrev pub IsNumbered : Store → Type 0
IsNumbered s = All (IsUpTo s.last) s.events

filter-none : (n : ℕ) (es : List Event) → All (IsUpTo n) es → filter (λ e. ltb n e.sequence) es ≡ []
filter-none n [] h = refl
filter-none n (e ∷ es) (le, h) = let rest = filter-none n es h in ground arith

filter-append :
    (n : ℕ) (es : List Event) (e : Event)
    → All (IsUpTo n) es
    → n < e.sequence
    → filter (λ x. ltb n x.sequence) (es ++ (e ∷ [])) ≡ e ∷ []
filter-append n [] e h lt = ground arith
filter-append n (x ∷ es) e (le, h) lt = let rest = filter-append n es e h lt in ground arith

All-append_one :
    (P : Event → Type 0) (e : Event) (es : List Event) → All P es → P e → All P (es ++ (e ∷ []))
All-append_one P e [] h p = (p, tt)
All-append_one P e (x ∷ es) (q, h) p = (q, All-append_one P e es h p)

All-shift : (P : Event → Type 0) (e : Event) (es : List Event) → All P es → P e → All P (shift e es)
All-shift P e [] h p = tt
All-shift P e (x ∷ es) (q, h) p = All-append_one P e es h p

All-push_event :
    (P : Event → Type 0) (capacity : ℕ) (e : Event) (es : List Event)
    → All P es
    → P e
    → All P (push_event capacity e es)
All-push_event P capacity e es h p = elim (Bool-cases (length es == capacity)) [
  | inl full ↦ rw full (All-shift P e es h p)
  | inr free ↦ rw free (All-append_one P e es h p)
]

filter-push_event :
    (n capacity : ℕ) (e : Event) (es : List Event)
    → 0 < capacity
    → All (IsUpTo n) es
    → n < e.sequence
    → filter (λ x. ltb n x.sequence) (push_event capacity e es) ≡ e ∷ []
filter-push_event n capacity e [] roomy h lt =
    let free : (0 == capacity) ≡ false = ground (arith, ==_iff 0 capacity) in
    rw free (filter-append n [] e tt lt)
filter-push_event n capacity e (x ∷ es) roomy (le, h) lt =
    elim (Bool-cases (suc (length es) == capacity)) [
      | inl full ↦ rw full (filter-append n es e h lt)
      | inr free ↦ rw free (filter-append n (x ∷ es) e (le, h) lt)
    ]

events-write_event : (e : Event) (s : Store) → (write_event e s).events ≡ s.events
events-write_event e s = ground arith

last-write_event : (e : Event) (s : Store) → (write_event e s).last ≡ s.last
last-write_event e s = ground arith

-- Until the 64-bit counter wraps, Add keeps the events numbered up to the last number.
pub add-IsNumbered :
    (now : ℕ) (e : Event) (s : Store)
    → s.last + 1 < 18446744073709551616
    → IsNumbered s
    → IsNumbered (add now e s)
unfolding add
add-IsNumbered now e s small h =
    let next : next_sequence s ≡ s.last + 1 = omega arith in
    let stamped = stamp (next_sequence s) now e in
    let pushed = record s {
      last = next_sequence s;
      events = push_event s.capacity stamped s.events;
    } in
    let older : All (IsUpTo (next_sequence s)) s.events =
      All-mono (IsUpTo s.last) (IsUpTo (next_sequence s)) (λ x le. omega arith) s.events h in
    rw (events-write_event stamped pushed, last-write_event stamped pushed)
      (All-push_event (IsUpTo (next_sequence s)) s.capacity stamped s.events older (omega arith))

-- A reader that asks for the events since the last number it knows gets exactly the one event that
-- was added meanwhile, with the next number, also when the store was full. The store is within its
-- bounds and its events are numbered up to its last number, which the 64-bit counter can exceed.
pub since-add :
    (now : ℕ) (e : Event) (s : Store)
    → s.last + 1 < 18446744073709551616
    → IsBounded s
    → IsNumbered s
    → since s.last (add now e s) ≡ stamp (s.last + 1) now e ∷ []
unfolding add since
since-add now e s small b h =
    let next : next_sequence s ≡ s.last + 1 = omega arith in
    let stamped = stamp (next_sequence s) now e in
    let pushed = record s {
      last = next_sequence s;
      events = push_event s.capacity stamped s.events;
    } in
    rw (events-write_event stamped pushed) (
      filter-push_event s.last s.capacity stamped s.events b.roomy h (omega arith)
      ∙ ap (λ n. stamp n now e ∷ []) next)
