-- ===== src/KataGuard/Launch/Grants.antt =====
-- A claim that is granted is on the disk (claimLaunch of internal/kataguard/launch.go).
use sandbox_codex.Common.{
  Bool, Bool-cases, Option, Option-cases, Result, Str, [], any, arith, err, false, inl, inr,
  is_empty, lookup, lookup-insert_self, ltb, none, not, ok, refl, some, str_eq, str_eq_iff, subst,
  true, ℕ, ◌&&◌, ◌+◌, ◌<◌, ◌||◌, ◌≡◌,
}
use sandbox_codex.KataGuard.Launch.{
  Finding, Inventory, Surroundings, after_find, check_inventory, claim_launch, claim_read,
  engine_down, find_failed, finish_record, fresh_record, inventory_failed, launch_lease_period,
  no_worker, renew, settle, vms, worker,
}
use sandbox_codex.KataGuard.Launch.Leases.{active_lease_exclusive}
use sandbox_codex.KataGuard.Records.{
  Answer, Guard, LaunchError, LaunchFile, LaunchRecord, LaunchState, WriteReach, bad_digest,
  bad_file, conflict, done_context, find_error, holds, inventory_error, is_digest, is_failed,
  is_pending, is_settled, launch_pending, missing_file, no_engine, no_match, open_file,
  random_error, read_launch, stale_lease, synced, unreadable, unsynced, unwritten, valid_record,
  write_error, write_launch,
}

write_launch-record :
    (reach : WriteReach) (r : LaunchRecord) (g : Guard) → (write_launch reach r g).1 ≡ r
unfolding write_launch
write_launch-record unwritten r g = refl
write_launch-record unsynced r g = ground arith
write_launch-record synced r g = ground arith

write_launch-ok :
    (reach : WriteReach) (r : LaunchRecord) (g : Guard)
    → (write_launch reach r g).2 ≡ none
    → (lookup r.key (write_launch reach r g).0.launches ≡ some (holds r))
      × ((write_launch reach r g).0.dir_error ≡ none)
unfolding write_launch
write_launch-ok unwritten r g e = cc
write_launch-ok unsynced r g e = elim (Option-cases g.dir_error) [
  | inl dir ↦ cc (simp dir at e)
  | inr (b, dir) ↦ cc (simp dir at e)
]
write_launch-ok synced r g e = elim (Option-cases g.dir_error) [
  | inl dir ↦ simp dir (lookup-insert_self r.key (holds r) g.launches, refl)
  | inr (b, dir) ↦ cc (simp dir at e)
]

-- If the answer is a pending launch with a lease, and no error, the record of the answer is stored
-- under the key, with the time of the claim.
abbrev pub StoresGrant : ℕ → Str → Answer → Type 0
StoresGrant now key a =
    a.2 ≡ none
    → is_pending a.1.state ≡ true
    → is_empty a.1.lease ≡ false
    → (lookup key a.0.launches ≡ some (holds a.1)) × (a.1.updated_at ≡ now) × (a.0.dir_error ≡ none)

module _ (env : Surroundings) (key : Str) (g : Guard) where
  write_launch-StoresGrant :
      (r : LaunchRecord)
      → r.key ≡ key
      → r.updated_at ≡ env.now
      → StoresGrant env.now key (write_launch env.write_reach r g)
  write_launch-StoresGrant r own at e waiting filled =
      let (stored, dir) = write_launch-ok env.write_reach r g e in
      let same = write_launch-record env.write_reach r g in rw same (rw (← own) stored, at, dir)

  renew-StoresGrant :
      (r : LaunchRecord) (o : Option Str) → r.key ≡ key → StoresGrant env.now key (renew env g r o)
  renew-StoresGrant r none own = λ e. cc
  renew-StoresGrant r (some lease) own = write_launch-StoresGrant _ own refl

  check_inventory-StoresGrant :
      (r : LaunchRecord) (i : Inventory)
      → r.key ≡ key
      → StoresGrant env.now key (check_inventory env key g r i)
  check_inventory-StoresGrant r inventory_failed own = λ e. cc
  check_inventory-StoresGrant r engine_down own = λ e. cc
  check_inventory-StoresGrant r (vms allocations) own =
      elim (Bool-cases (any (λ a. str_eq a (env.allocation key)) allocations)) [
        | inl reserved ↦ rw reserved (λ e waiting filled. cc)
        | inr clear ↦ rw clear (renew-StoresGrant r env.random_lease own)
      ]

  finished_not_granted :
      (r : LaunchRecord) (id : Str)
      → StoresGrant env.now key (write_launch env.write_reach (finish_record env id r) g)
  finished_not_granted r id e waiting filled =
      let same = write_launch-record env.write_reach (finish_record env id r) g in
      cc (rw same at waiting)

  after_find-StoresGrant :
      (fingerprint : Str) (fresh : Bool) (r : LaunchRecord) (f : Finding)
      → r.key ≡ key
      → StoresGrant env.now key (after_find env key fingerprint fresh g r f)
  after_find-StoresGrant fingerprint fresh r find_failed own = λ e. cc
  after_find-StoresGrant fingerprint fresh r (worker id k f) own =
      elim (Bool-cases (not (str_eq k key) || not (str_eq f fingerprint))) [
        | inl other ↦ rw other (λ e. cc)
        | inr same ↦ rw same (finished_not_granted r id)
      ]
  after_find-StoresGrant fingerprint fresh r no_worker own =
      elim (Bool-cases (not fresh && (is_pending r.state || is_failed r.state))) [
        | inl again ↦ rw again (check_inventory-StoresGrant r env.inventory own)
        | inr first ↦ rw first (renew-StoresGrant r env.random_lease own)
      ]

  settled_not_pending : (st : LaunchState) → is_settled st ≡ true → is_pending st ≡ false
  settled_not_pending st e = ground arith

  settle-StoresGrant :
      (fingerprint : Str) (fresh : Bool) (r : LaunchRecord)
      → r.key ≡ key
      → StoresGrant env.now key (settle env key fingerprint fresh g r)
  settle-StoresGrant fingerprint fresh r own = elim (Bool-cases (is_settled r.state)) [
    | inl over ↦ rw over (λ e waiting filled. cc (settled_not_pending r.state over, waiting))
    | inr open_launch ↦
        elim (Bool-cases (is_pending r.state && ltb env.now (r.updated_at + launch_lease_period))) [
          | inl active ↦ rw (open_launch, active) (λ e waiting filled. cc)
          | inr idle ↦
              rw (open_launch, idle)
                (after_find-StoresGrant fingerprint fresh r (env.find_request r.name) own)
        ]
  ]

  claim_read-StoresGrant :
      (fingerprint : Str) (o : Result LaunchError LaunchRecord)
      → ((r : LaunchRecord) → o ≡ ok r → r.key ≡ key)
      → StoresGrant env.now key (claim_read env key fingerprint g o)
  claim_read-StoresGrant fingerprint (ok r) own =
      elim (Bool-cases (str_eq r.fingerprint fingerprint)) [
        | inl same ↦ rw same (settle-StoresGrant fingerprint false r (own r refl))
        | inr other ↦ rw other (λ e. cc)
      ]
  claim_read-StoresGrant fingerprint (err missing_file) own =
      settle-StoresGrant fingerprint true (fresh_record key fingerprint) refl
  claim_read-StoresGrant fingerprint (err bad_digest) own = λ e. cc
  claim_read-StoresGrant fingerprint (err bad_file) own = λ e. cc
  claim_read-StoresGrant fingerprint (err conflict) own = λ e. cc
  claim_read-StoresGrant fingerprint (err no_engine) own = λ e. cc
  claim_read-StoresGrant fingerprint (err find_error) own = λ e. cc
  claim_read-StoresGrant fingerprint (err random_error) own = λ e. cc
  claim_read-StoresGrant fingerprint (err write_error) own = λ e. cc
  claim_read-StoresGrant fingerprint (err stale_lease) own = λ e. cc
  claim_read-StoresGrant fingerprint (err no_match) own = λ e. cc
  claim_read-StoresGrant fingerprint (err done_context) own = λ e. cc
  claim_read-StoresGrant fingerprint (err inventory_error) own = λ e. cc

open_file-key :
    (key : Str) (f : Option LaunchFile) (r : LaunchRecord) → open_file key f ≡ ok r → r.key ≡ key
open_file-key key none r e = cc
open_file-key key (some unreadable) r e = cc
open_file-key key (some (holds s)) r e = elim (Bool-cases (valid_record key s)) [
  | inl good ↦
      let one : s ≡ r = cc (rw good at e) in
      subst (λ z. z.key ≡ key) one ((str_eq_iff s.key key).0 (ground (arith, good)))
  | inr bad ↦ cc (rw bad at e)
]

read_launch-key :
    (key : Str) (g : Guard) (r : LaunchRecord) → read_launch key g ≡ ok r → r.key ≡ key
unfolding read_launch
read_launch-key key g r e = elim (Bool-cases (is_digest key)) [
  | inr bad ↦ cc (rw bad at e)
  | inl digest ↦ elim (Option-cases g.dir_error) [
    | inr (true, dir) ↦ cc (rw (digest, dir) at e)
    | inr (false, dir) ↦ cc (rw (digest, dir) at e)
    | inl dir ↦ open_file-key key (lookup key g.launches) r (rw (digest, dir) at e)
  ]
]

claim_launch-StoresGrant :
    (env : Surroundings) (key fingerprint : Str) (g : Guard)
    → StoresGrant env.now key (claim_launch env key fingerprint g)
unfolding claim_launch
claim_launch-StoresGrant env key fingerprint g =
    elim (Bool-cases (not (is_digest key) || not (is_digest fingerprint))) [
      | inl bad ↦ rw bad (λ e. cc)
      | inr good ↦ elim (Bool-cases env.is_done) [
        | inl over ↦ simp (good, over) (λ e. cc)
        | inr going ↦
            simp (good, going)
              (claim_read-StoresGrant env key g fingerprint (read_launch key g)
                (read_launch-key key g))
      ]
    ]

-- Once a claim was granted (no error, a pending launch and a lease), a claim that anyone makes for
-- the same key within the lease period changes nothing and gets no lease, whatever the engine, the
-- inventory and the fingerprint are then.
pub granted_lease_exclusive :
    (env later : Surroundings) (key fingerprint other : Str) (g : Guard)
    → (claim_launch env key fingerprint g).2 ≡ none
    → (claim_launch env key fingerprint g).1.state ≡ launch_pending
    → is_empty (claim_launch env key fingerprint g).1.lease ≡ false
    → later.now < env.now + launch_lease_period
    → ((claim_launch later key other (claim_launch env key fingerprint g).0).0
        ≡ (claim_launch env key fingerprint g).0)
      × ((claim_launch later key other (claim_launch env key fingerprint g).0).1.lease ≡ [])
granted_lease_exclusive env later key fingerprint other g fine waiting filled early =
    let a = claim_launch env key fingerprint g in
    let (stored, at, dir) =
      claim_launch-StoresGrant env key fingerprint g fine (rw waiting refl) filled in
    active_lease_exclusive later key other a.0 a.1 dir stored waiting (rw at early)
