-- ===== src/Coalescer/Flight.antt =====
-- One call of the upstream for identical requests, in proxy/src/coalescer.rs.
use flock.Base.{
  ℕ, ◌+◌, ◌-◌, ◌*◌, ◌≤◌, ◌<◌, ◌≡◌, ◌≢◌, refl, Option, none, some, List, [], ◌∷◌, String,
  String-discrete, ℕ_discrete, ltb, find, keep, arith, Bool-cases, inl, inr, find-insert_self,
  find-insert_ne, find-remove, remove, ◌∙◌, ap,
}
use flock.Coalescer.{
  SharedResponse, Entry, Lead, follow, lead, Coalescer, reap, join, register, drop_lead, complete,
  received, wait,
}

-- what other requests do
pub data Event : Type 0 where
  joins : String → ℕ → Event
  completes : Lead → SharedResponse → Event
  drops : Lead → Event

unfoldable pub step : Coalescer → Event → Coalescer
unfolding register complete drop_lead
step c (joins key now) = (register c key now).0
step c (completes l resp) = complete c l resp
step c (drops l) = drop_lead c l

unfoldable pub run : Coalescer → List Event → Coalescer
run c [] = c
run c (e ∷ es) = run (step c e) es

-- registrations within the time for which a call is shared, and the ends of calls of other keys
abbrev pub Apart : String → ℕ → ℕ → List Event → Type 0
Apart key start ttl [] = Unit
Apart key start ttl (joins k now ∷ es) =
    (start ≤ now) × (now < start + ttl) × Apart key start ttl es
Apart key start ttl (completes l resp ∷ es) = (l.key ≢ key) × Apart key start ttl es
Apart key start ttl (drops l ∷ es) = (l.key ≢ key) × Apart key start ttl es

find-reap :
    (entries : List (String × Entry)) (key : String) (e : Entry) (now ttl : ℕ)
    → now - e.created < ttl
    → find String-discrete key entries ≡ some e
    → find String-discrete key (keep (λ x. ltb (now - x.1.created) (ttl * 2)) entries) ≡ some e
unfolding find
find-reap [] key e now ttl h f = absurd (ground (arith, f))
find-reap ((k, x) ∷ rest) key e now ttl h f = elim (String-discrete k key) [
  | yes y ↦ (let is : x ≡ e = ground (arith, y, f) in ground (arith, y, is, h))
  | no n ↦
      let later = find-reap rest key e now ttl h (ground (arith, n, f)) in ground (arith, n, later)
]

join-ttl :
    (c : Coalescer) (entries : List (String × Entry)) (key : String) (now : ℕ) (o : Option Entry)
    → (join c entries key now o).0.ttl ≡ c.ttl
unfolding join
join-ttl c entries key now none = refl
join-ttl c entries key now (some e) = ground arith

join-other :
    (c : Coalescer) (entries : List (String × Entry)) (key other : String) (e : Entry) (now : ℕ)
    (o : Option Entry)
    → other ≢ key
    → find String-discrete key entries ≡ some e
    → find String-discrete key (join c entries other now o).0.entries ≡ some e
unfolding join
join-other c entries key other e now none n f =
    find-insert_ne String-discrete other key (record { tx = c.next; created = now }) entries n ∙ f
join-other c entries key other e now (some e') n f =
    let led =
      find-insert_ne String-discrete other key (record { tx = c.next; created = now }) entries n in
    elim (Bool-cases (ltb (now - e'.created) c.ttl)) [ inl t ↦ rw t f | inr g ↦ rw g (led ∙ f) ]

register-ttl : (c : Coalescer) (key : String) (now : ℕ) → (register c key now).0.ttl ≡ c.ttl
unfolding register
register-ttl c key now = join-ttl c (reap c now) key now (find String-discrete key (reap c now))

-- a call that is shared is followed
register-shared :
    (c : Coalescer) (key : String) (e : Entry) (now : ℕ)
    → now - e.created < c.ttl
    → find String-discrete key c.entries ≡ some e
    → register c key now ≡ (record c { entries = reap c now }, follow e.tx)
unfolding register join
register-shared c key e now h f =
    let kept = find-reap c.entries key e now c.ttl h f in rw kept (ground (arith, h))

-- an entry that is shared stays
register-found :
    (c : Coalescer) (key other : String) (e : Entry) (now : ℕ)
    → now - e.created < c.ttl
    → find String-discrete key c.entries ≡ some e
    → find String-discrete key (register c other now).0.entries ≡ some e
unfolding register
register-found c key other e now h f = elim (String-discrete other key) [
  | yes y ↦
      let kept = find-reap c.entries key e now c.ttl h f in
      rw (y, register-shared c key e now h f) kept
  | no n ↦
      join-other c (reap c now) key other e now (find String-discrete other (reap c now)) n
        (find-reap c.entries key e now c.ttl h f)
]

step-ttl : (c : Coalescer) (e : Event) → (step c e).ttl ≡ c.ttl
unfolding step complete drop_lead
step-ttl c (joins key now) = register-ttl c key now
step-ttl c (completes l resp) = refl
step-ttl c (drops l) = refl

run-ttl : (c : Coalescer) (es : List Event) → (run c es).ttl ≡ c.ttl
unfolding run
run-ttl c [] = refl
run-ttl c (e ∷ es) = run-ttl (step c e) es ∙ step-ttl c e

removed-other :
    (entries : List (String × Entry)) (k key : String)
    → k ≢ key
    → find String-discrete key (remove String-discrete k entries) ≡ find String-discrete key entries
removed-other entries k key n = ground (arith, find-remove String-discrete k key entries)

run-found :
    (c : Coalescer) (key : String) (e : Entry) (es : List Event)
    → Apart key e.created c.ttl es
    → find String-discrete key c.entries ≡ some e
    → find String-discrete key (run c es).entries ≡ some e
unfolding run step complete drop_lead
run-found c key e [] w f = f
run-found c key e (joins k now ∷ es) w f =
    run-found (register c k now).0 key e es (rw (register-ttl c k now) (w.2))
      (register-found c key k e now (omega (arith, w.0, w.1)) f)
run-found c key e (completes l resp ∷ es) w f =
    run-found (complete c l resp) key e es w.1 (removed-other c.entries l.key key w.0 ∙ f)
run-found c key e (drops l ∷ es) w f =
    run-found (drop_lead c l) key e es w.1 (removed-other c.entries l.key key w.0 ∙ f)

join-lead :
    (c c' : Coalescer) (entries : List (String × Entry)) (key : String) (now : ℕ) (o : Option Entry)
    (l : Lead)
    → join c entries key now o ≡ (c', lead l)
    → (find String-discrete key c'.entries ≡ some (record { tx = l.tx; created = now }))
      × (c'.ttl ≡ c.ttl)
unfolding join
join-lead c c' entries key now none l e =
    let put =
      find-insert_self String-discrete key (record { tx = c.next; created = now }) entries in
    ground (arith, e, put)
join-lead c c' entries key now (some x) l e =
    let put =
      find-insert_self String-discrete key (record { tx = c.next; created = now }) entries in
    elim (Bool-cases (ltb (now - x.created) c.ttl)) [
      | inl t ↦ absurd (ground (arith, t, e))
      | inr g ↦ ground (arith, g, e, put)
    ]

register-lead :
    (c c' : Coalescer) (key : String) (now : ℕ) (l : Lead)
    → register c key now ≡ (c', lead l)
    → (find String-discrete key c'.entries ≡ some (record { tx = l.tx; created = now }))
      × (c'.ttl ≡ c.ttl)
unfolding register
register-lead c c' key now l e =
    join-lead c c' (reap c now) key now (find String-discrete key (reap c now)) l e

received-complete :
    (c : Coalescer) (l : Lead) (resp : SharedResponse)
    → received (complete c l resp) l.tx ≡ some resp
unfolding received complete drop_lead
received-complete c l resp = find-insert_self ℕ_discrete l.tx resp c.sent

wait-complete :
    (c : Coalescer) (l : Lead) (resp : SharedResponse) (start at ttl : ℕ)
    → c.ttl ≡ ttl
    → at ≤ start + ttl
    → wait (complete c l resp) l.tx start at ≡ some resp
unfolding wait complete drop_lead
wait-complete c l resp start at ttl e h = ground (arith, e, h, received-complete c l resp)

-- Identical requests share one call: once a request leads a call, an identical one that comes before
-- the call is older than its time to live follows it, whatever other requests register within that
-- time and whatever calls of other keys complete or are dropped. If the leader then completes within
-- a time to live of the start of the wait, whatever happens in between, the follower's wait gives
-- the response that the leader completes with.
pub one_flight :
    (c c' : Coalescer) (key : String) (start now at : ℕ) (l : Lead) (before later : List Event)
    (resp : SharedResponse)
    → register c key start ≡ (c', lead l)
    → Apart key start c.ttl before
    → start ≤ now
    → now < start + c.ttl
    → at ≤ now + c.ttl
    → let (d, joined) = register (run c' before) key now in
      (joined ≡ follow l.tx) × (wait (complete (run d later) l resp) l.tx now at ≡ some resp)
one_flight c c' key start now at l before later resp e w a b h =
    let entry : Entry = record { tx = l.tx; created = start } in
    let (f, t) = register-lead c c' key start l e in
    let g = run-found c' key entry before (rw t w) f in
    let s = run-ttl c' before ∙ t in
    let d = (register (run c' before) key now).0 in
    (
      ap (λ r. r.1) (register-shared (run c' before) key entry now (omega (arith, a, b, s)) g),
      wait-complete (run d later) l resp now at c.ttl
          (run-ttl d later ∙ register-ttl (run c' before) key now ∙ s) h,
    )
