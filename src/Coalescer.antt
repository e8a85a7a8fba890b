-- ===== src/Coalescer.antt =====
-- proxy/src/coalescer.rs: identical requests in flight share one call of the upstream. A watch
-- channel is a number, and what was sent on the channels is in the state; the clock is an argument.
pub mod Flight
mod Tests
use flock.Base.{
  ℕ, ◌+◌, ◌-◌, ◌*◌, Bool, true, false, Option, none, some, List, [], ◌∷◌, String, String-discrete,
  ℕ_discrete, ltb, if◌then◌else◌, find, insert, remove, keep,
}

pub record SharedResponse : Type 0 where
  pub status : ℕ
  pub content_type : String
  pub body : List ℕ

pub record Entry : Type 0 where
  pub tx : ℕ
  pub created : ℕ

pub record Lead : Type 0 where
  pub key : String
  pub tx : ℕ

pub data Coalesce : Type 0 where
  follow : ℕ → Coalesce
  lead : Lead → Coalesce

-- `next` is the number of the next channel
pub record Coalescer : Type 0 where
  pub entries : List (String × Entry)
  pub ttl : ℕ
  pub next : ℕ
  pub sent : List (ℕ × SharedResponse)

abbrev pub new : ℕ → Coalescer
new ttl = record { entries = []; ttl = ttl; next = 0; sent = [] }

-- the entries that are not yet twice as old as they may be
abbrev pub reap : Coalescer → ℕ → List (String × Entry)
reap c now = keep (λ e. ltb (now - e.1.created) (c.ttl * 2)) c.entries

-- a call of the upstream of one's own
abbrev pub lead_call : Coalescer → List (String × Entry) → String → ℕ → Coalescer × Coalesce
unfolding insert
lead_call c entries key now = (
  record c {
    entries = insert String-discrete key (record { tx = c.next; created = now }) entries;
    next = c.next + 1;
  },
  lead (record { key = key; tx = c.next }),
)

unfoldable pub join :
    Coalescer → List (String × Entry) → String → ℕ → Option Entry → Coalescer × Coalesce
unfolding insert
join c entries key now none = lead_call c entries key now
join c entries key now (some e) =
    if ltb (now - e.created) c.ttl
    then (record c { entries = entries }, follow e.tx)
    else lead_call c entries key now

unfoldable pub register : Coalescer → String → ℕ → Coalescer × Coalesce
unfolding join find
register c key now =
    let entries = reap c now in join c entries key now (find String-discrete key entries)

-- the drop of a lead
unfoldable pub drop_lead : Coalescer → Lead → Coalescer
unfolding remove
drop_lead c l = record c { entries = remove String-discrete l.key c.entries }

-- `Lead::complete`, its drop included
unfoldable pub complete : Coalescer → Lead → SharedResponse → Coalescer
unfolding drop_lead insert
complete c l resp = drop_lead (record c { sent = insert ℕ_discrete l.tx resp c.sent }) l

-- what was sent on a channel, if anything
unfoldable pub received : Coalescer → ℕ → Option SharedResponse
unfolding find
received c tx = find ℕ_discrete tx c.sent

-- `wait` of a follower that starts at `start` and whose channel is set, or closed, at `at`: nothing
-- once the time to live has passed, or of a lead that is dropped without a response
unfoldable pub wait : Coalescer → ℕ → ℕ → ℕ → Option SharedResponse
unfolding received
wait c tx start at = if ltb (start + c.ttl) at then none else received c tx
