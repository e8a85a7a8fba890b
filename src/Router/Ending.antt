-- ===== src/Router/Ending.antt =====
-- The failover loop of proxy/src/router.rs ends, and what it may relay.
use flock.Base.{
  ℕ, String, ◌+◌, ◌≤◌, ◌<◌, ◌≡◌, refl, Bool, true, false, not, ◌&&◌, Option, none, some, List, [],
  ◌∷◌, leb, if◌then◌else◌, length, arith,
}
use flock.Coalescer.{SharedResponse, Lead, Coalesce, follow, lead}
use flock.Router.{ProviderRuntime, runtime}
use flock.Health.{Host, PersistOp}
use flock.Router.Order.{Weights}
use flock.Router.{RouterInner, RouteCandidate}
use flock.Router.Acquire.{
  AcquireCtx, RouteError, unavailable, rate_limited, deadline, client_gone, Answer, pending,
  acquired, refused,
}
use flock.Router.Finish.{Acquired}
use flock.Router.Execute.{
  lead_with, joined, enrol, Joining, execute_buffered, execute_selected, selection,
}
use flock.Router.Strikes.{retryable_status, is_success}
use flock.Router.Failover.{
  deliver, coalesced, Reply, Turn, Outcome, relayed, failed_with, panicked, stalled, Loop, Next,
  done, again, Request, candidates, candidate_at, max_attempts, fail_over, empty_reply, struck,
  succeed, judge, answered, turn, continue, failover,
}

-- what a finished call may be: the response of the call that it follows; a reply whose status is
-- not to be retried and, for a successful chat completion, that has substance; an error; a panic;
-- or a wait for a permit that goes on
pub data Ends (is_chat : Bool) : Outcome → Type 0 where
  relays :
      (reply : Reply)
      → retryable_status reply.status ≡ false
      → ((is_success reply.status && is_chat) ≡ true → reply.has_substance ≡ true)
      → Ends is_chat (relayed reply)
  fails : (e : RouteError) → Ends is_chat (failed_with e)
  shares : (resp : SharedResponse) → Ends is_chat (coalesced resp)
  panics : Ends is_chat panicked
  waits : Ends is_chat stalled

if-P :
    {A : Type 0} (P : A → Type 0) (b : Bool) (x y : A)
    → (b ≡ true → P x)
    → (b ≡ false → P y)
    → P (if b then x else y)
if-P P true x y f g = f refl
if-P P false x y f g = g refl

module _ {host : Host} (q : Request) (n : ℕ) where
  -- the call ends, or the loop goes on with `n` attempts made
  abbrev Steps : Next host → Type 0
  Steps (done r ops out) = Ends q.is_chat out
  Steps (again r ops l) = l.attempts ≡ n

  struck-Steps :
      (b : Bool) (r : RouterInner host) (ops : List (PersistOp host)) (l : Loop)
      → l.attempts ≡ n
      → Steps (struck b r ops l)
  struck-Steps true r ops l made = fails unavailable
  struck-Steps false r ops l made = made

  module _ (c : RouteCandidate) (l : Loop) (made : l.attempts ≡ n) where
    fail_over-Steps :
        (acq : Acquired) (o : Option (RouterInner host × List (PersistOp host)))
        (r : RouterInner host)
        → Steps (fail_over acq l o r)
    unfolding fail_over
    fail_over-Steps acq none r = panics
    fail_over-Steps acq (some (r', ops)) r = made

    empty_reply-Steps :
        (acq : Acquired) (now : ℕ) (o : Option (RouterInner host × List (PersistOp host)))
        (r : RouterInner host)
        → Steps (empty_reply q c acq l now o r)
    unfolding empty_reply
    empty_reply-Steps acq now none r = panics
    empty_reply-Steps acq now (some (r', ops)) r =
        struck-Steps (leb (length (candidates q)) (l.empty_count + 1)) _ ops _ made

    deliver-Steps :
        (r : RouterInner host) (held : Option (String × Lead)) (otherwise : String) (reply : Reply)
        (ops : List (PersistOp host))
        → Ends q.is_chat (relayed reply)
        → Steps (deliver r held otherwise reply ops)
    deliver-Steps r none otherwise reply ops h = h
    deliver-Steps r (some (provider, l)) otherwise reply ops h =
        if-P Steps reply.arrives _ _ (λ _. h) (λ _. fails unavailable)

    succeed-Steps :
        (acq : Acquired) (l' : Loop) (otherwise : String) (reply : Reply)
        (out : RouterInner host × List (PersistOp host))
        → Ends q.is_chat (relayed reply)
        → Steps (succeed acq l' otherwise reply out)
    unfolding succeed
    succeed-Steps acq l' otherwise reply (r', ops) h = deliver-Steps _ l'.held otherwise reply ops h

    judge-Steps :
        (r : RouterInner host) (acq : Acquired) (t : Turn) (o : Option Reply)
        → Steps (judge r q c acq l t o)
    unfolding judge succeed
    judge-Steps r acq t none = fail_over-Steps acq _ r
    judge-Steps r acq t (some reply) =
        if-P Steps (retryable_status reply.status) _ _ (λ _. fail_over-Steps acq _ r)
          (λ final.
            if-P Steps (is_success reply.status && q.is_chat) _ _
              (λ _.
                if-P Steps (not reply.arrives) _ _ (λ _. fails unavailable)
                  (λ _.
                    if-P Steps (not reply.has_substance) _ _ (λ _. empty_reply-Steps acq _ _ r)
                      (λ full.
                        succeed-Steps acq l _ reply _
                          (relays reply final (λ _. ground (arith, full))))))
              (λ other.
                succeed-Steps acq l _ reply _
                  (relays reply final (λ e. absurd (ground (arith, e, other))))))

    answered-Steps : (t : Turn) (a : RouterInner host × Answer) → Steps (answered q c l t a)
    unfolding answered
    answered-Steps t (r, pending) = waits
    answered-Steps t (r, acquired acq) = judge-Steps r acq t t.reply
    answered-Steps t (r, refused unavailable) = made
    answered-Steps t (r, refused rate_limited) = made
    answered-Steps t (r, refused deadline) = fails deadline
    answered-Steps t (r, refused client_gone) = fails client_gone

module _ {host : Host} (q : Request) (limit : ℕ) where
  -- a turn that goes on was under the limit
  abbrev Counts : Loop → Next host → Type 0
  Counts l (done r ops out) = Ends q.is_chat out
  Counts l (again r ops l') = (l.attempts < limit) × (l'.attempts ≡ l.attempts + 1)

  Steps-Counts :
      (l : Loop) (x : Next host) → l.attempts < limit → Steps q (l.attempts + 1) x → Counts l x
  Steps-Counts l (done r ops out) lt h = h
  Steps-Counts l (again r ops l') lt h = (lt, h)

  turn-Counts : (r : RouterInner host) (l : Loop) (t : Turn) → Counts l (turn r q limit l t)
  unfolding turn
  turn-Counts r l t =
      if-P (Counts l) (leb q.ctx.deadline t.started_at) _ _ (λ _. fails deadline)
        (λ _.
          if-P (Counts l) (leb limit l.attempts) _ _ (λ _. fails l.last_error)
            (λ under. Steps-Counts l _ (ground (arith, under)) (
              answered-Steps q (l.attempts + 1) (candidate_at q l)
                (record l { attempts = l.attempts + 1 }) refl t _)))

  continue-Ends :
      (l : Loop) (x : Next host)
      (rest : RouterInner host → Loop → RouterInner host × (List (PersistOp host) × Outcome))
      → Counts l x
      → ((r' : RouterInner host) (l' : Loop)
          → l.attempts < limit
          → l'.attempts ≡ l.attempts + 1
          → Ends q.is_chat (rest r' l').1.1)
      → Ends q.is_chat (continue x rest).1.1
  continue-Ends l (done r ops out) rest h ih = h
  continue-Ends l (again r ops l') rest (lt, e) ih = ih r l' lt e

  failover-Ends :
      (turns : List Turn) (r : RouterInner host) (l : Loop)
      → limit < l.attempts + length turns
      → l.attempts ≤ limit
      → Ends q.is_chat (failover turns q limit r l).1.1
  unfolding failover
  failover-Ends [] r l h le = absurd (omega arith)
  failover-Ends (t ∷ ts) r l h le =
      continue-Ends l (turn r q limit l t) (λ r' l'. failover ts q limit r' l') (turn-Counts r l t)
        (λ r' l' lt e. failover-Ends ts r' l' (omega arith) (omega arith))

module _ {host : Host} (q : Request) (limit : ℕ) (turns : List Turn)
    (enough : limit < length turns) where
  lead_with-Ends :
      (r : RouterInner host) (held : Option (String × Lead))
      → Ends q.is_chat (lead_with r q limit turns held).1.1
  unfolding lead_with
  lead_with-Ends r held = failover-Ends q limit turns r _ (omega arith) (omega arith)

  joined-Ends :
      (r : RouterInner host) (answer : Coalesce) (awaited : Option SharedResponse)
      → Ends q.is_chat (joined r q limit turns answer awaited).1.1
  unfolding joined
  joined-Ends r (follow tx) (some resp) = shares resp
  joined-Ends r (follow tx) none = lead_with-Ends r none
  joined-Ends r (lead l) awaited = lead_with-Ends r (some (q.first.provider, l))

  enrol-Ends :
      (b : Bool) (r : RouterInner host) (j : Joining) (o : Option ProviderRuntime)
      → Ends q.is_chat (enrol b r q limit turns j o).1.1
  unfolding enrol
  enrol-Ends false r j o = lead_with-Ends r none
  enrol-Ends true r j none = lead_with-Ends r none
  enrol-Ends true r j (some rt) = joined-Ends _ _ j.awaited

execute_selected-Ends :
    {host : Host} (r : RouterInner host) (cs : List RouteCandidate) (ctx : AcquireCtx)
    (model : String) (is_chat : Bool) (j : Joining) (turns : List Turn)
    → max_attempts cs r.routing.max_retries < length turns
    → Ends is_chat (execute_selected r cs ctx model is_chat j turns).1.1
unfolding execute_selected
execute_selected-Ends r [] ctx model is_chat j turns h = fails unavailable
execute_selected-Ends r (c ∷ cs) ctx model is_chat j turns h =
    enrol-Ends _ (max_attempts (c ∷ cs) r.routing.max_retries) turns h r.routing.enable_coalescing r
      j (runtime r c.provider)

-- With one turn more than the limit of attempts on the candidates selected, which is `max_retries`
-- (at least 1) for several, a buffered request has ended, unless a turn waits for a permit without
-- end. It gets the response of the call that it follows, or relays a reply of its own only with a
-- status that is not to be retried and, for a successful chat completion, only one with substance.
pub execute_buffered-Ends :
    {host : Host} (weights : Weights host) (env : String → Option String) (r : RouterInner host)
    (ctx : AcquireCtx) (model : String) (is_chat : Bool) (now_unix : ℕ) (j : Joining)
    (turns : List Turn)
    → max_attempts
        (selection weights env r ctx model now_unix).1
        (selection weights env r ctx model now_unix).0.routing.max_retries
      < length turns
    → Ends is_chat (execute_buffered weights env r ctx model is_chat now_unix j turns).1.1
unfolding execute_buffered
execute_buffered-Ends weights env r ctx model is_chat now_unix j turns h =
    execute_selected-Ends _ _ ctx model is_chat j turns h
