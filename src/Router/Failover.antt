-- ===== src/Router/Failover.antt =====
-- The failover loop of `execute_buffered` in proxy/src/router.rs. Each turn of
-- the loop is given what it reads: clocks, the gates' answers, and the upstream's reply.
use flock.Base.{
  ℕ, ◌+◌, ◌-◌, ◌%◌, ◌^◌, Bool, true, false, not, ◌&&◌, Option, none, some, List, [], ◌∷◌, ◌++◌,
  String, leb, ◌==◌, if◌then◌else◌, length, get_or, max,
}
use flock.Coalescer.{SharedResponse, Lead, Coalesce, follow, lead, register}
use flock.Coalescer
use flock.Health.{or_else, Host, PersistOp}
use flock.Router.{ProviderRuntime, RouterInner, RouteCandidate, runtime}
use flock.Router.Strikes.{retryable_status, is_success, record_empty_strike}
use flock.Router.Finish.{Acquired, finish_success, finish_failure, with_runtime}
use flock.Router.Acquire.{
  RouteError, unavailable, rate_limited, deadline, client_gone, AcquireCtx, Poll, Grant, Answer,
  pending, acquired, refused, acquire, drop_permit,
}

-- what comes back of a request that was sent: the status, what the error body and the Retry-After
-- header say, whether the body arrives, and whether it has substance
pub record Reply : Type 0 where
  pub status : ℕ
  pub exhausted : Bool
  pub retry_after : Option ℕ
  pub arrives : Bool
  pub has_substance : Bool
  pub content_type : Option String
  pub body : List ℕ

pub record Turn : Type 0 where
  pub started_at : ℕ
  pub allowed_at : ℕ
  pub bucket : Bool
  pub waited_from : ℕ
  pub polls : List Poll
  pub grant : Grant
  pub sent_at : ℕ
  pub reply : Option Reply  -- `none`: no connection, or no reply in time
  pub done_at : ℕ
  pub done_unix : ℕ

-- how the call ends, if it does: a reply of its own, the response of a call that it follows, an error, a panic of the record of a
-- failure, or a turn that waits for a permit when its readings end; `unfinished` when the turns end
pub data Outcome : Type 0 where
  relayed : Reply → Outcome
  coalesced : SharedResponse → Outcome
  failed_with : RouteError → Outcome
  panicked stalled unfinished : Outcome

-- the counters of the loop
pub record Loop : Type 0 where
  pub attempts : ℕ
  pub empty_count : ℕ
  pub last_error : RouteError
  pub held : Option (String × Lead)  -- the lead of this call, and the provider it is with

pub data Next (host : Host) : Type 0 where
  done : RouterInner host → List (PersistOp host) → Outcome → Next host
  again : RouterInner host → List (PersistOp host) → Loop → Next host

-- the request, as far as the loop depends on it
pub record Request : Type 0 where
  pub ctx : AcquireCtx
  pub model : String
  pub is_chat : Bool  -- `is_chat_completions_path`
  pub first : RouteCandidate
  pub others : List RouteCandidate

abbrev pub candidates : Request → List RouteCandidate
candidates q = q.first ∷ q.others

-- `cycle` makes the candidate that of the attempt's number
abbrev pub candidate_at : Request → Loop → RouteCandidate
candidate_at q l = get_or (candidates q) (l.attempts % length (candidates q)) q.first

-- a lone candidate is retried until the deadline
unfoldable pub max_attempts : List RouteCandidate → ℕ → ℕ
max_attempts cs max_retries = if length cs == 1 then 2 ^ 64 - 1 else max max_retries 1

abbrev pub fails_with : Loop → RouteError → Loop
fails_with l e = record l { last_error = e }

abbrev pub first_loop : Loop
first_loop = record { attempts = 0; empty_count = 0; last_error = unavailable; held = none }

-- what a lead publishes
abbrev pub shared : String → Reply → SharedResponse
shared otherwise reply = record {
  status = reply.status;
  content_type = or_else reply.content_type otherwise;
  body = reply.body;
}

module _ {host : Host} where
  -- a change of the coalescer of a provider
  abbrev pub with_coalescer :
      RouterInner host
      → String
      → (Coalescer.Coalescer → Coalescer.Coalescer)
      → Option ProviderRuntime
      → RouterInner host
  with_coalescer r provider f none = r
  with_coalescer r provider f (some rt) =
      with_runtime r provider (record rt { coalescer = f rt.coalescer })

  abbrev pub release_lead : RouterInner host → Option (String × Lead) → RouterInner host
  release_lead r none = r
  release_lead r (some (provider, l)) =
      with_coalescer r provider (λ c. Coalescer.drop_lead c l) (runtime r provider)

  -- the return drops the lead
  abbrev pub ends : RouterInner host → Loop → List (PersistOp host) → Outcome → Next host
  ends r l ops out = done (release_lead r l.held) ops out

  -- a reply for the client, which a lead publishes if its body arrives
  abbrev pub deliver :
      RouterInner host → Option (String × Lead) → String → Reply → List (PersistOp host) → Next host
  deliver r none otherwise reply ops = done r ops (relayed reply)
  deliver r (some (provider, l)) otherwise reply ops =
      if reply.arrives
      then done
          (with_coalescer r provider (λ c. Coalescer.complete c l (shared otherwise reply))
            (runtime r provider))
          ops (relayed reply)
      else done (release_lead r (some (provider, l))) ops (failed_with unavailable)

  abbrev after_drop : RouterInner host → Acquired → Option ProviderRuntime → RouterInner host
  after_drop r acq none = r
  after_drop r acq (some rt) = with_runtime r acq.provider (drop_permit acq.permit rt acq.model)

  -- the drop of an `Acquired` with its permit
  unfoldable pub drop_acquired : RouterInner host → Acquired → RouterInner host
  unfolding drop_permit runtime
  drop_acquired r acq = after_drop r acq (runtime r acq.provider)

  -- a failed attempt, and the next one
  unfoldable pub fail_over :
      Acquired
      → Loop
      → Option (RouterInner host × List (PersistOp host))
      → RouterInner host
      → Next host
  unfolding drop_acquired
  fail_over acq l none r = ends r l [] panicked
  fail_over acq l (some (r', ops)) r = again (drop_acquired r' acq) ops (fails_with l unavailable)

  -- whether every candidate has had an empty completion
  abbrev pub struck : Bool → RouterInner host → List (PersistOp host) → Loop → Next host
  struck true r ops l = done r ops (failed_with unavailable)
  struck false r ops l = again r ops l

  -- an empty completion: a strike, and an error once every candidate has had one
  unfoldable pub empty_reply :
      Request
      → RouteCandidate
      → Acquired
      → Loop
      → ℕ
      → Option (RouterInner host × List (PersistOp host))
      → RouterInner host
      → Next host
  unfolding drop_acquired record_empty_strike
  empty_reply q c acq l now none r = ends r l [] panicked
  empty_reply q c acq l now (some (r', ops)) r =
      struck (leb (length (candidates q)) (l.empty_count + 1))
        (drop_acquired (record_empty_strike (release_lead r' l.held) c.provider q.model now) acq)
        ops (record l { empty_count = l.empty_count + 1; last_error = unavailable; held = none })

  unfoldable pub succeed :
      Acquired → Loop → String → Reply → RouterInner host × List (PersistOp host) → Next host
  unfolding drop_acquired
  succeed acq l otherwise reply (r', ops) =
      deliver (drop_acquired r' acq) l.held otherwise reply ops

  -- the reply of an upstream
  unfoldable pub judge :
      RouterInner host
      → Request
      → RouteCandidate
      → Acquired
      → Loop
      → Turn
      → Option Reply
      → Next host
  unfolding finish_failure finish_success retryable_status drop_acquired fail_over empty_reply
      succeed
  judge r q c acq l t none =
      fail_over acq l (finish_failure r acq 0 false none t.done_unix t.done_at) r
  judge r q c acq l t (some reply) =
      if retryable_status reply.status
      then fail_over acq l
          (finish_failure r acq reply.status reply.exhausted reply.retry_after t.done_unix
            t.done_at)
          r
      else (if is_success reply.status && q.is_chat
          then (if not reply.arrives
              then ends (drop_acquired r acq) l [] (failed_with unavailable)
              else (if not reply.has_substance
                  then empty_reply q c acq l t.done_at
                      (finish_failure r acq reply.status false none t.done_unix t.done_at) r
                  else succeed acq l "application/json" reply
                      (finish_success r acq t.done_unix t.done_at)))
          else succeed acq l "" reply (finish_success r acq t.done_unix t.done_at))

  unfoldable pub answered :
      Request → RouteCandidate → Loop → Turn → RouterInner host × Answer → Next host
  unfolding judge
  answered q c l t (r, pending) = done r [] stalled
  answered q c l t (r, acquired acq) = judge r q c acq l t t.reply
  answered q c l t (r, refused unavailable) = again r [] (fails_with l unavailable)
  answered q c l t (r, refused rate_limited) = again r [] (fails_with l rate_limited)
  answered q c l t (r, refused deadline) = ends r l [] (failed_with deadline)
  answered q c l t (r, refused client_gone) = ends r l [] (failed_with client_gone)

  -- one turn
  unfoldable pub turn : RouterInner host → Request → ℕ → Loop → Turn → Next host
  unfolding acquire answered
  turn r q limit l t =
      if leb q.ctx.deadline t.started_at
      then ends r l [] (failed_with deadline)
      else (if leb limit l.attempts
          then ends r l [] (failed_with l.last_error)
          else answered q (candidate_at q l) (record l { attempts = l.attempts + 1 }) t
              (acquire r (candidate_at q l) q.ctx t.allowed_at t.bucket t.waited_from t.polls
                t.grant t.sent_at))

  abbrev pub continue :
      Next host
      → (RouterInner host → Loop → RouterInner host × (List (PersistOp host) × Outcome))
      → RouterInner host × (List (PersistOp host) × Outcome)
  continue (done r ops out) rest = (r, (ops, out))
  continue (again r ops l) rest = let (r', (more, out)) = rest r l in (r', (ops ++ more, out))

  unfoldable pub failover :
      List Turn
      → Request
      → ℕ
      → RouterInner host
      → Loop
      → RouterInner host × (List (PersistOp host) × Outcome)
  unfolding turn
  failover [] q limit r l = (r, ([], unfinished))
  failover (t ∷ ts) q limit r l = continue (turn r q limit l t) (λ r' l'. failover ts q limit r' l')
