-- ===== src/Coalescer/Tests.antt =====
-- Runs of the coalescer of proxy/src/coalescer.rs, and its theorem at a concrete input.
use flock.Base.{
  ◌≡◌, refl, ap, ite, Bool, true, false, List, String, some, [], ◌∷◌, String-discrete, arith, find,
  insert,
}
use flock.Coalescer.{SharedResponse, follow, lead, Coalescer, new, join, register, complete, wait}
use flock.Coalescer.Flight.{Event, joins, drops, run, Apart, one_flight}

abbrev led : Coalescer
led = record { entries = ("a", record { tx = 0; created = 10 }) ∷ []; ttl = 5; next = 1; sent = [] }

leads : register (new 5) "a" 10 ≡ (led, lead (record { key = "a"; tx = 0 }))
unfolding register join find insert String-discrete
leads = refl

abbrev response : SharedResponse
response = record { status = 200; content_type = "application/json"; body = 123 ∷ 125 ∷ [] }

abbrev between : List Event
between = joins "b" 11 ∷ joins "a" 12 ∷ drops (record { key = "c"; tx = 9 }) ∷ []

is_a : String → Bool
is_a k = ite (String-discrete k "a") true false

c_ne_a : Apart "a" 10 5 (drops (record { key = "c"; tx = 9 }) ∷ [])
unfolding String-discrete is_a
c_ne_a = (λ e. ground (arith, ap is_a e), tt)

one_flight_example :
    ((register (run led between) "a" 14).1 ≡ follow 0)
    × (wait
          (complete
            (run (register (run led between) "a" 14).0 (joins "a" 15 ∷ []))
            (record { key = "a"; tx = 0 })
            response)
          0
          14
          18
        ≡ some response)
one_flight_example =
    one_flight (new 5) led "a" 10 14 18 (record { key = "a"; tx = 0 }) between (joins "a" 15 ∷ [])
      response leads (omega arith, omega arith, (omega arith, omega arith, c_ne_a)) (omega arith)
      (omega arith) (omega arith)
