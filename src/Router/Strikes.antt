-- ===== src/Router/Strikes.antt =====
-- The classes of a status and the strikes for empty completions, in proxy/src/router.rs.
use flock.Base.{
  ℕ, ◌+◌, ◌-◌, Bool, ◌&&◌, ◌||◌, Option, none, some, String, ltb, leb, ◌==◌, if◌then◌else◌, u32,
  from_secs, find, insert, remove,
}
use flock.Health.{Host}
use flock.Health.Store.{Pair-discrete}
use flock.Router.{RouterInner}

unfoldable pub retryable_status : ℕ → Bool
retryable_status status =
    status == 429 || status == 500 || status == 502 || status == 503 || status == 504

abbrev pub is_success : ℕ → Bool
is_success status = leb 200 status && ltb status 300

abbrev empty_strike_decay : ℕ
empty_strike_decay = from_secs 600

abbrev strikes_of : Option (ℕ × ℕ) → ℕ
strikes_of none = 0
strikes_of (some e) = e.0

module _ {host : Host} where
  unfoldable pub record_empty_strike : RouterInner host → String → String → ℕ → RouterInner host
  record_empty_strike r provider model now = record r {
    empty_strikes =
        insert Pair-discrete (provider, model)
          (u32 (strikes_of (find Pair-discrete (provider, model) r.empty_strikes) + 1), now)
          r.empty_strikes;
  }

  abbrev strike_count :
      RouterInner host → String → String → ℕ → Option (ℕ × ℕ) → RouterInner host × ℕ
  strike_count r provider model now none =
      (record r { empty_strikes = remove Pair-discrete (provider, model) r.empty_strikes }, 0)
  strike_count r provider model now (some (n, at)) =
      if ltb (now - at) empty_strike_decay
      then (r, n)
      else (record r { empty_strikes = remove Pair-discrete (provider, model) r.empty_strikes }, 0)

  unfoldable pub empty_strike_count : RouterInner host → String → String → ℕ → RouterInner host × ℕ
  empty_strike_count r provider model now =
      strike_count r provider model now (find Pair-discrete (provider, model) r.empty_strikes)
