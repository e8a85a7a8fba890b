-- ===== src/Governor/Permits.antt =====
-- The permits of proxy/src/governor.rs: a `ModelPermit` is held from the admission that returns it
-- until it is dropped, and is dropped once.
use flock.Base.{
  ℕ, ◌+◌, ◌^◌, ◌≤◌, ◌<◌, ◌≡◌, refl, ◌⊎◌, true, Option, List, [], ◌∷◌, String, arith, ite,
  if◌then◌else◌, length, find, count, remove_one, count-remove_one_self, count-remove_one_ne,
  count-le-length, length-remove_one-le, String-discrete, usize, dec_lt,
}
use flock.Governor.Model.{ModelState, admit_state, release_state, exhaust_state, unwrap_or}
use flock.Governor.{Governor, entry, admit_at, release, note_exhausted_at}
use flock.Governor.Frame.{Call, asks, drops, exhausts, step, step_model, entry-step}

-- the governor with the models of the permits that are held
pub record Admissions : Type 0 where
  pub gov : Governor
  pub held : List String

-- Only a permit that is held can be dropped.
unfoldable pub serve : Admissions → Call → Admissions
serve s (asks model ov now) =
    let (gov, admitted) = admit_at s.gov model ov now in
    record { gov = gov; held = if admitted then model ∷ s.held else s.held }
serve s (drops model) =
    ite (dec_lt 0 (count String-discrete model s.held))
      (record { gov = release s.gov model; held = remove_one String-discrete model s.held }) s
serve s (exhausts model ov now) = record s { gov = note_exhausted_at s.gov model ov now }

unfoldable pub serve_all : Admissions → List Call → Admissions
serve_all s [] = s
serve_all s (c ∷ cs) = serve_all (serve s c) cs

abbrev pub fresh : Admissions
fresh = record { gov = []; held = [] }

-- `inflight` is the number of permits held
abbrev pub Accounted : Admissions → Type 0
Accounted s = (m : String) → (entry s.gov m).inflight ≡ count String-discrete m s.held

admit-inflight :
    (s : ModelState) (ov : Option ℕ) (now : ℕ)
    → let (s', admitted) = admit_state s ov now in
      s'.inflight ≡ (if admitted then usize (s.inflight + 1) else s.inflight)
unfolding admit_state
admit-inflight s ov now = ground arith

exhaust-inflight :
    (s : ModelState) (ov : Option ℕ) (now : ℕ) → (exhaust_state s ov now).inflight ≡ s.inflight
unfolding exhaust_state
exhaust-inflight s ov now = ground arith

serve_asks :
    (s : Admissions) (k : String) (ov : Option ℕ) (now : ℕ)
    → length s.held + 1 < 2 ^ 64
    → Accounted s
    → Accounted (serve s (asks k ov now))
unfolding serve step step_model admit_at count
serve_asks s k ov now b a m = ground (
  arith,
  a m,
  entry-step s.gov (asks k ov now) m,
  admit-inflight (entry s.gov m) ov now,
  count-le-length String-discrete m s.held,
)

serve_drops : (s : Admissions) (k : String) → Accounted s → Accounted (serve s (drops k))
unfolding serve step step_model release_state
serve_drops s k a m = ground (
  arith,
  a m,
  entry-step s.gov (drops k) m,
  count-remove_one_self String-discrete k s.held,
  count-remove_one_ne String-discrete k m s.held,
)

serve_exhausts :
    (s : Admissions) (k : String) (ov : Option ℕ) (now : ℕ)
    → Accounted s
    → Accounted (serve s (exhausts k ov now))
unfolding serve step step_model
serve_exhausts s k ov now a m =
    ground
      (arith, a m, entry-step s.gov (exhausts k ov now) m, exhaust-inflight (entry s.gov m) ov now)

serve-Accounted :
    (s : Admissions) (c : Call) → length s.held + 1 < 2 ^ 64 → Accounted s → Accounted (serve s c)
serve-Accounted s (asks k ov now) b a = serve_asks s k ov now b a
serve-Accounted s (drops k) b a = serve_drops s k a
serve-Accounted s (exhausts k ov now) b a = serve_exhausts s k ov now a

length-serve : (s : Admissions) (c : Call) → length (serve s c).held ≤ length s.held + 1
unfolding serve
length-serve s (asks k ov now) = ground arith
length-serve s (drops k) = ground (arith, length-remove_one-le String-discrete k s.held)
length-serve s (exhausts k ov now) = omega arith

serve_all-Accounted :
    (s : Admissions) (cs : List Call)
    → length s.held + length cs < 2 ^ 64
    → Accounted s
    → Accounted (serve_all s cs)
unfolding serve_all
serve_all-Accounted s [] b a = a
serve_all-Accounted s (c ∷ cs) b a =
    serve_all-Accounted (serve s c) cs (omega (arith, length-serve s c))
      (serve-Accounted s c (omega arith) a)

-- After any fewer than 2 ^ 64 admissions, drops of held permits and exhaustions, a model's
-- `inflight` is the number of its permits that are held.
pub inflight-eq-held :
    (cs : List Call) (m : String)
    → length cs < 2 ^ 64
    → let s = serve_all fresh cs in (entry s.gov m).inflight ≡ count String-discrete m s.held
unfolding entry count find
inflight-eq-held cs m b = serve_all-Accounted fresh cs (omega arith) (λ k. refl) m

-- the cap that an admission is held to: the operator's, or the adapted one; 0 is no cap
abbrev pub cap : ModelState → Option ℕ → ℕ
cap s ov = unwrap_or ov s.limit

admit_under_cap :
    (s : ModelState) (ov : Option ℕ) (now : ℕ)
    → s.inflight + 1 < 2 ^ 64
    → let (s', admitted) = admit_state s ov now in
      admitted ≡ true → (cap s' ov ≡ 0) ⊎ (s'.inflight ≤ cap s' ov)
unfolding admit_state
admit_under_cap s ov now b = ground arith

length-serve_all :
    (s : Admissions) (cs : List Call) → length (serve_all s cs).held ≤ length s.held + length cs
unfolding serve_all
length-serve_all s [] = omega arith
length-serve_all s (c ∷ cs) = omega (arith, length-serve s c, length-serve_all (serve s c) cs)

serve_under_cap :
    (s : Admissions) (m : String) (ov : Option ℕ) (now : ℕ)
    → length s.held + 1 < 2 ^ 64
    → Accounted s
    → (admit_at s.gov m ov now).1 ≡ true
    → (cap (entry (serve s (asks m ov now)).gov m) ov ≡ 0)
      ⊎ (count String-discrete m (serve s (asks m ov now)).held
          ≤ cap (entry (serve s (asks m ov now)).gov m) ov)
unfolding serve step step_model admit_at
serve_under_cap s m ov now b a h = ground (
  arith,
  h,
  serve_asks s m ov now b a m,
  entry-step s.gov (asks m ov now) m,
  a m,
  count-le-length String-discrete m s.held,
  admit_under_cap (entry s.gov m) ov now,
)

-- Whenever a request is admitted, after any fewer than 2 ^ 64 - 1 calls, the permits then held for
-- its model, its own included, are at most the cap in force, if one is.
pub held-le-cap :
    (cs : List Call) (m : String) (ov : Option ℕ) (now : ℕ)
    → length cs + 1 < 2 ^ 64
    → (admit_at (serve_all fresh cs).gov m ov now).1 ≡ true
    → (cap (entry (serve (serve_all fresh cs) (asks m ov now)).gov m) ov ≡ 0)
      ⊎ (count String-discrete m (serve (serve_all fresh cs) (asks m ov now)).held
          ≤ cap (entry (serve (serve_all fresh cs) (asks m ov now)).gov m) ov)
unfolding entry count find
held-le-cap cs m ov now b h =
    serve_under_cap (serve_all fresh cs) m ov now (omega (arith, length-serve_all fresh cs))
      (serve_all-Accounted fresh cs (omega arith) (λ k. refl)) h
