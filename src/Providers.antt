-- ===== src/Providers.antt =====
-- proxy/src/providers.rs: the keys of a provider, and the lanes that they make. The environment is
-- a parameter.
pub mod Lanes
mod Tests
use flock.Base.{
  ℕ, Bool, true, false, not, ◌&&◌, ◌||◌, Option, none, some, List, [], ◌∷◌, String, String-discrete,
  ite, ltb, if◌then◌else◌, is_empty_text, trim, find,
}
use flock.Pool.{LaneSpec}

pub record ProviderKey : Type 0 where
  pub key : String
  pub key_env : String
  pub owner : String
  pub enabled : Bool
  pub rpm : ℕ

pub data AuthScheme : Type 0 where
  api_key : AuthScheme
  no_auth_header : AuthScheme

-- what the lanes and the models of a provider depend on
pub record ProviderDef : Type 0 where
  pub name : String
  pub auth : AuthScheme
  pub keys : List ProviderKey
  pub no_auth : Bool
  pub free_tier : Bool
  pub models : List String
  pub model_map : List (String × String)
  pub default_rpm : ℕ
  pub enabled : Bool

abbrev pub nonempty_text : String → Option String
nonempty_text v = if is_empty_text v then none else some v

unfoldable pub env_material : Option String → Option String
unfolding trim
env_material none = none
env_material (some v) = nonempty_text (trim v)

unfoldable pub rpm_for : ProviderDef → ProviderKey → ℕ
rpm_for d k =
    if ltb 0 k.rpm
    then k.rpm
    else (if ltb 0 d.default_rpm then d.default_rpm else (if d.free_tier then 10 else 60))

unfoldable pub contains : String → List String → Bool
contains a [] = false
contains a (x ∷ xs) = ite (String-discrete x a) true (contains a xs)

unfoldable pub serves_model : ProviderDef → String → Bool
unfolding contains
serves_model d model = contains "*" d.models || contains model d.models

abbrev is_no_auth_header : AuthScheme → Bool
is_no_auth_header api_key = false
is_no_auth_header no_auth_header = true

abbrev is_some : Option String → Bool
is_some none = false
is_some (some v) = true

unfoldable pub map_model : ProviderDef → String → String
unfolding find
map_model d model = elim (find String-discrete model d.model_map) [ none ↦ model | some m ↦ m ]

unfoldable pub model_rewritten : ProviderDef → String → Bool
unfolding find
model_rewritten d model = elim (find String-discrete model d.model_map) [
  | none ↦ false
  | some m ↦ true
]

module _ (env : String → Option String) where
  unfoldable pub resolve_key_material : ProviderKey → Option String
  unfolding env_material
  resolve_key_material k =
      if is_empty_text k.key
      then (if is_empty_text k.key_env then none else env_material (env k.key_env))
      else some k.key

  unfoldable pub any_live : List ProviderKey → Bool
  unfolding resolve_key_material
  any_live [] = false
  any_live (k ∷ ks) = (k.enabled && is_some (resolve_key_material k)) || any_live ks

  unfoldable pub usable : ProviderDef → Bool
  unfolding any_live
  usable d = d.enabled && (d.no_auth || is_no_auth_header d.auth || any_live d.keys)

  abbrev pub live_key :
      ProviderDef → ProviderKey → Option String → List (String × ℕ) → List (String × ℕ)
  unfolding rpm_for
  live_key d k none rest = rest
  live_key d k (some m) rest = if k.enabled then (m, rpm_for d k) ∷ rest else rest

  unfoldable pub live_keys_from : ProviderDef → List ProviderKey → List (String × ℕ)
  unfolding resolve_key_material
  live_keys_from d [] = []
  live_keys_from d (k ∷ ks) = live_key d k (resolve_key_material k) (live_keys_from d ks)

  unfoldable pub live_keys : ProviderDef → List (String × ℕ)
  unfolding live_keys_from
  live_keys d = live_keys_from d d.keys

  -- a key's lane, if its material is there and new
  unfoldable pub spec_of : ProviderDef → List String → ProviderKey → Option String → Option LaneSpec
  unfolding contains rpm_for
  spec_of d seen k none = none
  spec_of d seen k (some material) =
      if is_empty_text material || contains material seen
      then none
      else some (record { key = material; rpm = rpm_for d k; enabled = k.enabled })

  abbrev pub seen_after : Option LaneSpec → List String → List String
  seen_after none seen = seen
  seen_after (some s) seen = s.key ∷ seen

  abbrev pub prepend : Option LaneSpec → List LaneSpec → List LaneSpec
  prepend none specs = specs
  prepend (some s) specs = s ∷ specs

  unfoldable pub specs_from : ProviderDef → List String → List ProviderKey → List LaneSpec
  unfolding spec_of resolve_key_material
  specs_from d seen [] = []
  specs_from d seen (k ∷ ks) =
      let o = spec_of d seen k (resolve_key_material k) in
      prepend o (specs_from d (seen_after o seen) ks)

  unfoldable pub lane_specs : ProviderDef → List LaneSpec
  unfolding specs_from
  lane_specs d = specs_from d [] d.keys
