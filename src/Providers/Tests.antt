-- ===== src/Providers/Tests.antt =====
-- Runs of the keys of proxy/src/providers.rs, and the theorems at concrete inputs.
use flock.Base.{
  ◌≡◌, refl, true, false, Option, none, some, [], ◌∷◌, String, String-discrete, ite, trim,
  trim_start, trim_end,
}
use flock.Providers.{
  ProviderKey, api_key, ProviderDef, env_material, rpm_for, contains, resolve_key_material, spec_of,
  specs_from, lane_specs, usable, any_live,
}
use flock.Providers.Lanes.{Laned, lane_specs-Laned}

abbrev env : String → Option String
env name = ite (String-discrete name "NIM_KEY") (some " secret ") none

abbrev literal : ProviderKey
literal = record { key = "secret"; key_env = ""; owner = "default"; enabled = true; rpm = 0 }

abbrev from_env : ProviderKey
from_env = record { key = ""; key_env = "NIM_KEY"; owner = "default"; enabled = true; rpm = 5 }

abbrev off : ProviderKey
off = record { key = "other"; key_env = ""; owner = "default"; enabled = false; rpm = 7 }

abbrev provider : ProviderDef
provider = record {
  name = "nvidia";
  auth = api_key;
  keys = literal ∷ from_env ∷ off ∷ [];
  no_auth = false;
  free_tier = false;
  models = "*" ∷ [];
  model_map = [];
  default_rpm = 0;
  enabled = true;
}

-- the same material twice makes one lane
two_lanes :
    lane_specs env provider
    ≡ record { key = "secret"; rpm = 60; enabled = true }
      ∷ record { key = "other"; rpm = 7; enabled = false }
      ∷ []
unfolding lane_specs specs_from spec_of resolve_key_material env_material rpm_for contains
    String-discrete trim trim_start trim_end
two_lanes = refl

is_usable : usable env provider ≡ true
unfolding usable any_live resolve_key_material
is_usable = refl

lane_specs-Laned_example : Laned (lane_specs env provider)
lane_specs-Laned_example = lane_specs-Laned env provider
