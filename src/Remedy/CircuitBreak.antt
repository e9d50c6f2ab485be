-- ===== src/Remedy/CircuitBreak.antt =====
-- operator/internal/remedy/circuitbreak.go: writes publish_enabled=false into the ConfigMap.
pub mod Engages
pub mod Races
use reliability_lab.Common.{
  ◌≡◌, refl, String, [], Option, none, some, Bool, true, false, str_eq, if◌then◌else◌,
}
use reliability_lab.Common.Dict.{Dict, lookup, insert, index, value_or}
use reliability_lab.Remedy.Cluster.{Key, Client, ConfigMap, Result, ok, err}
use reliability_lab.Remedy.{
  Input, RemedyError, create_flags, get_flags, patch_flags, target_key, wrap,
}

abbrev pub flag_key : String
flag_key = "publish_enabled"

abbrev pub flag_value_paused : String
flag_value_paused = "false"

-- The entries of a map that may be nil.
abbrev pub entries_of : Option (Dict String) → Dict String
entries_of none = []
entries_of (some m) = m

-- cm.Data[flagKey]; a nil map reads as an empty one.
unfoldable pub flag_of : ConfigMap → String
flag_of cm = index "" (entries_of cm.entries) flag_key

-- The ConfigMap that Apply creates.
abbrev pub new_flags : Key → ConfigMap
new_flags key = record { key = key; entries = some (insert flag_key flag_value_paused []) }

-- The ConfigMap that Apply patches into place of `cm`.
abbrev pub engaged : ConfigMap → ConfigMap
engaged cm = record cm {
  entries = some (insert flag_key flag_value_paused (entries_of cm.entries));
}

module _ {W E : Type 0} where
  -- The switch on the error of Get, and what follows it.
  unfoldable pub after_get : Client W E → Key → Result E ConfigMap → W → Option (RemedyError E) × W
  after_get c key (err e) w =
      if c.is_not_found e
      then wrap (create_flags key) (c.create_config_map (new_flags key) w)
      else (some (get_flags key e), w)
  after_get c key (ok cm) w =
      if str_eq (flag_of cm) flag_value_paused
      then (none, w)
      else wrap (patch_flags key) (c.patch_config_map cm (engaged cm) w)

  unfoldable pub circuit_break_apply : Input W E → W → Option (RemedyError E) × W
  unfolding after_get
  circuit_break_apply i w =
      after_get i.client (target_key i) (i.client.get_config_map (target_key i) w) w
