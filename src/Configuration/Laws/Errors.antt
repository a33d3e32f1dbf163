-- ===== src/Configuration/Laws/Errors.antt =====
-- Which exceptions the loading of a configuration raises.
use bitheim.Prelude.{◌≡◌, ◌⊎◌}
use bitheim.Errors.{Exc, configuration_error, overflow_error, runtime_error}
use bitheim.Value.{Value}

-- `ConfigurationError`, or what `float` raises for an int that is too large, or `expanduser` for a path without a home
abbrev pub IsLoadError : Exc → Type 0
IsLoadError e = (e ≡ configuration_error) ⊎ (e ≡ overflow_error) ⊎ (e ≡ runtime_error)
