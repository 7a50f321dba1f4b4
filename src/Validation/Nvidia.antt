-- ===== src/Validation/Nvidia.antt =====
-- daemon/mgr/container_validation.go: the drivers and devices of the configuration for nvidia.
use pouch.Prelude.{
  Bool, true, false, ◌&&◌, ◌||◌, Option, none, some, List, [], ◌∷◌, ◌++◌, Text, str, text_eq, split,
  trim_space, is_empty, if◌then◌else◌,
}
use pouch.Prelude.Int.{ℤ}
use pouch.Opts.Policy.{atoi}

-- `NvidiaConfig`
pub record NvidiaConfig : Type 0 where
  pub driver_capabilities : Text
  pub visible_devices : Text

abbrev is_driver : Text → Bool
is_driver d =
    text_eq d (str "compute")
    || text_eq d (str "compat32")
    || text_eq d (str "graphics")
    || text_eq d (str "utility")
    || text_eq d (str "video")
    || text_eq d (str "display")

unfoldable pub are_drivers : List Text → Bool
unfolding text_eq trim_space
are_drivers [] = true
are_drivers (d ∷ ds) = is_driver (trim_space d) && are_drivers ds

-- `validateNvidiaDriver`, on the trimmed text
unfoldable pub validate_nvidia_driver : Text → Bool
unfolding are_drivers split
validate_nvidia_driver capabilities =
    is_empty capabilities || text_eq capabilities (str "all") || are_drivers (split 44 capabilities)

abbrev numbered : Option ℤ → Bool → Bool
numbered none exists = true
numbered (some _) exists = exists

-- an index is a device of the host, and anything else is taken for a GPU UUID
unfoldable pub are_devices : (Text → Bool) → List Text → Bool
unfolding trim_space atoi
are_devices exists [] = true
are_devices exists (d ∷ ds) =
    numbered (atoi (trim_space d)) (exists (str "/dev/nvidia" ++ trim_space d))
    && are_devices exists ds

-- `validateNvidiaDevice`, on the trimmed text
unfoldable pub validate_nvidia_device : (Text → Bool) → Text → Bool
unfolding are_devices split text_eq
validate_nvidia_device exists devices =
    is_empty devices
    || text_eq devices (str "all")
    || text_eq devices (str "none")
    || text_eq devices (str "void")
    || are_devices exists (split 44 devices)

-- `validateNvidiaConfig`: whether there is no error, and the config, whose texts are trimmed as they are read
unfoldable pub validate_nvidia_config :
    (Text → Bool) → Option NvidiaConfig → Bool × Option NvidiaConfig
unfolding validate_nvidia_driver validate_nvidia_device trim_space
validate_nvidia_config exists none = (true, none)
validate_nvidia_config exists (some n) =
    if validate_nvidia_driver (trim_space n.driver_capabilities)
    then (
      validate_nvidia_device exists (trim_space n.visible_devices),
      some (record {
        driver_capabilities = trim_space n.driver_capabilities;
        visible_devices = trim_space n.visible_devices;
      }),
    )
    else (false, some (record n { driver_capabilities = trim_space n.driver_capabilities }))
