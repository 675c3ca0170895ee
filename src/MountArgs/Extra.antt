-- ===== src/MountArgs/Extra.antt =====
-- What ValidateMountArgs lets through.
use seaweedfs_csi_driver.Base.{
  String, true, false, none, List, [], ◌∷◌, All, ◌≡◌, ◌↔◌, refl, arith, ◌==◌,
}
use seaweedfs_csi_driver.Params.{one_of}
use seaweedfs_csi_driver.MountArgs.{
  has_dash, has_blank, argument_name, managed_names, validate_mount_arg, validate_mount_args,
}

-- One flag `-name` or `-name=value`, of a name that the driver does not manage.
abbrev pub IsFlag : String → Type 0
IsFlag arg =
    (has_dash arg ≡ true)
    × (argument_name arg == "" ≡ false)
    × (has_dash (argument_name arg) ≡ false)
    × (has_blank (argument_name arg) ≡ false)
    × (one_of (argument_name arg) managed_names ≡ false)

validate_mount_arg-IsFlag : (arg : String) → (validate_mount_arg arg ≡ none) ↔ IsFlag arg
unfolding validate_mount_arg
validate_mount_arg-IsFlag arg =
    (λ h. (ground arith, ground arith, ground arith, ground arith, ground arith), λ h. ground arith)

flags : (args : List String) → validate_mount_args args ≡ none → All IsFlag args
unfolding validate_mount_args
flags [] h = tt
flags (arg ∷ args) h = ((validate_mount_arg-IsFlag arg).0 (ground arith), flags args (ground arith))

valid : (args : List String) → All IsFlag args → validate_mount_args args ≡ none
unfolding validate_mount_args
valid [] h = refl
valid (arg ∷ args) h = ground (arith, (validate_mount_arg-IsFlag arg).1 h.0, valid args h.1)

-- The extra mount arguments of the driver pass exactly when each is one flag: a dash and a name that
-- is not empty, has no second dash in front and no blank, and is none of those the driver manages.
pub validate_mount_args_iff :
    (args : List String) → (validate_mount_args args ≡ none) ↔ All IsFlag args
validate_mount_args_iff args = (flags args, valid args)
