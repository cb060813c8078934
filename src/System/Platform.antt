-- ===== src/System/Platform.antt =====
-- Platform handles: PlatformTypeOkForHost, CloseNativePlatform, WhpWrapPlatformHandle and
-- WhpUnwrapPlatformHandle. The host is a parameter where the code asks the preprocessor.
use voodoo.Prelude.{
  ℕ, ◌-◌, ◌%◌, ◌^◌, ◌∷◌, Bool, true, not, ◌&&◌, ◌||◌, Option, none, some, ltb, ◌==◌, if◌then◌else◌,
}
use voodoo.System.Types.{
  Core, Slot, platform, PlatformObj, WhpResult, ok, invalid_argument, type_file_descriptor,
  type_windows_handle, type_mach_port,
}
use voodoo.System.Table.{lookup, alloc, free_handle}

pub data Host : Type 0 where
  windows apple posix : Host

unfoldable pub platform_type_ok : Host → ℕ → Bool
platform_type_ok windows type = type == type_mach_port || type == type_windows_handle
platform_type_ok apple type = type == type_mach_port || type == type_file_descriptor
platform_type_ok posix type = type == type_mach_port || type == type_file_descriptor

-- Whether the host has something to close: a HANDLE that is neither null nor
-- INVALID_HANDLE_VALUE, a descriptor that is not negative as an `int`, or a Mach port.
unfoldable pub closes : Host → ℕ → ℕ → Bool
closes windows type value = type == type_windows_handle && not (value == 0 || value == 2 ^ 64 - 1)
closes apple type value =
    (type == type_file_descriptor && ltb (value % 2 ^ 32) (2 ^ 31)) || type == type_mach_port
closes posix type value = type == type_file_descriptor && ltb (value % 2 ^ 32) (2 ^ 31)

-- CloseNativePlatform
unfoldable pub close_native : Host → PlatformObj → Core → Core
unfolding closes
close_native host p c =
    if closes host p.type p.value then record c { closed_native = p ∷ c.closed_native } else c

-- Whether WhpWrapPlatformHandle takes the primitive.
unfoldable pub wraps : Host → ℕ → ℕ → Bool
unfolding platform_type_ok
wraps host type value =
    platform_type_ok host type
    && (not (type == type_mach_port && value == 0)
        && elim host [ windows ↦ not (value == 0 || value == 2 ^ 64 - 1) | _ ↦ true ])

-- WhpWrapPlatformHandle
unfoldable pub wrap_platform_handle : Host → ℕ → ℕ → Bool → Core → WhpResult × Option ℕ × Core
unfolding wraps
wrap_platform_handle host type value present c =
    let (h, c') = alloc c (platform (record { type = type; value = value; owns = true })) in
    if present && wraps host type value then (ok, some h, c') else (invalid_argument, none, c)

abbrev pub platform_of : Slot → Option PlatformObj
platform_of (platform p) = some p
platform_of _ = none

-- WhpUnwrapPlatformHandle: the primitive goes to the caller, and nothing is closed.
unfoldable pub unwrap_platform_handle : ℕ → Bool → Core → WhpResult × Option (ℕ × ℕ) × Core
unwrap_platform_handle h present c = elim (platform_of (lookup c h)) [
  | none ↦ (invalid_argument, none, c)
  | some p ↦
      if present then (ok, some (p.type, p.value), free_handle c h) else (invalid_argument, none, c)
]
