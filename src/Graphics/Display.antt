-- ===== src/Graphics/Display.antt =====
-- The resolution and the memory of the display: `negotiateVersion`, `setGraphicsMemory`,
-- `setScreenResolutionGated` of MacHyperVSupport/Graphics/HyperVGraphicsPrivate.cpp, and
-- `getScreenDepth` of MacHyperVSupport/Graphics/HyperVGraphics.hpp.
pub mod Fits
use mac_hyper_vsupport.Transfer.{IoReturn, success, bad_argument, io_error, unsupported, no_memory}
use mac_hyper_vsupport.Network.Buffers.{is_success}
use mac_hyper_vsupport.Graphics.Dirty.{Screen, init_dirty_tracking, cleanup_dirty_tracking}
use mac_hyper_vsupport.Common.{
  ℕ, ◌/◌, Bool, false, ◌||◌, not, ◌==◌, ltb, if◌then◌else◌, Option, none, some, mul32,
}

-- `kHyperVGraphicsVersionV3_0`, `V3_2`, `V3_5`, as `VMBusVersion` values.
abbrev pub graphics_version_3_0 : ℕ
graphics_version_3_0 = 0x00000003

abbrev pub graphics_version_3_2 : ℕ
graphics_version_3_2 = 0x00020003

abbrev pub graphics_version_3_5 : ℕ
graphics_version_3_5 = 0x00050003

-- The fields of `HyperVGraphics` for the display.
pub record Display : Type 0 where
  pub gfx_version : ℕ
  pub gfx_length : ℕ
  pub screen : Screen

-- `getScreenDepth`.
unfoldable pub get_screen_depth : Display → ℕ
get_screen_depth d = if d.gfx_version == graphics_version_3_0 then 16 else 32

-- `negotiateVersion`, from the status of the message and `accepted`.
unfoldable pub negotiate_graphics_version : IoReturn → ℕ → IoReturn
negotiate_graphics_version status accepted =
    if not (is_success status) then status else if not (accepted == 0) then success else unsupported

-- `setGraphicsMemory`, from the status and the context in the host's answer.
unfoldable pub set_graphics_memory : ℕ → IoReturn → ℕ → IoReturn
set_graphics_memory base status context =
    if not (is_success status) then status else if context == base then success else io_error

-- The largest width and height of a version, with `none` for a version without a limit.
unfoldable pub max_resolution : ℕ → Option (ℕ × ℕ)
max_resolution version =
    if version == graphics_version_3_0
    then some (1600, 1200)
    else if version == graphics_version_3_2
    then some (3840, 2160)
    else if version == graphics_version_3_5
    then some (7680, 4320)
    else none

abbrev pub exceeds : Option (ℕ × ℕ) → ℕ → ℕ → Bool
exceeds none width height = false
exceeds (some (max_width, max_height)) width height = ltb max_width width || ltb max_height height

-- `setScreenResolutionGated`, with the status of the message and whether the bitmap can be
-- allocated.
unfoldable pub set_screen_resolution : ℕ → ℕ → IoReturn → Bool → Display → IoReturn × Display
unfolding max_resolution get_screen_depth init_dirty_tracking cleanup_dirty_tracking
set_screen_resolution width height status memory d =
    let required = mul32 (mul32 width height) (get_screen_depth d / 8) in
    let sized : Screen = record d.screen { screen_width = width; screen_height = height } in
    if exceeds (max_resolution d.gfx_version) width height
    then (bad_argument, d)
    else if ltb width 640 || ltb height 480
    then (bad_argument, d)
    else if ltb d.gfx_length required
    then (no_memory, d)
    else if not (is_success status)
    then (status, d)
    else (success, record d { screen = init_dirty_tracking memory (cleanup_dirty_tracking sized) })
