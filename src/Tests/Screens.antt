-- ===== src/Tests/Screens.antt =====
-- The theorems on the graphics driver of MacHyperVSupport/Graphics at concrete inputs.
use mac_hyper_vsupport.Transfer.{success}
use mac_hyper_vsupport.Network.Buffers.{is_success}
use mac_hyper_vsupport.Graphics.Dirty.{
  Screen, mark_tiles, mark_rows, mark_region_dirty, is_dirty, scan_row, scan_rows,
  build_dirty_rectangles, clear_dirty_flags, refresh_framebuffer_image,
}
use mac_hyper_vsupport.Graphics.Display.{
  Display, graphics_version_3_5, get_screen_depth, max_resolution, set_screen_resolution,
}
use mac_hyper_vsupport.Graphics.Display.Fits.{IsShown, set_screen_resolution-IsShown}
use mac_hyper_vsupport.Graphics.Cursor.{flip_rows}
use mac_hyper_vsupport.Common.{◌≡◌, refl, [], ◌∷◌, replicate, true, false, some, inr}

-- Two tiles in each of two rows, of which the last in each direction is cut.
abbrev small_screen : Screen
small_screen = record {
  screen_width = 100;
  screen_height = 80;
  dirty_tiles_x = 2;
  dirty_tiles_y = 2;
  dirty_bitmap = some (replicate 8 false);
  full_screen_dirty = false;
}

-- The region crosses all four tiles.
marked_screen :
    build_dirty_rectangles 6 (mark_region_dirty 60 60 20 10 small_screen)
    ≡ record { x1 = 0; y1 = 0; x2 = 100; y2 = 64 }
      ∷ record { x1 = 0; y1 = 64; x2 = 100; y2 = 80 }
      ∷ []
unfolding build_dirty_rectangles scan_rows scan_row mark_region_dirty mark_rows mark_tiles
marked_screen = refl

-- A refresh sends the first row only, and forgets the other one.
refreshed_screen :
    refresh_framebuffer_image success (mark_region_dirty 60 60 20 10 small_screen)
    ≡ (success, record { x1 = 0; y1 = 0; x2 = 100; y2 = 64 } ∷ [], small_screen)
unfolding refresh_framebuffer_image is_dirty clear_dirty_flags build_dirty_rectangles scan_rows
    scan_row mark_region_dirty mark_rows mark_tiles
refreshed_screen = refl

-- A display of the newest version with 8 MB.
abbrev display : Display
display = record {
  gfx_version = graphics_version_3_5;
  gfx_length = 0x800000;
  screen = small_screen;
}

display_is_set : is_success (set_screen_resolution 1024 768 success true display).0 ≡ true
unfolding set_screen_resolution max_resolution get_screen_depth
display_is_set = refl

set_screen_resolution-IsShown_example :
    IsShown 1024 768 (set_screen_resolution 1024 768 success true display).1
set_screen_resolution-IsShown_example =
    set_screen_resolution-IsShown 1024 768 success true display (inr (inr refl)) display_is_set

-- Two rows of two bytes.
flipped_rows : flip_rows 2 2 (1 ∷ 2 ∷ 3 ∷ 4 ∷ []) ≡ 3 ∷ 4 ∷ 1 ∷ 2 ∷ []
unfolding flip_rows
flipped_rows = refl
