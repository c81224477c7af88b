-- ===== src/Graphics/Dirty.antt =====
-- Tracking the dirty parts of the screen in tiles of 64 by 64 pixels: `initDirtyTracking`,
-- `cleanupDirtyTracking`, `markFullScreenDirty`, `markRegionDirty`, `isDirty`,
-- `buildDirtyRectangles`, `clearDirtyFlags` and `refreshFramebufferImage` of
-- MacHyperVSupport/Graphics/HyperVGraphicsPrivate.cpp.
use mac_hyper_vsupport.Transfer.{IoReturn, success}
use mac_hyper_vsupport.Network.Buffers.{is_success}
use mac_hyper_vsupport.Network.Sections.{test_bit, set_bit}
use mac_hyper_vsupport.Common.{
  ℕ, zero, suc, ◌+◌, ◌-◌, ◌*◌, ◌/◌, List, [], ◌∷◌, ◌++◌, length, replicate, Bool, true, false, ◌||◌,
  not, ◌==◌, ltb, if◌then◌else◌, Option, none, some, add32, mul32, to_u32, min,
}

-- `kDirtyTileSize`.
abbrev pub dirty_tile_size : ℕ
dirty_tile_size = 64

-- The fields of `HyperVGraphics` for the screen. Bit `i % 8` of byte `i / 8` of the bitmap is
-- element `i` of the list.
pub record Screen : Type 0 where
  pub screen_width : ℕ
  pub screen_height : ℕ
  pub dirty_tiles_x : ℕ
  pub dirty_tiles_y : ℕ
  pub dirty_bitmap : Option (List Bool)
  pub full_screen_dirty : Bool

-- `(n + kDirtyTileSize - 1) / kDirtyTileSize` in 32 bits.
abbrev pub tiles_to : ℕ → ℕ
tiles_to n = to_u32 (n + 63) / dirty_tile_size

abbrev pub fill_bits : Bool → List Bool → List Bool
fill_bits b [] = []
fill_bits b (x ∷ xs) = b ∷ fill_bits b xs

abbrev pub fill_bitmap : Bool → Option (List Bool) → Option (List Bool)
fill_bitmap b none = none
fill_bitmap b (some bits) = some (fill_bits b bits)

unfoldable pub mark_full_screen_dirty : Screen → Screen
mark_full_screen_dirty s = record s {
  full_screen_dirty = true;
  dirty_bitmap = fill_bitmap true s.dirty_bitmap;
}

-- `initDirtyTracking`, with whether the bitmap could be allocated.
unfoldable pub init_dirty_tracking : Bool → Screen → Screen
unfolding mark_full_screen_dirty
init_dirty_tracking memory s =
    let tiles_x = tiles_to s.screen_width in
    let tiles_y = tiles_to s.screen_height in
    let s₁ : Screen = record s { dirty_tiles_x = tiles_x; dirty_tiles_y = tiles_y } in
    let bytes = add32 (mul32 tiles_x tiles_y) 7 / 8 in
    if s.screen_width == 0 || s.screen_height == 0
    then s
    else if memory
    then mark_full_screen_dirty (record s₁ { dirty_bitmap = some (replicate (8 * bytes) false) })
    else s₁

unfoldable pub cleanup_dirty_tracking : Screen → Screen
cleanup_dirty_tracking s = record s { dirty_bitmap = none; dirty_tiles_x = 0; dirty_tiles_y = 0 }

-- The inner loop of `markRegionDirty`: `n` tiles of row `ty` from `tx` on.
unfoldable pub mark_tiles : ℕ → ℕ → ℕ → ℕ → List Bool → List Bool
mark_tiles tiles_x ty zero tx bits = bits
mark_tiles tiles_x ty (suc n) tx bits =
    mark_tiles tiles_x ty n (suc tx) (set_bit (add32 (mul32 ty tiles_x) tx) bits)

-- The outer loop: `m` rows from `ty` on, each of `n` tiles from `tx` on.
unfoldable pub mark_rows : ℕ → ℕ → ℕ → ℕ → ℕ → List Bool → List Bool
mark_rows tiles_x n tx zero ty bits = bits
mark_rows tiles_x n tx (suc m) ty bits =
    mark_rows tiles_x n tx m (suc ty) (mark_tiles tiles_x ty n tx bits)

-- The end of a range of tiles, kept inside the screen.
abbrev pub end_tile : ℕ → ℕ → ℕ → ℕ
end_tile start size tiles =
    let last = tiles_to (start + size) in if ltb tiles last then tiles else last

-- `markRegionDirty`.
unfoldable pub mark_region_dirty : ℕ → ℕ → ℕ → ℕ → Screen → Screen
mark_region_dirty x y width height s = elim s.dirty_bitmap [
  | none ↦ record s { full_screen_dirty = true }
  | some bits ↦
      let start_x = x / dirty_tile_size in
      let start_y = y / dirty_tile_size in
      record s {
        dirty_bitmap = some (
            mark_rows s.dirty_tiles_x (end_tile x width s.dirty_tiles_x - start_x) start_x
              (end_tile y height s.dirty_tiles_y - start_y) start_y bits);
      }
]

abbrev pub any_bit : List Bool → Bool
any_bit [] = false
any_bit (b ∷ bs) = b || any_bit bs

-- `isDirty`: without a bitmap the screen counts as dirty.
unfoldable pub is_dirty : Screen → Bool
is_dirty s = s.full_screen_dirty || elim s.dirty_bitmap [ none ↦ true | some bits ↦ any_bit bits ]

unfoldable pub clear_dirty_flags : Screen → Screen
clear_dirty_flags s = record s {
  full_screen_dirty = false;
  dirty_bitmap = fill_bitmap false s.dirty_bitmap;
}

-- `HyperVGraphicsImageUpdateRectangle`.
pub record Rectangle : Type 0 where
  pub x1 : ℕ
  pub y1 : ℕ
  pub x2 : ℕ
  pub y2 : ℕ

abbrev pub full_rectangle : Screen → Rectangle
full_rectangle s = record { x1 = 0; y1 = 0; x2 = s.screen_width; y2 = s.screen_height }

-- The rectangle of the tiles from `start` up to `tx` in row `ty`, kept inside the screen.
abbrev pub tile_rectangle : Screen → ℕ → ℕ → ℕ → Rectangle
tile_rectangle s start tx ty = record {
  x1 = mul32 start dirty_tile_size;
  y1 = mul32 ty dirty_tile_size;
  x2 = min (mul32 tx dirty_tile_size) s.screen_width;
  y2 = min (mul32 (ty + 1) dirty_tile_size) s.screen_height;
}

-- The run of dirty tiles behind tile `tx`, by its first tile, and the rectangle that it ends.
abbrev pub next_run : Bool → ℕ → Option ℕ → Option ℕ
next_run true tx none = some tx
next_run true tx (some start) = some start
next_run false tx run = none

abbrev pub ended_run : Screen → Bool → ℕ → ℕ → Option ℕ → List Rectangle
ended_run s false tx ty (some start) = tile_rectangle s start tx ty ∷ []
ended_run s dirty tx ty run = []

-- The loop over row `ty` with `n` tiles left from `tx` on, the run, and the number of rectangles
-- that may still be built. The tile behind the last one ends a run.
unfoldable pub scan_row : Screen → List Bool → ℕ → ℕ → ℕ → Option ℕ → ℕ → List Rectangle
scan_row s bits ty n tx run zero = []
scan_row s bits ty zero tx run (suc room) = ended_run s false tx ty run
scan_row s bits ty (suc n) tx run (suc room) =
    let dirty = test_bit (add32 (mul32 ty s.dirty_tiles_x) tx) bits in
    let found = ended_run s dirty tx ty run in
    found ++ scan_row s bits ty n (suc tx) (next_run dirty tx run) (suc room - length found)

-- The loop over `m` rows from `ty` on.
unfoldable pub scan_rows : Screen → List Bool → ℕ → ℕ → ℕ → List Rectangle
unfolding scan_row
scan_rows s bits zero ty room = []
scan_rows s bits (suc m) ty room =
    let found = scan_row s bits ty s.dirty_tiles_x 0 none room in
    found ++ scan_rows s bits m (suc ty) (room - length found)

-- `buildDirtyRectangles`, for the number of rectangles that there is room for.
unfoldable pub build_dirty_rectangles : ℕ → Screen → List Rectangle
unfolding scan_rows
build_dirty_rectangles max_rects s =
    if s.full_screen_dirty then full_rectangle s ∷ [] else elim s.dirty_bitmap [
      | none ↦ full_rectangle s ∷ []
      | some bits ↦ elim (scan_rows s bits s.dirty_tiles_y 0 max_rects) [
        | [] ↦ full_rectangle s ∷ []
        | r ∷ rs ↦ r ∷ rs
      ]
    ]

-- `refreshFramebufferImage`, with the status of the message: what is sent, and the screen. There
-- is room for one rectangle.
unfoldable pub refresh_framebuffer_image : IoReturn → Screen → IoReturn × List Rectangle × Screen
unfolding is_dirty build_dirty_rectangles clear_dirty_flags
refresh_framebuffer_image status s =
    if not (is_dirty s)
    then (success, [], s)
    else if is_success status
    then (status, build_dirty_rectangles 1 s, clear_dirty_flags s)
    else (status, build_dirty_rectangles 1 s, s)
