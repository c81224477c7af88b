-- ===== src/Graphics/Cursor.antt =====
-- The cursor: `setCursorShapeGated` and `setCursorPositionGated` of
-- MacHyperVSupport/Graphics/HyperVGraphicsPrivate.cpp.
pub mod Flipped
use mac_hyper_vsupport.Transfer.{IoReturn, unsupported, no_resources}
use mac_hyper_vsupport.Common.{
  ℕ, zero, suc, ◌*◌, List, [], ◌∷◌, ◌++◌, take, drop, Bool, false, ◌||◌, ltb, if◌then◌else◌, Option,
  none, some, mul32,
}

-- `HyperVGraphicsPlatformFunctionSetCursorShapeParams`.
pub record CursorShape : Type 0 where
  pub cursor_width : ℕ
  pub cursor_height : ℕ
  pub hot_x : ℕ
  pub hot_y : ℕ
  pub cursor_data : List ℕ

-- `kHyperVGraphicsCursorMaxWidth` and height, `kHyperVGraphicsCursorARGBPixelSize` and
-- `kHyperVGraphicsCursorMaxSize`.
abbrev pub cursor_max_width : ℕ
cursor_max_width = 32

abbrev pub cursor_max_height : ℕ
cursor_max_height = 32

abbrev pub cursor_argb_pixel_size : ℕ
cursor_argb_pixel_size = 4

abbrev pub cursor_max_size : ℕ
cursor_max_size = cursor_max_width * cursor_max_height * cursor_argb_pixel_size

-- The message that is kept for sending again, with its data as bytes, and the last position, each
-- coordinate as its 32 bits.
pub record Cursor : Type 0 where
  pub cursor_message : Option CursorShape
  pub last_x : ℕ
  pub last_y : ℕ
  pub last_is_visible : Bool

-- The loop that copies rows, with `n` rows left: the next row of the message is row `n - 1` of the
-- data.
unfoldable pub flip_rows : ℕ → ℕ → List ℕ → List ℕ
flip_rows zero stride source = []
flip_rows (suc n) stride source =
    take stride (drop (n * stride) source) ++ flip_rows n stride source

-- Whether the shape is refused.
unfoldable pub is_bad_cursor : CursorShape → Bool
is_bad_cursor c =
    ltb cursor_max_width c.cursor_width
    || ltb cursor_max_height c.cursor_height
    || ltb c.cursor_width c.hot_x
    || ltb c.cursor_height c.hot_y
    || ltb cursor_max_size (mul32 (mul32 c.cursor_width c.cursor_height) cursor_argb_pixel_size)

-- A transparent square for no cursor.
abbrev pub no_cursor : CursorShape
no_cursor = record {
  cursor_width = 1;
  cursor_height = 1;
  hot_x = 0;
  hot_y = 0;
  cursor_data = 0 ∷ 1 ∷ 1 ∷ 1 ∷ [];
}

-- The message for the shape.
unfoldable pub cursor_image : Option CursorShape → CursorShape
unfolding flip_rows
cursor_image none = no_cursor
cursor_image (some c) = record c {
  cursor_data =
      flip_rows c.cursor_height (mul32 c.cursor_width cursor_argb_pixel_size) c.cursor_data;
}

abbrev pub is_refused : Option CursorShape → Bool
is_refused none = false
is_refused (some c) = is_bad_cursor c

-- `setCursorShapeGated`, with the message that is allocated if there is none, as the memory
-- happens to be, and the status of the send. The message sent, if any, stands last.
unfoldable pub set_cursor_shape :
    Option CursorShape
    → Bool
    → Option CursorShape
    → IoReturn
    → Cursor
    → IoReturn × Cursor × Option CursorShape
unfolding is_bad_cursor cursor_image
set_cursor_shape shape refresh memory status c =
    let there : Option CursorShape = elim c.cursor_message [ none ↦ memory | some m ↦ some m ] in
    if is_refused shape then (unsupported, c, none) else elim there [
      | none ↦ (no_resources, c, none)
      | some kept ↦
          let message = if refresh then kept else cursor_image shape in
          (status, record c { cursor_message = some message }, some message)
    ]

-- `setCursorPositionGated`: the position and visibility sent, and those kept.
unfoldable pub set_cursor_position :
    ℕ → ℕ → Bool → Bool → IoReturn → Cursor → IoReturn × Cursor × (ℕ × ℕ × Bool)
set_cursor_position x y visible refresh status c =
    if refresh
    then (status, c, (c.last_x, c.last_y, c.last_is_visible))
    else (status, record c { last_x = x; last_y = y; last_is_visible = visible }, (x, y, visible))
