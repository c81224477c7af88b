-- ===== src/Graphics/Packets.antt =====
-- The packets of the host and the refresh timer: `handlePacket` and `handleRefreshTimer` of
-- MacHyperVSupport/Graphics/HyperVGraphicsPrivate.cpp.
use mac_hyper_vsupport.Common.{
  ℕ, List, [], ◌++◌, Bool, true, false, ◌||◌, not, ◌==◌, ltb, if◌then◌else◌, Option, none, add32,
  ◌≡◌, ◌∷◌, refl,
}
use mac_hyper_vsupport.Transfer.{IoReturn}
use mac_hyper_vsupport.Network.Buffers.{is_success}
use mac_hyper_vsupport.Graphics.Dirty.{
  Rectangle, full_rectangle, is_dirty, build_dirty_rectangles, clear_dirty_flags,
  mark_full_screen_dirty, refresh_framebuffer_image,
}
use mac_hyper_vsupport.Graphics.Display.{Display, set_screen_resolution}
use mac_hyper_vsupport.Graphics.Cursor.{Cursor, CursorShape, set_cursor_shape, set_cursor_position}

-- `kHyperVGraphicsPipeMessageTypeData`, `__offsetof (HyperVGraphicsMessage, gfxHeader.size)` and
-- `kHyperVGraphicsRequestTransactionBaseID`.
abbrev pub pipe_message_type_data : ℕ
pipe_message_type_data = 1

abbrev pub pipe_size_min : ℕ
pipe_size_min = 12

abbrev pub graphics_transaction_base_id : ℕ
graphics_transaction_base_id = 0x46495348

-- `HyperVGraphicsMessage` from the host, behind the pipe header: an answer by its type, the
-- features that have to be sent again, or another type.
pub data GraphicsMessage : Type 0 where
  response : (message_type : ℕ) → GraphicsMessage
  feature_change :
      (image_needed position_needed shape_needed resolution_needed : Bool) → GraphicsMessage
  other_message : GraphicsMessage

-- The state of the driver that the handlers change.
pub record Graphics : Type 0 where
  pub display : Display
  pub cursor : Cursor
  pub fb_ready : Bool

-- What is outside: the status of each send, whether the bitmap can be allocated, and the cursor
-- message that is allocated if there is none.
pub record GraphicsHost : Type 0 where
  pub resolution_status : IoReturn
  pub image_status : IoReturn
  pub shape_status : IoReturn
  pub position_status : IoReturn
  pub bitmap_memory : Bool
  pub cursor_memory : Option CursorShape

-- What a handler does to the outside: a transaction woken with the packet's data, and messages.
pub data GraphicsAction : Type 0 where
  wakes : (transaction_id : ℕ) → GraphicsAction
  sends_image : List Rectangle → GraphicsAction
  sends_shape : Option CursorShape → GraphicsAction
  sends_position : ℕ × ℕ × Bool → GraphicsAction

-- `markFullScreenDirty` and `refreshFramebufferImage`, which the timer and a feature change share.
unfoldable pub refresh_full_screen : GraphicsHost → Graphics → List GraphicsAction × Graphics
unfolding mark_full_screen_dirty refresh_framebuffer_image
refresh_full_screen host g =
    let d = g.display in
    let (status, rectangles, shown) =
      refresh_framebuffer_image host.image_status (mark_full_screen_dirty d.screen) in
    (sends_image rectangles ∷ [], record g { display = record d { screen = shown } })

-- `handleRefreshTimer`.
unfoldable pub handle_refresh_timer : GraphicsHost → Graphics → List GraphicsAction × Graphics
unfolding refresh_full_screen
handle_refresh_timer host g = if g.fb_ready then refresh_full_screen host g else ([], g)

abbrev pub resend_resolution : GraphicsHost → Graphics → List GraphicsAction × Graphics
resend_resolution host g =
    let d = g.display in
    let (status, sized) =
      set_screen_resolution d.screen.screen_width d.screen.screen_height host.resolution_status
        host.bitmap_memory d in
    ([], record g { display = sized })

abbrev pub resend_shape : GraphicsHost → Graphics → List GraphicsAction × Graphics
resend_shape host g =
    let (status, kept, sent) =
      set_cursor_shape none true host.cursor_memory host.shape_status g.cursor in
    (sends_shape sent ∷ [], record g { cursor = kept })

abbrev pub resend_position : GraphicsHost → Graphics → List GraphicsAction × Graphics
resend_position host g =
    let (status, kept, sent) = set_cursor_position 0 0 false true host.position_status g.cursor in
    (sends_position sent ∷ [], record g { cursor = kept })

-- One part of a feature change, behind the parts before it.
abbrev pub when_needed :
    Bool
    → (Graphics → List GraphicsAction × Graphics)
    → List GraphicsAction × Graphics
    → List GraphicsAction × Graphics
when_needed false part done = done
when_needed true part (actions, g) = let (more, g') = part g in (actions ++ more, g')

-- `handlePacket`, with the transactions that are pending. The resolution that is sent again is
-- left out of the actions: it is the size of the screen.
unfoldable pub handle_graphics_packet :
    GraphicsHost → (ℕ → Bool) → ℕ → ℕ → GraphicsMessage → Graphics → List GraphicsAction × Graphics
unfolding refresh_full_screen
handle_graphics_packet host pending pipe_type pipe_size message g =
    if not (pipe_type == pipe_message_type_data) || ltb pipe_size pipe_size_min
    then ([], g)
    else elim message [
      | response message_type ↦
          let id = add32 graphics_transaction_base_id message_type in
          if pending id then (wakes id ∷ [], g) else ([], g)
      | feature_change image position shape resolution ↦
          if g.fb_ready
          then when_needed position (resend_position host) (
              when_needed shape (resend_shape host) (
                when_needed image (refresh_full_screen host)
                  (when_needed resolution (resend_resolution host) ([], g))))
          else ([], g)
      | other_message ↦ ([], g)
    ]

-- On a ready frame buffer the timer sends the whole screen, and the flags are cleared if that
-- succeeds.
timer_sends_screen :
    (host : GraphicsHost) (g : Graphics)
    → g.fb_ready ≡ true
    → is_success host.image_status ≡ true
    → handle_refresh_timer host g ≡ (
      sends_image (full_rectangle g.display.screen ∷ []) ∷ [],
      record g {
        display = record g.display {
          screen = clear_dirty_flags (mark_full_screen_dirty g.display.screen);
        };
      },
    )
unfolding handle_refresh_timer refresh_full_screen refresh_framebuffer_image mark_full_screen_dirty
    build_dirty_rectangles is_dirty
timer_sends_screen host g ready sent = rw (ready, sent) refl
