-- ===== src/Network/Buffers/Released.antt =====
-- Every failure of `initSendReceiveBuffers` (MacHyperVSupport/Network/HyperVNetworkPrivate.cpp)
-- releases what was made, and success leaves everything in place.
use mac_hyper_vsupport.Transfer.{IoReturn}
use mac_hyper_vsupport.Network.Sections.{init_sections, send_buffer_size}
use mac_hyper_vsupport.Network.Buffers.{
  Buffers, Answers, gpadl_null_handle, is_success, close_gpadl, receive_size,
}
use mac_hyper_vsupport.Common.{ℕ, ◌≡◌, ◌≢◌, [], ◌∷◌, Bool, true, false, Option, none, some, ◌⊎◌}

-- Nothing is allocated and the host holds no buffer.
unfoldable pub IsReleased : Buffers → Type 0
IsReleased b =
    (b.receive_buffer ≡ none)
    × (b.receive_gpadl_handle ≡ gpadl_null_handle)
    × (b.send_buffer ≡ none)
    × (b.send_gpadl_handle ≡ gpadl_null_handle)
    × (b.sections ≡ none)
    × (b.open_gpadls ≡ [])

-- Both buffers are there, the host holds both, and the sections are those of the host's size.
unfoldable pub IsConfigured : Answers → Buffers → Type 0
IsConfigured a b =
    (b.receive_buffer ≡ some (receive_size b.net_version))
    × (b.send_buffer ≡ some send_buffer_size)
    × (b.open_gpadls ≡ b.send_gpadl_handle ∷ b.receive_gpadl_handle ∷ [])
    × (b.sections ≡ some (init_sections a.section_size))

-- The handles that the state records are those that are open.
abbrev IsTracked : (ℕ → Bool) → Buffers → Type 0
IsTracked posts b =
    close_gpadl posts b.send_gpadl_handle (close_gpadl posts b.receive_gpadl_handle b.open_gpadls)
    ≡ []

-- A result is no crash; its status tells which of the two states there is.
abbrev pub Settled : Answers → Option (IoReturn × Buffers) → Type 0
Settled a none = ⊥
Settled a (some (status, b)) =
    ((is_success status ≡ true) × IsConfigured a b) ⊎ ((is_success status ≡ false) × IsReleased b)

-- What `createGPADLBuffer` promises: the handles are never null, and with success there is one.
unfoldable pub IsGpadlAnswer : IoReturn × Option ℕ → Type 0
IsGpadlAnswer (status, none) = is_success status ≡ false
IsGpadlAnswer (status, some handle) = handle ≢ gpadl_null_handle

-- With the receive buffer's GPADL there is one open handle.
abbrev HasReceive : Buffers → Type 0
HasReceive b =
    (b.receive_gpadl_handle ≢ gpadl_null_handle)
    × (b.send_gpadl_handle ≡ gpadl_null_handle)
    × (b.open_gpadls ≡ b.receive_gpadl_handle ∷ [])

module _ (a : Answers) (sized : a.section_size ≢ 0)
    (torn : (h : ℕ) → a.teardown_posts h ≡ true) where
  -- Before the sections everything of `IsConfigured` is there.
  abbrev IsShared : Buffers → Type 0
  IsShared b =
      (b.receive_buffer ≡ some (receive_size b.net_version))
      × (b.send_buffer ≡ some send_buffer_size)
      × (b.open_gpadls ≡ b.send_gpadl_handle ∷ b.receive_gpadl_handle ∷ [])
