-- ===== src/Network/Buffers.antt =====
-- The receive and send buffers and their hand-over to the host: `negotiateProtocol`,
-- `initSendReceiveBuffers`, `freeSendReceiveBuffers` and the first part of `connectNetwork` of
-- MacHyperVSupport/Network/HyperVNetworkPrivate.cpp.
pub mod Released
use mac_hyper_vsupport.Transfer.{IoReturn, success, no_resources, io_error, unsupported}
use mac_hyper_vsupport.Network.Sections.{SendSections, init_sections, send_buffer_size}
use mac_hyper_vsupport.Network.Output.Flight.{remove_one}
use mac_hyper_vsupport.Common.{
  ℕ, ◌*◌, List, ◌∷◌, Bool, true, false, ◌&&◌, ◌||◌, not, ◌==◌, ltb, if◌then◌else◌, Option, none,
  some,
}

-- `kHyperVNetworkProtocolVersion1`, `2` and `4`.
abbrev pub protocol_version1 : ℕ
protocol_version1 = 0x00002

abbrev pub protocol_version2 : ℕ
protocol_version2 = 0x30002

abbrev pub protocol_version4 : ℕ
protocol_version4 = 0x40000

-- `kHyperVNetworkReceiveBufferSize` and `kHyperVNetworkReceiveBufferSizeLegacy`.
abbrev pub receive_buffer_size_new : ℕ
receive_buffer_size_new = 1024 * 1024 * 16

abbrev pub receive_buffer_size_legacy : ℕ
receive_buffer_size_legacy = 1024 * 1024 * 15

-- `kHyperVGpadlNullHandle`.
abbrev pub gpadl_null_handle : ℕ
gpadl_null_handle = 0

-- The fields of `HyperVNetwork` for its buffers: a buffer is `none` until it is allocated, and the
-- sections are `none` while `_sendIndexMap` is null. `open_gpadls` are the handles that
-- `createGPADLBuffer` has written and that the host was not told to tear down.
pub record Buffers : Type 0 where
  pub net_version : ℕ
  pub receive_buffer : Option ℕ
  pub receive_gpadl_handle : ℕ
  pub send_buffer : Option ℕ
  pub send_gpadl_handle : ℕ
  pub sections : Option SendSections
  pub open_gpadls : List ℕ

-- What the calls of `initSendReceiveBuffers` give: whether memory is there, the status of
-- `createGPADLBuffer` with the handle if it wrote one, the status of each message, the fields of
-- the host's answers, and whether the teardown message of a GPADL can be posted.
pub record Answers : Type 0 where
  pub receive_memory : Bool
  pub receive_gpadl : IoReturn × Option ℕ
  pub send_memory : Bool
  pub send_gpadl : IoReturn × Option ℕ
  pub receive_write : IoReturn
  pub receive_status : ℕ
  pub receive_sections : ℕ
  pub receive_offset : ℕ
  pub send_write : IoReturn
  pub send_status : ℕ
  pub section_size : ℕ
  pub map_memory : Bool
  pub teardown_posts : ℕ → Bool

-- `kHyperVNetworkMessageStatusSuccess`.
abbrev pub message_status_success : ℕ
message_status_success = 1

abbrev pub is_success : IoReturn → Bool
is_success success = true
is_success _ = false

-- `negotiateProtocol`, from the status of the message and the status in the host's answer.
unfoldable pub negotiate_protocol : IoReturn → ℕ → IoReturn
negotiate_protocol write status =
    if not (is_success write)
    then write
    else if status == message_status_success
    then success
    else unsupported

-- `freeGPADLBuffer`, if there is a handle: the host still holds the buffer if the teardown message
-- cannot be posted, which `freeVMBusChannelGPADL` only logs.
abbrev pub close_gpadl : (ℕ → Bool) → ℕ → List ℕ → List ℕ
close_gpadl posts handle live =
    if handle == gpadl_null_handle || not (posts handle) then live else remove_one handle live

unfoldable pub free_send_receive_buffers : (ℕ → Bool) → Buffers → Buffers
free_send_receive_buffers posts b = record b {
  receive_buffer = none;
  receive_gpadl_handle = gpadl_null_handle;
  send_buffer = none;
  send_gpadl_handle = gpadl_null_handle;
  sections = none;
  open_gpadls =
      close_gpadl posts b.send_gpadl_handle
        (close_gpadl posts b.receive_gpadl_handle b.open_gpadls);
}

-- `*gpadlHandle` as `createGPADLBuffer` leaves it.
abbrev pub written : Option ℕ → ℕ → ℕ
written none old = old
written (some handle) old = handle

abbrev pub opened : Option ℕ → List ℕ → List ℕ
opened none live = live
opened (some handle) live = handle ∷ live

-- A failed step of `initSendReceiveBuffers` frees everything, a good one goes on. `none` is the
-- division by a section size of zero.
unfoldable pub require :
    (ℕ → Bool)
    → Bool
    → IoReturn
    → Buffers
    → Option (IoReturn × Buffers)
    → Option (IoReturn × Buffers)
require posts ok status b rest =
    if ok then rest else some (status, free_send_receive_buffers posts b)

abbrev pub with_sections : Answers → Buffers → Option (IoReturn × Buffers)
with_sections a b =
    if a.section_size == 0
    then none
    else require a.teardown_posts a.map_memory no_resources b
        (some (success, record b { sections = some (init_sections a.section_size) }))

-- The two messages that configure the host.
abbrev pub configure_buffers : Answers → Buffers → Option (IoReturn × Buffers)
configure_buffers a b = require a.teardown_posts (is_success a.receive_write) a.receive_write b (
    require a.teardown_posts (a.receive_status == message_status_success) io_error b (
      require a.teardown_posts (a.receive_sections == 1 && a.receive_offset == 0) unsupported b (
        require a.teardown_posts (is_success a.send_write) a.send_write b (
          require a.teardown_posts (a.send_status == message_status_success) io_error b
            (with_sections a b)))))

-- `createGPADLBuffer` for the send buffer and for the receive buffer.
abbrev pub with_send_gpadl : Option ℕ → Buffers → Buffers
with_send_gpadl handle b = record b {
  send_buffer = some send_buffer_size;
  send_gpadl_handle = written handle b.send_gpadl_handle;
  open_gpadls = opened handle b.open_gpadls;
}

abbrev pub with_receive_gpadl : Option ℕ → ℕ → Buffers → Buffers
with_receive_gpadl handle size b = record b {
  receive_buffer = some size;
  receive_gpadl_handle = written handle b.receive_gpadl_handle;
  open_gpadls = opened handle b.open_gpadls;
}

-- The send buffer and its GPADL, behind those of the receive buffer.
abbrev pub make_send_buffer : Answers → Buffers → Option (IoReturn × Buffers)
make_send_buffer a b =
    let b₁ = with_send_gpadl a.send_gpadl.1 b in
    require a.teardown_posts a.send_memory no_resources b
      (require a.teardown_posts (is_success a.send_gpadl.0) io_error b₁ (configure_buffers a b₁))

-- `_receiveBufferSize`, smaller for the older versions.
abbrev pub receive_size : ℕ → ℕ
receive_size net_version =
    if ltb protocol_version2 net_version
    then receive_buffer_size_new
    else receive_buffer_size_legacy

unfoldable pub init_send_receive_buffers : Answers → Buffers → Option (IoReturn × Buffers)
init_send_receive_buffers a b =
    let b₁ = with_receive_gpadl a.receive_gpadl.1 (receive_size b.net_version) b in
    require a.teardown_posts a.receive_memory no_resources b
      (require a.teardown_posts (is_success a.receive_gpadl.0) io_error b₁ (make_send_buffer a b₁))

-- `ndisVersion` of `connectNetwork`.
unfoldable pub ndis_version : ℕ → ℕ
ndis_version net_version = if ltb protocol_version4 net_version then 0x0006001E else 0x00060001

-- `connectNetwork` as far as the buffers: the result of the negotiation is not looked at.
unfoldable pub connect_buffers : IoReturn → Answers → Buffers → Option (Bool × Buffers)
unfolding init_send_receive_buffers
connect_buffers ndis_write a b =
    let b₁ : Buffers = record b { net_version = protocol_version1 } in
    if not (is_success ndis_write)
    then some (false, b₁)
    else elim (init_send_receive_buffers a b₁) [ none ↦ none | some r ↦ some (is_success r.0, r.1) ]
