-- ===== src/Vmbus/Gpadl.antt =====
-- Handing pages to the host: `initVMBusChannelGPADL` of
-- MacHyperVSupport/VMBus/HyperVVMBusChannel.cpp.
pub mod Pages
use mac_hyper_vsupport.Common.{
  ℕ, zero, suc, ◌+◌, ◌-◌, ◌*◌, ◌/◌, ◌%◌, ◌^◌, List, [], ◌∷◌, Bool, true, false, ◌||◌, not, ltb, leb,
  ◌==◌, if◌then◌else◌, Option, none, some, add32, to_u16, to_u32,
}
use mac_hyper_vsupport.Transfer.{
  IoReturn, success, bad_argument, not_aligned, no_resources, io_error,
}
use mac_hyper_vsupport.Vmbus.{
  page_size, max_channels, message_data_size, max_gpadl_pages, status_success,
}

-- `HyperVDMABuffer`, as far as the driver computes with it.
pub record DmaBuffer : Type 0 where
  pub phys_addr : ℕ
  pub size : ℕ

-- The GPADL messages. The last field tells whether the response is waited for.
pub data GpadlMessage : Type 0 where
  header :
      (channel_id gpadl range_count range_buffer_length byte_count : ℕ) (pfns : List ℕ)
      (awaits : Bool)
      → GpadlMessage
  body : (gpadl : ℕ) (pfns : List ℕ) (awaits : Bool) → GpadlMessage

-- What becomes of a message: no memory for it, posted in vain, posted.
pub data Delivery : Type 0 where
  no_memory : Delivery
  not_posted : Delivery
  posted : Delivery

-- `sizeof (VMBusChannelMessageGPADLHeader)`, `sizeof (HyperVGPARange)`,
-- `sizeof (VMBusChannelMessageGPADLBody)`.
abbrev pub gpadl_header_size : ℕ
gpadl_header_size = 20

abbrev pub gpa_range_size : ℕ
gpa_range_size = 8

abbrev pub gpadl_body_size : ℕ
gpadl_body_size = 16

-- `pageHeaderCount` and `kHyperVMaxGpadlBodyPfns`.
abbrev pub page_header_count : ℕ
page_header_count = (message_data_size - gpadl_header_size - gpa_range_size) / 8

abbrev pub max_gpadl_body_pfns : ℕ
max_gpadl_body_pfns = (message_data_size - gpadl_body_size) / 8

-- Consecutive page numbers, as `physPageIndex++` counts them.
unfoldable pub pages : ℕ → ℕ → List ℕ
pages p zero = []
pages p (suc n) = p ∷ pages ((p + 1) % 2 ^ 64) n

-- A message and what follows it, if it is posted.
abbrev pub then_post :
    Delivery
    → GpadlMessage
    → Option (IoReturn × List GpadlMessage)
    → Option (IoReturn × List GpadlMessage)
then_post no_memory message rest = some (no_resources, [])
then_post not_posted message rest = some (io_error, message ∷ [])
then_post posted message none = none
then_post posted message (some (status, messages)) = some (status, message ∷ messages)

-- `pagesBodyCount`.
abbrev pub body_count : ℕ → ℕ
body_count remaining = if ltb max_gpadl_body_pfns remaining then max_gpadl_body_pfns else remaining

-- The loop over the body messages, on fuel: the pages left, the next page and the number of the
-- next message. `none` is the fuel's end.
unfoldable pub body_loop :
    ℕ → (ℕ → Delivery) → ℕ → ℕ → ℕ → ℕ → Option (IoReturn × List GpadlMessage)
body_loop zero delivery gpadl remaining page i = none
body_loop (suc fuel) delivery gpadl remaining page i =
    let count = body_count remaining in
    let left = remaining - count in
    let sent =
      then_post (delivery i) (body gpadl (pages page count) (left == 0))
        (body_loop fuel delivery gpadl left ((page + count) % 2 ^ 64) (i + 1)) in
    if remaining == 0 then some (success, []) else sent

-- The header message, and the bodies that follow it.
unfoldable pub gpadl_transfer :
    (ℕ → Delivery) → ℕ → ℕ → DmaBuffer → ℕ → Option (IoReturn × List GpadlMessage)
gpadl_transfer delivery channel_id gpadl buffer page_count =
    let multiple = ltb page_header_count page_count in
    let first = buffer.phys_addr / page_size in
    let message =
      header channel_id gpadl 1 (to_u16 (gpa_range_size + page_count * 8)) (to_u32 buffer.size)
        (pages first page_header_count) (not multiple) in
    let bodies =
      body_loop (page_count + 1) delivery gpadl (page_count - page_header_count)
        ((first + page_header_count) % 2 ^ 64) 1 in
    then_post (delivery 0) message (if multiple then bodies else some (success, []))

-- What `initVMBusChannelGPADL` leaves: the status, the handle that it wrote, the next handle, and
-- the messages that it posted or tried to.
pub record GpadlResult : Type 0 where
  pub status : IoReturn
  pub gpadl_handle : Option ℕ
  pub next_gpadl_handle : ℕ
  pub messages : List GpadlMessage

abbrev pub gpadl_refused : IoReturn → ℕ → GpadlResult
gpadl_refused e next = record {
  status = e;
  gpadl_handle = none;
  next_gpadl_handle = next;
  messages = [];
}

-- The status of the creation response decides, once every message is posted.
abbrev pub gpadl_verdict : ℕ → IoReturn → IoReturn
gpadl_verdict created success = if created == status_success then success else io_error
gpadl_verdict created e = e

-- `initVMBusChannelGPADL`, with the status that the host's response carries; `none` is the end of
-- the fuel of the loop.
unfoldable pub init_gpadl : (ℕ → Delivery) → ℕ → ℕ → ℕ → Option DmaBuffer → Option GpadlResult
init_gpadl delivery created next channel_id none = some (gpadl_refused bad_argument next)
init_gpadl delivery created next channel_id (some buffer) =
    let page_count = to_u32 (buffer.size / page_size) in
    let transfer = gpadl_transfer delivery channel_id next buffer page_count in
    if channel_id == 0 || leb max_channels channel_id
    then some (gpadl_refused bad_argument next)
    else (if not (buffer.size % page_size == 0)
        then some (gpadl_refused not_aligned next)
        else (if ltb max_gpadl_pages page_count
            then some (gpadl_refused bad_argument next)
            else elim transfer [
              | none ↦ none
              | some (status, messages) ↦ some (record {
                status = gpadl_verdict created status;
                gpadl_handle = some next;
                next_gpadl_handle = add32 next 1;
                messages = messages;
              })
            ]))
