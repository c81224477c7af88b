-- ===== src/Vmbus/Incoming.antt =====
-- Messages from the host and the threads that wait for one: `processIncomingVMBusMessage` and the
-- wait of `sendVMBusMessageGated` of MacHyperVSupport/VMBus/HyperVVMBus.cpp.
pub mod Waiting
use mac_hyper_vsupport.Transfer.{IoReturn}
use mac_hyper_vsupport.Network.Buffers.{is_success}
use mac_hyper_vsupport.Vmbus.{
  MessageType, invalid, channel_offer, rescind_channel_offer, request_channels,
  request_channels_done, channel_open, channel_open_response, channel_close, gpadl_header,
  gpadl_body, gpadl_created, gpadl_teardown, gpadl_teardown_response, channel_free, connect,
  connect_response, disconnect, unknown,
}
use mac_hyper_vsupport.Common.{
  ℕ, suc, List, [], ◌∷◌, ◌++◌, Bool, ◌&&◌, ◌||◌, not, ◌==◌, if◌then◌else◌, Option, some,
}

-- The values of `VMBusChannelMessageType`.
unfoldable pub type_code : MessageType → ℕ
type_code invalid = 0
type_code channel_offer = 1
type_code rescind_channel_offer = 2
type_code request_channels = 3
type_code request_channels_done = 4
type_code channel_open = 5
type_code channel_open_response = 6
type_code channel_close = 7
type_code gpadl_header = 8
type_code gpadl_body = 9
type_code gpadl_created = 10
type_code gpadl_teardown = 11
type_code gpadl_teardown_response = 12
type_code channel_free = 13
type_code connect = 14
type_code connect_response = 15
type_code disconnect = 16
type_code (unknown code) = code

-- `VMBusChannelMessage`: its type, and the bytes behind it.
pub record ChannelMessage : Type 0 where
  pub message_type : MessageType
  pub message_data : List ℕ

-- What `getPendingMessage` finds in the processor's slot: nothing, a channel message, an event, or
-- a message of another type.
pub data Pending : Type 0 where
  no_message : Pending
  channel_message : ChannelMessage → Pending
  event_message : Pending
  other_message : ℕ → Pending

-- The fields of `HyperVVMBus` for the wait: the type waited for and the message stored. `sleepers`
-- are the types that the sleeping threads wait for, `answered` what woken threads took with what
-- they waited for, `devices` the messages given to `addVMBusDevice` and `removeVMBusDevice`, and
-- `ends_of_message` counts the calls of `sendSynICEOM`.
pub record Inbox : Type 0 where
  pub wait_for_message_type : MessageType
  pub wait_message : Option ChannelMessage
  pub sleepers : List MessageType
  pub answered : List (MessageType × ChannelMessage)
  pub devices : List ChannelMessage
  pub ends_of_message : ℕ

-- The end of `sendVMBusMessageGated`, for the status of the posted message.
unfoldable pub wait_for_response : IoReturn → MessageType → Inbox → Inbox
unfolding type_code
wait_for_response posted response_type b =
    if not (is_success posted) || (type_code response_type == 0)
    then b
    else record b { wait_for_message_type = response_type; sleepers = response_type ∷ b.sleepers }

-- `commandWakeup` wakes all sleepers; each copies the stored message.
abbrev pub take_answer : ChannelMessage → List MessageType → List (MessageType × ChannelMessage)
take_answer m [] = []
take_answer m (t ∷ ts) = (t, m) ∷ take_answer m ts

-- Whether the message is the one waited for.
unfoldable pub is_awaited : MessageType → MessageType → Bool
unfolding type_code
is_awaited waiting type = not (type_code waiting == 0) && (type_code waiting == type_code type)

abbrev pub offer_or_rescind : MessageType → ChannelMessage → Inbox → Inbox
offer_or_rescind type m b = elim type [
  | channel_offer ↦ record b { devices = m ∷ b.devices }
  | rescind_channel_offer ↦ record b { devices = m ∷ b.devices }
  | _ ↦ b
]

-- `sendSynICEOM`.
abbrev pub send_syn_ic_eom : Inbox → Inbox
send_syn_ic_eom b = record b { ends_of_message = suc b.ends_of_message }

-- `processIncomingVMBusMessage`.
unfoldable pub process_incoming_message : Pending → Inbox → Inbox
unfolding is_awaited
process_incoming_message no_message b = b
process_incoming_message (channel_message m) b =
    if is_awaited b.wait_for_message_type m.message_type
    then send_syn_ic_eom (record b {
      wait_for_message_type = invalid;
      wait_message = some m;
      sleepers = [];
      answered = take_answer m b.sleepers ++ b.answered;
    })
    else send_syn_ic_eom (offer_or_rescind m.message_type m b)
process_incoming_message event_message b = b
process_incoming_message (other_message type) b = b
