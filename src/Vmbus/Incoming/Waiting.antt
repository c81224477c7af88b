-- ===== src/Vmbus/Incoming/Waiting.antt =====
-- A thread that waits alone gets the answer of the type that it waits for
-- (`sendVMBusMessageGated`, `processIncomingVMBusMessage` of MacHyperVSupport/VMBus).
use mac_hyper_vsupport.Transfer.{IoReturn}
use mac_hyper_vsupport.Network.Buffers.{is_success}
use mac_hyper_vsupport.Vmbus.{MessageType, invalid, channel_offer, rescind_channel_offer}
use mac_hyper_vsupport.Vmbus.Incoming.{
  type_code, ChannelMessage, Pending, Inbox, wait_for_response, take_answer, is_awaited,
  process_incoming_message, no_message, channel_message, event_message, other_message,
  offer_or_rescind, send_syn_ic_eom,
}
use mac_hyper_vsupport.Common.{
  ℕ, ◌≡◌, ◌≢◌, refl, sym, ap, arith, List, [], ◌∷◌, ◌++◌, Bool, true, false, ◌||◌, not, ◌==◌, none,
  ◌⊎◌, inl, inr, Bool-cases, subst,
}

-- One thread sends while no other waits, or the host's slot is processed.
pub data InboxStep : Inbox → Inbox → Type 0 where
  send :
      (b : Inbox) (posted : IoReturn) (response_type : MessageType)
      → b.sleepers ≡ []
      → InboxStep b (wait_for_response posted response_type b)
  receive : (b : Inbox) (p : Pending) → InboxStep b (process_incoming_message p b)

pub data InboxReach (b : Inbox) : Inbox → Type 0 where
  start_here : InboxReach b b
  then_step : {c d : Inbox} → InboxReach b c → InboxStep c d → InboxReach b d

-- Each answer is of the type that its thread waited for.
unfoldable pub AreAnswers : List (MessageType × ChannelMessage) → Type 0
AreAnswers [] = Unit
AreAnswers ((t, m) ∷ rest) = (type_code m.message_type ≡ type_code t) × AreAnswers rest

-- Nobody waits, or one thread waits for what the driver waits for.
unfoldable pub WaitsForOne : Inbox → Type 0
WaitsForOne b =
    ((b.sleepers ≡ []) × (type_code b.wait_for_message_type ≡ 0))
    ⊎ ((b.sleepers ≡ b.wait_for_message_type ∷ []) × (type_code b.wait_for_message_type ≢ 0))

unfoldable pub IsOrderly : Inbox → Type 0
IsOrderly b = WaitsForOne b × AreAnswers b.answered

is_awaited-codes :
    (s t : MessageType) → is_awaited s t ≡ true → (type_code s ≢ 0) × (type_code t ≡ type_code s)
unfolding is_awaited
is_awaited-codes s t e = ground arith

-- Offers and rescinds touch only the devices.
offer_or_rescind-devices :
    (t : MessageType) (m : ChannelMessage) (b : Inbox)
    → (ds : List ChannelMessage) × (offer_or_rescind t m b ≡ record b { devices = ds })
offer_or_rescind-devices t m b =
    elim t
      as (λ c. (ds : List ChannelMessage) × (offer_or_rescind c m b ≡ record b { devices = ds })) [
        | channel_offer ↦ (m ∷ b.devices, refl)
        | rescind_channel_offer ↦ (m ∷ b.devices, refl)
        | _ ↦ (b.devices, refl)
      ]

IsOrderly-devices :
    (b c : Inbox) (ds : List ChannelMessage)
    → c ≡ record b { devices = ds }
    → IsOrderly b
    → IsOrderly (send_syn_ic_eom c)
unfolding IsOrderly WaitsForOne
IsOrderly-devices b c ds e h = subst (λ x. IsOrderly (send_syn_ic_eom x)) (sym e) h

awaited-IsOrderly :
    (b : Inbox) (m : ChannelMessage)
    → (type_code b.wait_for_message_type ≢ 0)
      × (type_code m.message_type ≡ type_code b.wait_for_message_type)
    → WaitsForOne b
    → AreAnswers b.answered
    → AreAnswers (take_answer m b.sleepers ++ b.answered)
unfolding WaitsForOne AreAnswers
awaited-IsOrderly b m (waiting, same) (inl (s, none_)) answers = absurd (waiting none_)
awaited-IsOrderly b m (waiting, same) (inr (s, ne)) answers =
    subst (λ ts. AreAnswers (take_answer m ts ++ b.answered)) (sym s) (same, answers)

receive_channel_message-IsOrderly :
    (b : Inbox) (m : ChannelMessage)
    → IsOrderly b
    → IsOrderly (process_incoming_message (channel_message m) b)
unfolding IsOrderly process_incoming_message WaitsForOne type_code
receive_channel_message-IsOrderly b m (waits, answers) =
    elim (Bool-cases (is_awaited b.wait_for_message_type m.message_type)) [
      | inl e ↦ rw e (
        inl (refl, refl),
        awaited-IsOrderly b m (is_awaited-codes b.wait_for_message_type m.message_type e) waits
            answers,
      )
      | inr e ↦
          let (ds, changed) = offer_or_rescind-devices m.message_type m b in
          rw e
            (IsOrderly-devices b (offer_or_rescind m.message_type m b) ds changed (waits, answers))
    ]

process_incoming_message-IsOrderly :
    (b : Inbox) (p : Pending) → IsOrderly b → IsOrderly (process_incoming_message p b)
unfolding process_incoming_message
process_incoming_message-IsOrderly b no_message h = h
process_incoming_message-IsOrderly b (channel_message m) h = receive_channel_message-IsOrderly b m h
process_incoming_message-IsOrderly b event_message h = h
process_incoming_message-IsOrderly b (other_message type) h = h

code_ne : (x : Bool) (code : ℕ) → (x || (code == 0)) ≡ false → code ≢ 0
code_ne x code e = ground arith

wait_for_response-IsOrderly :
    (b : Inbox) (posted : IoReturn) (t : MessageType)
    → b.sleepers ≡ []
    → IsOrderly b
    → IsOrderly (wait_for_response posted t b)
unfolding IsOrderly wait_for_response WaitsForOne
wait_for_response-IsOrderly b posted t alone (waits, answers) =
    elim (Bool-cases (not (is_success posted) || (type_code t == 0))) [
      | inl e ↦ rw e (waits, answers)
      | inr e ↦
          rw e (inr (ap (◌∷◌ t) alone, code_ne (not (is_success posted)) (type_code t) e), answers)
    ]

Inbox_step-IsOrderly : {b c : Inbox} → InboxStep b c → IsOrderly b → IsOrderly c
Inbox_step-IsOrderly (send b posted t alone) h = wait_for_response-IsOrderly b posted t alone h
Inbox_step-IsOrderly (receive b p) h = process_incoming_message-IsOrderly b p h

pub InboxReach-IsOrderly : {b c : Inbox} → InboxReach b c → IsOrderly b → IsOrderly c
InboxReach-IsOrderly start_here h = h
InboxReach-IsOrderly (then_step r s) h = Inbox_step-IsOrderly s (InboxReach-IsOrderly r h)

-- The inbox before the first message.
abbrev pub fresh_inbox : Inbox
fresh_inbox = record {
  wait_for_message_type = invalid;
  wait_message = none;
  sleepers = [];
  answered = [];
  devices = [];
  ends_of_message = 0;
}

-- In every state that sending while nobody waits and processing whatever messages lead to from a
-- fresh inbox, either nobody waits and nothing is awaited, or one thread waits for the very type
-- that the driver awaits. Each thread that was woken got a message of the type that it waited
-- for.
pub InboxReach-answers :
    (c : Inbox) → InboxReach fresh_inbox c → WaitsForOne c × AreAnswers c.answered
unfolding IsOrderly WaitsForOne AreAnswers type_code
InboxReach-answers c r = InboxReach-IsOrderly r (inl (refl, refl), tt)
