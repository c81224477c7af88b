-- ===== src/Nub/Delivery.antt =====
-- What the write functions of MacHyperVSupport/VMBusDevice leave in the transmit ring and in the
-- list of sleeping requests.
use mac_hyper_vsupport.Common.{
  ℕ, ◌+◌, ◌-◌, ◌*◌, ◌/◌, ◌^◌, ◌≤◌, ◌<◌, ◌≡◌, refl, sym, ap, ◌∙◌, arith, List, [], ◌∷◌, ◌++◌, length,
  Bool, true, false, Option, none, some, append-nil, ne→==_false, if◌then◌else◌, subst, to_u16,
  add32,
}
use mac_hyper_vsupport.Ring.{Ring}
use mac_hyper_vsupport.Ring.Space.{IsValid, used}
use mac_hyper_vsupport.Ring.Contents.{contents}
use mac_hyper_vsupport.Packet.{
  PacketHeader, get_packet_size, set_packet_size, packet_align, packet_header_size, encode_header,
}
use mac_hyper_vsupport.Packet.Bytes.{IsHeader, length-encode_header}
use mac_hyper_vsupport.Transfer.{success, no_resources, HostView, count_interrupt, write_raw_packet}
use mac_hyper_vsupport.Transfer.Write.{write_raw_packet_full}
use mac_hyper_vsupport.Transfer.Read.{RingPacket, IsPacket, stream}
use mac_hyper_vsupport.Transfer.Loopback.{
  header_of, packet_of, packet_size, write_raw_packet_streams,
}
use mac_hyper_vsupport.Nub.{Nub, Request}
use mac_hyper_vsupport.Nub.Requests.{add_packet_request, wake_transaction, find-add, unlink-add}
use mac_hyper_vsupport.Nub.Send.{
  Outcome, returns, sleeps, after_write, send_raw_packet, expect_response, await_response, transact,
  internal_header, write_packet_internal,
}

-- How a send that succeeded ends.
abbrev pub awaits : ℕ → Option ℕ → Outcome
awaits id none = returns success
awaits id (some _) = sleeps id

-- A send that succeeded: the packet stands behind the others in the transmit ring, and the request
-- for the answer, if there is one, is the newest of the sleeping ones.
pub record Delivered (n : Nub) (ps : List RingPacket) (p : RingPacket) (id : ℕ)
    (response : Option ℕ) (r : Option (Outcome × Nub)) : Type 0 where
  pub nub : Nub
  pub ring : Ring
  pub result : r ≡ some (awaits id response, nub)
  pub tx_buffer : nub.tx_buffer ≡ some ring
  pub valid : IsValid n.tx_buffer_size ring
  pub delivered : contents ring n.tx_buffer_size ≡ stream (ps ++ p ∷ [])
  pub proper : IsPacket p
  pub requests : nub.requests ≡ (expect_response id response n).requests

send_raw_packet_lem :
    (n : Nub) (tx : Ring) (later : HostView) (header : Option (List ℕ)) (buffer : List ℕ)
    → n.tx_buffer ≡ some tx
    → send_raw_packet n later header buffer
      ≡ some (after_write n (write_raw_packet n.tx_buffer_size tx later header buffer))
unfolding send_raw_packet
send_raw_packet_lem n tx later header buffer e = rw e

await-success :
    (id : ℕ) (response : Option ℕ) (n : Nub)
    → await_response id response (success, n) ≡ (awaits id response, n)
await-success id none n = refl
await-success id (some _) n = refl

transact_lem :
    (n : Nub) (tx : Ring) (later : HostView) (bytes buffer : List ℕ) (id : ℕ) (response : Option ℕ)
    → n.tx_buffer ≡ some tx
    → transact n later bytes buffer id response
      ≡ some (
          await_response id response (
            after_write
              (expect_response id response n)
              (write_raw_packet n.tx_buffer_size tx later (some bytes) buffer)))
unfolding transact add_packet_request
transact_lem n tx later bytes buffer id none e =
    rw (send_raw_packet_lem n tx later (some bytes) buffer e, transact)
transact_lem n tx later bytes buffer id (some k) e =
    rw
      (send_raw_packet_lem (expect_response id (some k) n) tx later (some bytes) buffer e, transact)

-- A send that found no room: the ring only counts a signal, and no request is left behind.
pub record Refused (n : Nub) (tx : Ring) (r : Option (Outcome × Nub)) : Type 0 where
  pub nub : Nub
  pub result : r ≡ some (returns no_resources, nub)
  pub tx_buffer : nub.tx_buffer ≡ some (count_interrupt tx)
  pub signalled : nub.signals ≡ n.signals + 1
  pub requests : nub.requests ≡ n.requests

await-Refused :
    (n : Nub) (tx : Ring) (id : ℕ) (response : Option ℕ)
    → Refused n tx (
        some (
          await_response id response
            (after_write (expect_response id response n) (no_resources, count_interrupt tx, true))))
unfolding add_packet_request wake_transaction
await-Refused n tx id none = record {
  nub = (after_write n (no_resources, count_interrupt tx, true)).1;
  result = refl;
  tx_buffer = refl;
  signalled = refl;
  requests = refl;
}
await-Refused n tx id (some k) =
    let r : Request = record {
      transaction_id = id;
      response_data = [];
      response_data_length = k;
    } in
    record {
      nub = record (after_write n (no_resources, count_interrupt tx, true)).1 {
        woken = r ∷ n.woken;
      };
      result = rw (find-add r n.requests, wake_transaction) (rw (unlink-add r n.requests));
      tx_buffer = refl;
      signalled = refl;
      requests = refl;
    }

internal_header-IsHeader :
    (packet_type id : ℕ) (response_required : Bool) (buffer : List ℕ)
    → id < 2 ^ 64
    → packet_type < 2 ^ 16
    → IsHeader (internal_header packet_type id response_required buffer)
unfolding internal_header
internal_header-IsHeader packet_type id true buffer h k = omega arith
internal_header-IsHeader packet_type id false buffer h k = omega arith

internal_header_size :
    (packet_type id : ℕ) (response_required : Bool) (buffer : List ℕ)
    → length buffer + 24 ≤ 2 ^ 19
    → get_packet_size (internal_header packet_type id response_required buffer).total_length
      ≡ packet_size [] buffer
unfolding internal_header
internal_header_size packet_type id response_required buffer h = omega arith

-- The header, by its fields.
internal_header_lem :
    (packet_type id : ℕ) (response_required : Bool) (buffer : List ℕ)
    → length buffer + 24 ≤ 2 ^ 19
    → internal_header packet_type id response_required buffer ≡ record {
      packet_type = packet_type;
      header_length = 2;
      total_length = packet_size [] buffer / 8;
      flags = if response_required then 1 else 0;
      transaction_id = id;
    }
unfolding internal_header
internal_header_lem packet_type id response_required buffer h =
    let size : to_u16 (set_packet_size (packet_align (add32 packet_header_size (length buffer))))
        ≡ packet_size [] buffer / 8 =
      omega arith in
    ap
      (λ k. record {
        packet_type = packet_type;
        header_length = 2;
        total_length = k;
        flags = if response_required then 1 else 0;
        transaction_id = id;
      })
      size

module _ (n : Nub) {tx : Ring} (open_ring : n.tx_buffer ≡ some tx) (v : IsValid n.tx_buffer_size tx)
    (later : HostView) (host : later.read_index ≡ tx.read_index) (id : ℕ)
    (response : Option ℕ) where
  -- A send through the transmit ring puts its packet behind those that are there.
  pub transact_streams :
      (h : PacketHeader) (extra buffer bytes : List ℕ) (ps : List RingPacket)
      → bytes ≡ header_of h extra
      → IsHeader h
      → get_packet_size h.total_length ≡ packet_size extra buffer
      → length extra + length buffer + 23 < 2 ^ 32
      → packet_size extra buffer + 8 < n.tx_buffer_size - used tx n.tx_buffer_size
      → contents tx n.tx_buffer_size ≡ stream ps
      → Delivered n ps
          (packet_of tx h extra buffer)
          id
          response
          (transact n later bytes buffer id response)
  unfolding transact
  transact_streams h extra buffer bytes ps b fits names no_wrap room e =
      let n₁ = expect_response id response n in
      let w = write_raw_packet n.tx_buffer_size tx later (some (header_of h extra)) buffer in
      let (st, valid, cs, proper) =
        write_raw_packet_streams v later h extra buffer fits names no_wrap room host ps e in
      record {
        nub = (after_write n₁ w).1;
        ring = w.1;
        result =
            transact_lem n tx later bytes buffer id response open_ring
            ∙ ap
                (λ hb. some (
                  await_response id response
                    (after_write n₁ (write_raw_packet n.tx_buffer_size tx later (some hb) buffer))))
                b
            ∙ ap (λ s. some (await_response id response (after_write n₁ (s, w.1, w.2)))) st
            ∙ ap some (await-success id response (after_write n₁ w).1);
        tx_buffer = refl;
        valid = valid;
        delivered = cs;
        proper = proper;
        requests = refl;
      }

  transact_full :
      (bytes buffer : List ℕ)
      → length bytes + length buffer + 7 < 2 ^ 32
      → n.tx_buffer_size - used tx n.tx_buffer_size ≤ (length bytes + length buffer + 7) / 8 * 8
      → Refused n tx (transact n later bytes buffer id response)
  transact_full bytes buffer fits full =
      rw
        (
          transact_lem n tx later bytes buffer id response open_ring,
          write_raw_packet_full v later (some bytes) buffer fits full,
        )
        (await-Refused n tx id response)

  -- The packet is delivered under the header of `internal_header`.
  write_packet_internal_streams :
      (packet_type : ℕ) (response_required : Bool) (buffer : List ℕ) (ps : List RingPacket)
      → 0 < id
      → id < 2 ^ 64
      → packet_type < 2 ^ 16
      → length buffer + 24 ≤ 2 ^ 19
      → packet_size [] buffer + 8 < n.tx_buffer_size - used tx n.tx_buffer_size
      → contents tx n.tx_buffer_size ≡ stream ps
      → Delivered n ps
          (packet_of tx (internal_header packet_type id response_required buffer) [] buffer)
          id
          response
          (write_packet_internal n later packet_type id response_required buffer response)
  unfolding write_packet_internal
  write_packet_internal_streams packet_type response_required buffer ps pos id_fits type_fits small
        room e =
      rw (ne→==_false id 0 (omega arith)) (
        transact_streams (internal_header packet_type id response_required buffer) [] buffer
          (encode_header (internal_header packet_type id response_required buffer)) ps
          (sym
            (append-nil (encode_header (internal_header packet_type id response_required buffer))))
          (internal_header-IsHeader packet_type id response_required buffer id_fits type_fits)
          (internal_header_size packet_type id response_required buffer small) (omega arith) room e)

  -- On an open nub whose transmit ring is valid, holds packets and has room for the packet and
  -- its index, and while the host does not read, an inband or completion packet of at most 2 ^ 19
  -- - 24 bytes with a transaction number other than 0 is delivered. It stands behind the packets
  -- that were there, under a header of two words with its type and number, the words of the
  -- aligned packet, and flag 1 if an answer is required; the thread sleeps on the number if it
  -- wants an answer and returns success if not.
  pub write_packet_internal-Delivered :
      (packet_type : ℕ) (response_required : Bool) (buffer : List ℕ) (ps : List RingPacket)
      → 0 < id
      → id < 2 ^ 64
      → packet_type < 2 ^ 16
      → length buffer + 24 ≤ 2 ^ 19
      → packet_size [] buffer + 8 < n.tx_buffer_size - used tx n.tx_buffer_size
      → contents tx n.tx_buffer_size ≡ stream ps
      → Delivered n ps
          (packet_of tx
            (record {
              packet_type = packet_type;
              header_length = 2;
              total_length = packet_size [] buffer / 8;
              flags = if response_required then 1 else 0;
              transaction_id = id;
            })
            []
            buffer)
          id
          response
          (write_packet_internal n later packet_type id response_required buffer response)
  write_packet_internal-Delivered packet_type response_required buffer ps pos id_fits type_fits
        small room e =
      subst
        (λ h.
          Delivered n ps (packet_of tx h [] buffer) id response
            (write_packet_internal n later packet_type id response_required buffer response))
        (internal_header_lem packet_type id response_required buffer small)
        (write_packet_internal_streams packet_type response_required buffer ps pos id_fits type_fits
          small room e)

  -- On an open nub whose transmit ring is valid, a packet with a transaction number other than 0
  -- whose aligned size is at least the free space, and which is shorter than 2 ^ 32 - 23 bytes,
  -- is refused for lack of resources. The ring stays as it is but for one more signal counted,
  -- the host is signalled, and the list of requests is what it was.
  pub write_packet_internal-Refused :
      (packet_type : ℕ) (response_required : Bool) (buffer : List ℕ)
      → 0 < id
      → length buffer + 23 < 2 ^ 32
      → n.tx_buffer_size - used tx n.tx_buffer_size ≤ packet_size [] buffer
      → Refused n tx
          (write_packet_internal n later packet_type id response_required buffer response)
  unfolding write_packet_internal
  write_packet_internal-Refused packet_type response_required buffer pos small full =
      let h = internal_header packet_type id response_required buffer in
      rw (ne→==_false id 0 (omega arith)) (
        transact_full (encode_header h) buffer (omega (arith, length-encode_header h))
          (omega (arith, length-encode_header h)))
