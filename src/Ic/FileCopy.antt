-- ===== src/Ic/FileCopy.antt =====
-- The file copy: `handlePacket` of
-- MacHyperVSupport/IntegrationComponents/FileCopy/HyperVFileCopy.cpp, the operations of
-- HyperVFileCopyUserClient.cpp that it calls, and `sleepThread` and `wakeThread` of
-- HyperVICUserClient.cpp, by which they wait for the daemon.
pub mod Offered
use mac_hyper_vsupport.Common.{
  ℕ, ◌+◌, ◌%◌, ◌^◌, List, [], ◌∷◌, ◌++◌, drop, Bool, true, false, not, ltb, if◌then◌else◌, Option,
  none, some, sub32,
}
use mac_hyper_vsupport.Transfer.{
  IoReturn, success, bad_argument, not_found, still_open, no_space, time_out, unsupported,
}
use mac_hyper_vsupport.Network.Buffers.{is_success}
use mac_hyper_vsupport.Vmbus.{status_success, status_failure}
use mac_hyper_vsupport.Ic.{
  Version, IcHeader, Negotiation, version, process_negotiation_response, answered, failed,
}

-- `kHyperVStatusAlreadyExists` and `kHyperVStatusDiskFull`.
abbrev pub status_already_exists : ℕ
status_already_exists = 0x80070050

abbrev pub status_disk_full : ℕ
status_disk_full = 0x80070070

-- `HyperVFileCopyUserClientNotificationMessage`. A fragment has the bytes that `_currentFileData`
-- points at while the message is answered.
pub data Notification : Type 0 where
  start_copy : (flags file_size max_fragment_size : ℕ) → Notification
  write_to_file : (offset size : ℕ) (bytes : List ℕ) → Notification
  complete_copy : Notification
  cancel_copy : Notification

-- What is outside: whether the notification port is open, the status of sending to it, the status
-- that the daemon completes a message with before the time is over, and the conversion of a path
-- from UTF-16, with what it leaves in the buffer.
pub record Daemon : Type 0 where
  pub has_port : Bool
  pub delivers : Notification → IoReturn
  pub completes : Notification → Option IoReturn
  pub convert_unicode_path : List ℕ → Bool × List ℕ

-- The fields of `HyperVFileCopyUserClient`.
pub record FileCopyClient : Type 0 where
  pub current_file_name : List ℕ
  pub current_file_path : List ℕ
  pub current_file_data : List ℕ
  pub is_sleeping : Bool
  pub sleep_status : IoReturn

-- `wakeThread`, by `completeIO`, if the daemon calls it.
abbrev pub woken : Option IoReturn → FileCopyClient → FileCopyClient
woken none c = c
woken (some status) c = record c { sleep_status = status; is_sleeping = false }

-- The end of `sleepThread`.
abbrev pub sleep_thread : FileCopyClient → IoReturn × FileCopyClient
sleep_thread c =
    let status = if c.is_sleeping then time_out else c.sleep_status in
    (status, record c { sleep_status = status; is_sleeping = false })

-- `notifyFileCopyClientApplication`.
abbrev pub notify_daemon : Daemon → Notification → IoReturn
notify_daemon d n = if d.has_port then d.delivers n else not_found

-- The steps that the operations share: `_isSleeping` set, the message sent, and the wait. The
-- messages that were sent stand last.
unfoldable pub call_daemon :
    Daemon → Notification → FileCopyClient → IoReturn × FileCopyClient × List Notification
call_daemon d n c =
    let waiting : FileCopyClient = record c { is_sleeping = true } in
    let (status, slept) = sleep_thread (woken (d.completes n) waiting) in
    if is_success (notify_daemon d n)
    then (status, slept, n ∷ [])
    else (notify_daemon d n, waiting, [])

-- `startFileCopy`, for `kHyperVFileCopyMaxDataSize`.
unfoldable pub start_file_copy :
    Daemon
    → ℕ
    → List ℕ
    → List ℕ
    → ℕ
    → ℕ
    → FileCopyClient
    → IoReturn × FileCopyClient × List Notification
unfolding call_daemon
start_file_copy d max_data_size file_name file_path flags file_size c =
    let (name_ok, name) = d.convert_unicode_path file_name in
    let (path_ok, path) = d.convert_unicode_path file_path in
    let c₁ : FileCopyClient = record c { current_file_name = name } in
    let c₂ : FileCopyClient = record c₁ { current_file_path = path } in
    if not name_ok
    then (bad_argument, c₁, [])
    else if not path_ok
    then (bad_argument, c₂, [])
    else call_daemon d (start_copy flags file_size max_data_size) c₂

-- The second portion of a fragment.
abbrev pub write_second_portion :
    Daemon → ℕ → ℕ → ℕ → FileCopyClient → IoReturn × FileCopyClient × List Notification
write_second_portion d max_data_size offset data_size c =
    let rest = drop max_data_size c.current_file_data in
    call_daemon d
      (write_to_file ((offset + max_data_size) % 2 ^ 64) (sub32 data_size max_data_size) rest)
      (record c { current_file_data = rest })

-- `writeFileFragment`.
unfoldable pub write_file_fragment :
    Daemon → ℕ → ℕ → List ℕ → ℕ → FileCopyClient → IoReturn × FileCopyClient × List Notification
unfolding call_daemon
write_file_fragment d max_data_size offset bytes data_size c =
    let size = if ltb data_size max_data_size then max_data_size else data_size in
    let (status, c₁, sent) =
      call_daemon d (write_to_file offset size bytes) (record c { current_file_data = bytes }) in
    let (status₂, c₂, sent₂) = write_second_portion d max_data_size offset data_size c₁ in
    if not (is_success status)
    then (status, c₁, sent)
    else if ltb max_data_size data_size
    then (status₂, c₂, sent ++ sent₂)
    else (success, c₁, sent)

-- `completeFileCopy`, `cancelFileCopy`.
abbrev pub complete_file_copy :
    Daemon → FileCopyClient → IoReturn × FileCopyClient × List Notification
complete_file_copy d c = call_daemon d complete_copy c

abbrev pub cancel_file_copy :
    Daemon → FileCopyClient → IoReturn × FileCopyClient × List Notification
cancel_file_copy d c = call_daemon d cancel_copy c

-- `fileCopyVersions`.
abbrev pub file_copy_versions : List Version
file_copy_versions = version 1 1 ∷ []

-- `HyperVFileCopyMessage` behind its headers, by its type, and with its header.
pub data FileCopyOperation : Type 0 where
  starts : (file_name file_path : List ℕ) (flags file_size : ℕ) → FileCopyOperation
  writes : (offset size : ℕ) (bytes : List ℕ) → FileCopyOperation
  completes_copy : FileCopyOperation
  cancels_copy : FileCopyOperation
  other_operation : (operation_type : ℕ) → FileCopyOperation

pub data FileCopyMessage : Type 0 where
  negotiate : IcHeader → Negotiation → FileCopyMessage
  file_copy : IcHeader → FileCopyOperation → FileCopyMessage
  unknown : (header : IcHeader) (message_type : ℕ) → FileCopyMessage

unfoldable pub run_operation :
    Daemon → ℕ → FileCopyOperation → FileCopyClient → IoReturn × FileCopyClient × List Notification
unfolding start_file_copy write_file_fragment
run_operation d n (starts name path flags size) c = start_file_copy d n name path flags size c
run_operation d n (writes offset size bytes) c = write_file_fragment d n offset bytes size c
run_operation d n completes_copy c = complete_file_copy d c
run_operation d n cancels_copy c = cancel_file_copy d c
run_operation d n (other_operation operation_type) c = (unsupported, c, [])

-- The status for the host.
abbrev pub host_status : IoReturn → ℕ
host_status success = status_success
host_status still_open = status_already_exists
host_status no_space = status_disk_full
host_status _ = status_failure

-- The handler, with the user client if there is one: the message that goes back, the user client
-- and what was sent to the daemon.
unfoldable pub handle_file_copy_packet :
    Daemon
    → ℕ
    → Option FileCopyClient
    → FileCopyMessage
    → FileCopyMessage × Option FileCopyClient × List Notification
unfolding run_operation
handle_file_copy_packet d n client (negotiate h m) =
    let (ok, m', used) = process_negotiation_response h file_copy_versions m in
    (negotiate (answered (if ok then h else failed h)) m', client, [])
handle_file_copy_packet d n none (file_copy h o) = (file_copy (answered (failed h)) o, none, [])
handle_file_copy_packet d n (some c) (file_copy h o) =
    let (status, c', sent) = run_operation d n o c in
    (file_copy (answered (record h { status = host_status status })) o, some c', sent)
handle_file_copy_packet d n client (unknown h message_type) =
    (unknown (answered (failed h)) message_type, client, [])
