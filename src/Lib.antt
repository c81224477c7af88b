-- ===== src/Lib.antt =====
-- The VMBus of MacHyperVSupport, the Hyper-V drivers for macOS: shared rings between guest and
-- host, packets in them, the device nubs that client drivers send and receive by, the controller
-- that opens channels for them, and the network, storage, graphics and integration drivers above them.
--
-- The program's parts, and the files that model them:
--
--   Common        lists, machine words and Boolean tests that the other files share
--   Ring          VMBusRingBuffer of MacHyperVSupport/VMBus/VMBus.hpp, the wrapping copies of
--                 VMBusDevice/HyperVVMBusDevicePrivate.cpp (copyPacketDataFromRingBuffer is
--                 copy_from_ring, copyPacketDataToRingBuffer is copy_to_ring,
--                 zeroPacketDataToRingBuffer is zero_to_ring) and getAvailableRingSpace
--                 (available_space). Ring/Circular reads and writes a ring byte by byte,
--                 Ring/Copy compares the copies with that, Ring/Space and Ring/Contents turn
--                 a ring into a queue of bytes.
--   Packet        VMBusPacketHeader, its bytes and the size macros
--   Transfer      writeRawPacketGated (write_raw_packet), readRawPacketGated (read_raw_packet)
--                 and nextPacketAvailableGated (next_packet_available); Transfer/Write,
--                 Transfer/Fifo, Transfer/Read and Transfer/Loopback are about them
--   Nub           HyperVVMBusDevice of MacHyperVSupport/VMBusDevice: Nub/Requests has the list
--                 of sleeping requests, Nub/Transactions getNextTransId, Nub/Send the write
--                 functions down to writePacketInternal (write_packet_internal), Nub/Opening
--                 openVMBusChannel, closeVMBusChannel and installPacketActions, Nub/Delivery
--                 and Nub/Pages what they leave, Nub/Interrupt the two loops of handleInterrupt
--   Vmbus         HyperVVMBus of MacHyperVSupport/VMBus: Vmbus/Post posts a message
--                 (sendVMBusMessageGated), Vmbus/Connect agrees on a version
--                 (connectVMBus is connect_vmbus), Vmbus/Incoming processes the host's messages
--                 (processIncomingVMBusMessage is process_incoming_message), and
--                 Vmbus/Incoming/Waiting is about the thread that waits, Vmbus/Gpadl hands pages to the host
--                 (initVMBusChannelGPADL is init_gpadl), Vmbus/Channels has the channel table
--                 (openVMBusChannel is open_channel, closeVMBusChannel close_channel,
--                 addVMBusDevice add_device, removeVMBusDevice remove_device)
--   Network       HyperVNetwork of MacHyperVSupport/Network: Network/Sections has the bitmap of
--                 send sections (getNextSendIndex is get_next_send_index), Network/Output sends
--                 packets (outputPacket is output_packet) and takes completions, with the
--                 packets in flight in Network/Output/Flight, Network/Buffers sets the buffers up
--                 (initSendReceiveBuffers is init_send_receive_buffers), Network/Filter has the
--                 packet filter, Network/Link updateLinkState, Network/Rndis the requests and
--                 packets of RNDIS (processRNDISPacket is process_rndis_packet), and
--                 Network/Receive handlePacket (handle_packet)
--   Storage       HyperVStorage of MacHyperVSupport/Storage: Storage/Connect negotiates
--                 (connectStorage is connect_storage), Storage/Scan looks for disks
--                 (scanSCSIDisks is scan_scsi_disks), Storage/Tasks has tasks and completions
--                 (ProcessParallelTask is process_parallel_task)
--   Graphics      HyperVGraphics of MacHyperVSupport/Graphics: Graphics/Dirty has the dirty tiles
--                 (markRegionDirty is mark_region_dirty, buildDirtyRectangles is
--                 build_dirty_rectangles), Graphics/Display the resolution
--                 (setScreenResolutionGated is set_screen_resolution), Graphics/Cursor the
--                 cursor (setCursorShapeGated is set_cursor_shape), Graphics/Packets the packets
--                 and the timer (handlePacket is handle_graphics_packet)
--   Ic            the integration components of MacHyperVSupport/IntegrationComponents: version
--                 negotiation (processNegotiationResponse is process_negotiation_response,
--                 Ic/Versions is about it) and the packet handlers of the heartbeat
--                 (Ic/Heartbeat), the time synchronisation (Ic/TimeSync), the shutdown
--                 (Ic/Shutdown) and the file copy (Ic/FileCopy, with the user client's operations:
--                 writeFileFragment is write_file_fragment)
--   Tests         small runs, and the results at concrete inputs
--
-- A nub writes through Transfer into its transmit ring and lists a request for the answer; the
-- interrupt handler reads the receive ring through Transfer and hands each packet to the request
-- that sleeps on its transaction, or to the client's handler. Vmbus gives the nub its two rings.
-- The handlers of Ic are such clients, and answer each message with the buffer it came in. So are
-- Network, Storage and Graphics; what the nub's sends return to them is an argument there.
--
-- Numbers are natural numbers. Where the source computes in 32 or 64 bits the model wraps
-- (add32, sub32, mul32, `% 2 ^ 64`). A ring's memory is a function from offsets to bytes, so that
-- a write past the end would show. What the host and I/O Kit do is an argument: the indices
-- that the host changes (HostView), the packets that arrive (the batches of handle_interrupt),
-- the answers of hypercalls, whether a message is posted, the status of a response, the addresses
-- of buffers and whether they can be allocated, the handlers of a client, whether I/O Kit
-- creates a target or maps a transfer.
--
-- Loops whose end depends on data run on fuel: drain on a number that covers the ring's size and
-- the doublings of the packet buffer, handle_interrupt on a number of rounds, body_loop on the
-- number of pages and one. Each is shown to be enough.
--
-- Not modelled: locks and the sleep itself (a send that has to wait ends in `sleeps`), the debug
-- timers and counters, logging, I/O Kit matching, mbufs and DMA commands, the graphics bridge,
-- and the drivers for keyboard, mouse and PCI, which mostly pass data between the host and I/O
-- Kit. A bitmap is a list of bits, of which those past its end read as 0 and are not written.
pub mod Common
pub mod Ring
pub mod Packet
pub mod Transfer
pub mod Nub
pub mod Vmbus
pub mod Network
pub mod Storage
pub mod Graphics
pub mod Ic
pub mod Tests
