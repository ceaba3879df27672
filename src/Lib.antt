-- ===== src/Lib.antt =====
-- The core of the ICCom driver, driver/iccom.c: an exchange of messages between two sides over a
-- full duplex link, with channels, acknowledgements and repeats.
--
-- A message is posted to a channel and cut into packets, which fill packages of 256 bytes. The
-- packages wait in a queue. A transfer in the data stage sends the first package and receives one
-- from the other side at the same time; a transfer in the ack stage exchanges one byte, ACK or
-- NACK, and an ACK takes the package off the queue. A received package is verified, dropped if its
-- ID is that of the last one, and parsed into a storage of messages by channel, whose changes are
-- committed or rolled back as a whole. A consumer reads finished messages or is called back.
--
-- Base: Boolean tests and lists over the native numbers.
-- Kernel: error numbers and kmalloc. A schedule (Memory) says for each allocation whether it is
--   granted and what the fresh memory holds; the empty schedule grants everything.
-- Crc: __iccom_crc32_gen_lookup_table and __iccom_compute_crc32.
-- Package: struct iccom_package and the __iccom_package_* functions on its memory, with
--   __iccom_verify_package_data. Package/Layout describes the memory by its parts, Package/Unused
--   the check of the unused payload, Package/Finalize the CRC and the filler, Package/Fresh what
--   an allocation leaves.
-- Packet: the packet header, __iccom_packet_parse_into_struct and iccom_package_add_packet.
-- Storage: struct iccom_message_storage and the iccom_msg_storage_* functions; lookups in
--   Storage/Query, additions and removals in Storage/Update, transactions in Storage/Commit,
--   callbacks in Storage/Callback and Storage/Deliver. A pointer into a list is the value that the
--   lookup finds, and an update through it is an update where the lookup stops. While a consumer is
--   called back the storage is unlocked: the messages that are added to the channels then are an
--   argument, and that a message which is there is finished then is left out.
-- Device: struct iccom_dev_private. Device/Errors: __iccom_error_report. Device/Queue: the
--   __iccom_enqueue_* and __iccom_queue_* functions. Device/Receive: __iccom_read_next_packet and
--   __iccom_process_package_payload. Device/Callbacks: __iccom_xfer_done_callback,
--   __iccom_xfer_failed_callback and the notification of consumers. Device/Api: iccom_init,
--   iccom_close, iccom_post_message, iccom_read_message and the channel callbacks.
--   iccom_init_binded and iccom_close_binded are in Device/Api/Binded.
-- Device/Link: two devices and the wire between them. A round is a data stage and an ack stage of
--   both, by __iccom_xfer_done_callback or __iccom_xfer_failed_callback; between the rounds messages
--   are posted at one end, and read at both. Damage that the CRC does not find is left out, and so
--   are a posting that fails for lack of memory, and posting at the other end.
-- Int32: the int of the C sources as a 32-bit pattern.
-- Socket: driver/iccom_socket_if.c, which gives each channel a Netlink port. A message from user
--   space goes to iccom_post_message, and one of the core to the port; a rule can loop a range of
--   channels to another one on this side. Socket holds the rule and the device, Socket/Parse and
--   Socket/Control the control file in procfs, Socket/Dispatch the ways of messages,
--   Socket/Lifecycle the opening and the closing.
-- Symspi: driver/symspi.c, the transport below the core on an SPI bus. Symspi/Xfer holds the transfer
--   that the device owns: its allocation, copy, replacement (symspi_replace_xfer), ID and counter,
--   with pointers that are NULL, live or freed and the outcomes of krealloc as arguments.
--   Symspi/Switch is the strict switch of states, Symspi/Errors the handling of errors,
--   Symspi/Leave the way to the SPI transfer, Symspi/Exchange the requests, the update of the
--   transfer and the way back to IDLE, Symspi/Works the works, timers, interrupts and callbacks.
--   Symspi/Machine makes steps of them: a context runs as a whole, only the wait of the
--   postprocessing for the other side's flag lets others run between, and the level of that flag
--   does not change within a step. The recovery, which sleeps for 10 ms and more, is not over
--   before this wait is. Machine/Pair connects the flag lines of a master and a slave. A handler
--   that does not return has no result, and the loop of the error handling runs on one round: it
--   returns in the first or in none. Symspi/Safe holds what the proofs about steps share.
-- Libiccom: lib/iccom.c and lib/iccom.h, the library for programs that use the sockets. Libiccom
--   holds the opening of a socket and the check of channels, Libiccom/Timeout the timeouts,
--   Libiccom/Message the iccom_send_data* and iccom_receive_data* functions,
--   Libiccom/Loopback the iccom_loopback_* functions, whose line goes to the control file of Socket,
--   and Libiccom/IccomSocket the class of this name. The record NlmsgFormat says what the library
--   takes from linux/netlink.h; sendmsg, recvmsg, fopen, fprintf and fscanf are arguments.
-- Tests, Socket/Tests, Device/Link/Tests, Symspi/Tests, Symspi/Machine/Tests, Libiccom/Tests: the
--   theorems at concrete inputs.
--
-- The model is of the build without ICCOM_DEBUG, on a little-endian CPU with 64-bit size_t. Words
-- wrap where the code's do, but the int counters of one package or list are taken not to overflow.
-- A mutex makes an operation one step. Two loops run on fuel: the appending of n bytes on 2 n + 2
-- rounds, since each round writes a byte or is followed by one that does, and the parsing of n
-- bytes on n + 1 rounds, since a packet takes at least a byte. Both suffice.
--
-- Not modelled: mutexes, the work queue of the core, procfs but for the entries
-- that are made and removed, printing, the start, the end and the
-- reports of driver/symspi.c, the setup of this transport in iccom_socket_if.c, the hex dumps and the
-- debug printing of the library, and the tools. Freed memory is a value only in Symspi.
-- The answers of the transport layer and of Netlink, the time and the memory are arguments.
pub mod Base
pub mod Kernel
pub mod Int32
pub mod Crc
pub mod Package
pub mod Packet
pub mod Storage
pub mod Device
pub mod Socket
pub mod Symspi
pub mod Libiccom
pub mod Tests
