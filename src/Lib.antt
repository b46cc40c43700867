-- ===== src/Lib.antt =====
-- opensrthub routes transport streams over SRT and UDP. This library models parts of its C program
-- (source/ and include/ of the repository) and proves what makes them correct.
--
-- Base: the shared names, Boolean tests, lists over the native numbers, and the integers. Bits: laws of `^`.
--
-- Scte35 models the SCTE-35 decoder of source/tsdecode.c. Scte35.Cue is scte35_data_struct with the
-- segmentation tables; Scte35.Reader a monad of bounded reads of the payload, whose outcomes are to
-- go on, an early `return`, and a read outside the payload; Scte35.Insert is
-- scte35_parse_splice_insert, Scte35.Segment scte35_parse_segmentation_descriptor, Scte35.Section
-- scte35_parse_time_signal and scte35_decode_section. A pointer is an offset into the payload. The
-- descriptor loop runs on fuel, one round more than the bytes of the loop; each round moves on by two
-- bytes at least. Scte35.Encode is the section layout of the standard. The frame callback that
-- receives the cues is represented by the list of the cues that it gets.
--
-- Pmt models decode_pmt_table of source/tsdecode.c and the readers of its result. Pmt.Table is
-- pmt_table_struct of include/tsdecode.h, its parallel arrays as one list of entries; Pmt.Streams the
-- loop over the elementary streams and their descriptors, Pmt.Decode the rest of the function, and
-- Pmt.Select select_transport_program, find_monitored_index, monitored_program_index, get_scte35_pid
-- and get_pid_summary. An access outside the buffer or an array has no result. The loops run on fuel,
-- one round more than the bytes; a `goto _redo_decode` clears the flag that allows it, so two rounds
-- are enough. Pmt.Numbering and Pmt.Pending keep the numbers of the audio streams, Pmt.Totality and
-- Pmt.Entry carry them through the loops, Pmt.Slots, Pmt.Update and
-- Pmt.Runs through the tables. pmt_lock is
-- held throughout each function, so each is one step. The callers collect the section into a buffer
-- of 1024 bytes whose last four, the checksum, are not counted in the size.
--
-- MemPool models source/mempool.c. A Pool is memory_pool_struct together with the 32-bit words of the
-- memory, since memory_return reads the word in front of a buffer. Results of malloc are arguments.
-- The counts and sizes are not negative here: memory_create refuses the others. A size that
-- overflows an int when its four bytes are added gives no pool. MemPool.Freed is about
-- what memory_destroy frees.
--
-- DataQueue models source/dataqueue.c on a heap of nodes, where a read or a write through NULL or
-- through a freed node is a fault. The lock is held for a whole operation, so operations are atomic;
-- the waits of dataqueue_take_back_wait see the queue as other threads left it.
--
-- Video models the tracker of video format changes in source/srthub.c, format_change_update, in
-- Video.Format, and its probes of H.264 data, unescape_rbsp, br_u1, br_ue, h264_slice_type and
-- h264_has_recovery_point, in Video.Nal. A text is a list of bytes, cut at 47 where an array keeps
-- it. Video.Escape and Video.Sei hold the layouts of the H.264 standard. The bit reader's loop runs on
-- one round more than the bits left, the loop over SEI messages on one more than the bytes left.
--
-- Listen models srt_create_bound_listener, in Listen.Create, and srt_bind_listener_retrying, in
-- Listen.Retry, of source/srthub.c. A round of the loop carries what it reads: *running, the answers
-- of libsrt, and the clock. Listen.Sockets follows the open sockets, Listen.Reports what is told, and
-- Listen.Rate how often.
--
-- Signal models send_signal, send_signal_scte35 and the turns of signal_thread of source/esignal.c, on
-- a queue of messages as DataQueue shows it. Signal.Meant writes out the messages that the calls mean,
-- Signal.Steps takes the calls and turns one by one,
-- Signal.Ledger together. The texts that the thread posts are left out.
--
-- Cues models the branch of receive_frame of source/srthub.c for SCTE-35 samples: Cues.Recent is the
-- table of recent cues, Cues.Receive the rest. Cues.Keys, Cues.Suppressed, Cues.Table and Cues.Repeats
-- compare the table with all the cues that came, Cues.Reported the reports. Relay models what the
-- receiver and sender threads of source/srthub.c do with packets: Relay.Hub on the pools of MemPool and
-- queues as DataQueue shows them, each piece of code as a whole; Relay.Owned counts who holds a buffer
-- of a pool, Relay.Made and Relay.Balance carry that through the pieces, Relay.Run through a run.
--
-- Feed models check_for_rtp and realtime_clock_difference of source/srthub.c, on sizes and differences
-- that are not negative.
--
-- Demux models decode_packets of source/tsdecode.c around these two decoders. Demux.State is
-- transport_data_struct and data_engine_struct, a frame buffer as the memory behind its pointer;
-- Demux.Header reads the header, the table of PIDs and the adaptation field, Demux.Sections collects
-- PMT sections, Demux.Programs reads the PAT, Demux.Frames delivers a frame, Demux.Stream takes the
-- packets of a stream, and Demux.Packets is the function. A pointer into a packet is an offset, an
-- access outside a packet, a buffer or an array has no result. What malloc returns and whether thirty
-- seconds have passed are arguments of each packet. Demux.Store, Demux.Valid, Demux.Collected,
-- Demux.Stamps, Demux.Streaming, Demux.Safety and Demux.PacketSafety carry the invariant through the
-- parts, Demux.Untouched and Demux.Payload the table of PIDs; Demux.Reassembly and Demux.Pes follow a
-- PES packet. All loops are over counts. The wall-clock
-- statistics are left out.
--
-- Udp models source/udpsource.c: the table of sockets together with the descriptors that the system
-- has open for the process. The outcomes of the system's calls are arguments.
--
-- Crc models source/crc.c; its table is transcribed. Crc.Bitwise is the division that it stands for.
--
-- Not modelled: the registration of callbacks, the connections over
-- libsrt and sockets, the uses of FFmpeg and libcurl, cJSON (another project's code), and the web application.
pub mod Base
pub mod Bits
pub mod Scte35
pub mod Pmt
pub mod MemPool
pub mod Crc
pub mod DataQueue
pub mod Video
pub mod Feed
pub mod Listen
pub mod Signal
pub mod Cues
pub mod Relay
pub mod Demux
pub mod Udp
