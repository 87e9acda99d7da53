-- ===== src/Lib.antt =====
-- The Spread daemon of ass2/spread-src-4.0.0: a toolkit for group communication, in C.
--
-- The daemon is one event loop. daemon/events.c keeps its timers and calls them back;
-- daemon/configuration.c knows the machines, in segments; daemon/membership.c agrees with the other
-- daemons on the members of a ring, by packets and timers, around a token whose loss it detects;
-- daemon/protocol.c orders the packets of the ring by that token, delivers and discards them, and
-- installs the next membership; daemon/network.c packs them into datagrams; daemon/groups.c keeps
-- the groups that the clients join and leave in step with the memberships, and tells their members.
--
-- Events/Time.antt: `sp_time` with E_add_time, E_sub_time and E_compare_time; Time/Arithmetic.antt
--   reads a time in microseconds. A `long` is an integer without bounds.
-- Events/Timers.antt: `Time_queue` with E_queue, E_dequeue and the decision that each round of the
--   timer loop of E_handle_events takes. The linked list is a list, and a callback is known by a
--   number for its function, its code and its data pointer. Timers/Map.antt sees the list as a map
--   from callbacks to times, Timers/Order.antt as a list in order.
-- Events/Descriptors.antt: `Fd_queue`, `Fd_mask` and `Active_priority` with E_attach_fd, E_detach_fd,
--   E_activate_fd, E_deactivate_fd, E_set_active_threshold and E_num_active. Descriptors/Counts.antt
--   and Descriptors/Attach.antt follow the counts of active events, Descriptors/Masks.antt the masks.
-- Conf.antt: `proc`, `segment` and `configuration` of daemon/configuration.h and the Conf_*
--   lookups. A pointer to a process is the process, and an array with its count the list of the
--   entries in use; -1 is `none`. Conf/Lookup.antt and Conf/Members.antt prove what they find.
-- Flow.antt: the windows with FC_init, FC_new_configuration, FC_allowed and FC_handle_message of
--   daemon/flow_control.c; Flow/Window.antt proves what is granted and who changes them. The mark of
--   a monitor is the process id 15051963 in `memb_id`.
-- Memb/Members.antt: `members_info` with Insert_member, Smallest_member and Sort_members, the
--   array and the counts as in the source; one child for each function.
-- Memb/Reps.antt: `reps_info` with Insert_rep and Smallest_rep; Reps/Segments.antt proves the
--   invariant of the representatives.
-- Memb/State.antt: the variables of daemon/membership.c with those of the other files that it
--   reads and writes. What gettimeofday returns is a field, a function of the number of calls; what
--   goes to the network is a list in the state. State/Timers.antt: which callbacks wait.
-- Memb/Shift.antt: Shift_to_seg, Shift_to_gather, Shift_to_represented, Gather_or_represented,
--   Scast_alive, Send_join and Memb_lookup_new_members.
-- Memb/Loss.antt: Memb_token_loss and Backoff_membership; Loss/Backoff.antt proves the second.
-- Memb/Handlers.antt: Memb_handle_message and the handlers of alive, join, refer and foreign
--   packets; Handlers/Refer.antt proves that refer packets keep the representatives apart.
-- Memb/Rings.antt: `ring_info` and the form tokens. Memb/Form.antt: Sort_reps, Form_or_fail and
--   Create_form1; Form/Fill.antt: Fill_form1; Form/Read.antt: Read_form2, Memb_handle_form1,
--   Memb_handle_form2 and Memb_handle_token. The rings on a token are a list, and what Create_form1
--   leaves unset in the token is an argument. Form/Sets.antt looks at the sets that Insert_member
--   collects, Form/Holes.antt at the holes, Form/Told.antt at what a ring tells, and Form/Agree.antt
--   at the packets that are given up.
-- Memb/Init.antt: Memb_init.
-- Memb/Discipline.antt with Discipline/Joins.antt, Discipline/Packets.antt, Discipline/Fill.antt,
--   Discipline/Tokens.antt and Discipline/Gather.antt: which timers may wait in which state.
-- Memb/Regular.antt: Memb_active_ptr, Memb_commit, Memb_transitional and Memb_regular;
--   Regular/Transitional.antt proves whom Memb_transitional chooses.
-- Prot/Store.antt: packets, tokens, and the variables of daemon/prot_body.h. A buffer is a number for
--   its content.
-- Prot/Deliver.antt: Deliver_packet, Deliver_reliable_packets, Deliver_agreed_packets and
--   Discard_packets outside EVS. Deliver/Stream.antt follows what has been delivered; Deliver/Order.antt
--   has the state that all of them keep, Deliver/Early.antt the packets delivered before their turn,
--   Deliver/Discard.antt the discarding,
--   Deliver/Extend.antt a ring to which a packet is added, Deliver/Empty.antt the entries that stay empty.
-- Prot/Receive.antt: the packets of a datagram, in Prot_handle_bcast; Receive/Insert.antt proves that
--   they keep that state; Receive/Agreement.antt looks at two daemons of one ring;
--   Receive/Datagram.antt reads a datagram that is laid out with padding.
-- Prot/Net.antt: Net_queue_bcast and Net_flush_bcast; Net/Layout.antt says how a datagram is laid out,
--   Net/Packed.antt follows the datagrams. A datagram is the list of its elements, each a header, the
--   content of a buffer, or padding; a read that does not start where an element starts is `none`.
-- Prot/Send.antt: Prot_set_down_queue, Prot_new_message and Send_new_packets; Send/Whole.antt looks
--   at the queue, Send/Ordered.antt and Send/Packet.antt at one packet, Send/Extends.antt at
--   the loop.
-- Prot/Token.antt: Answer_retrans, the requests of the daemon, the aru of the token and the counters in
--   its type; Token/Requests.antt, Token/Aru.antt and Token/Bits.antt prove about them.
-- Prot/Evs.antt: Discard_packets in state EVS.
-- Prot/Handle.antt with Handle/Token.antt: Prot_handle_bcast, Prot_handle_token, Prot_token_hurry and
--   Handle_hurry on the whole daemon; Handle/Rounds.antt, Handle/Turn.antt and Handle/Whole.antt prove
--   about the token.
-- Groups.antt: the structures of daemon/sess_body.h with G_compare_memb_ids, the searches,
--   G_remove_daemon, G_remove_mailbox and G_update_daemon_memb_ids of daemon/groups.c; State.antt
--   has the variables of the file and the groups messages, Names.antt G_private_to_names,
--   Notices.antt the G_send_* and G_build_memb_* functions, Handlers.antt G_handle_join,
--   Departures.antt G_handle_leave, G_handle_kill and G_remove_group, Exchange.antt the groups
--   messages that daemons send each other and the synced sets, Memberships.antt
--   G_handle_trans_memb and G_handle_reg_memb, Gathering.antt G_handle_groups and
--   G_compute_and_notify. Names/Private.antt, Notices/Listed.antt, Notices/Sets.antt and
--   Exchange/Synced.antt prove about one function each. Whole.antt says what a group keeps to:
--   Whole/Join.antt and Whole/Daemon.antt follow a joiner; Whole/Mailboxes.antt,
--   Whole/Extract.antt, Whole/Departure.antt, Whole/Leaving.antt, Whole/Leave.antt and
--   Whole/Kill.antt one who goes; Whole/Cut.antt, Whole/Eliminate.antt and Whole/Restart.antt the
--   memberships. Listed.antt is about the comparison of daemons. The skip lists of stdutil are
--   sequences behind the interfaces `Skiplist` and `DaemonsList`, of which the second fails where
--   an assertion of its comparison does, and what the handlers read of other files is in `Env`;
--   all are arguments. A structure that is changed through its pointer is written back in its
--   place. Groups messages are structures with a count of their bytes.
-- Tests: runs on small inputs, and each theorem at an input that meets its hypotheses.
--
-- An exit by Alarm( EXIT, ... ), an assertion that fails, and a read of a `proc` that was not
-- found, is `none`. A process id is its 32 bits as a number. A `size_t` has 64 bits. Sequence
-- numbers are numbers without bounds: the protocol starts again at 0 with each membership. An
-- `fd_set` is a function of the descriptor, so that a write of the bit FD_SETSIZE is not seen.
-- Packets are in the byte order of the machine, as after Flip_members and Flip_reps. Loops run
-- over their arrays or on the number of rounds left; four have fuel: the loop of Send_new_packets
-- one more than the elements that wait, since each round sends one; the loop of Prot_handle_bcast
-- the bytes received, since each round reads a header of 36; the loop of G_add_to_synced_set the
-- sizes of both sets, since each round takes a process; and the loop of G_build_new_groups_bufs
-- the number of groups and daemons, since each buffer is to take one at least. Where a daemon has
-- so many members that it fits no buffer the code builds buffers for ever, and the rounds run out.
--
-- Not modelled: the room in the buffer in which a form token is built, a count of -1 pending
-- members on one, the calls of descriptor handlers in E_handle_events, loading and reloading a
-- configuration, the sockets of the network, the sessions, and the client libraries. Of the
-- groups, the objects that G_init makes, the group masks, G_analize_groups, G_get_num_local,
-- printing, and the bytes and the byte order of groups messages are left out. stdutil is a copy of
-- another library.
pub mod Prelude
pub mod Events
pub mod Conf
pub mod Flow
pub mod Groups
pub mod Memb
pub mod Prot
pub mod Tests
