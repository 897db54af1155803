-- ===== src/Lib.antt =====
-- A verification of the SIP proxy and of the SIP client. The models are functions, so that each can
-- be run on a concrete input, and the theorems are about these functions.
--
-- The program. A transport hands each packet to the dispatcher, which passes it to a worker of the
-- thread pool; the worker calls SIPProxy::handle_packet. This parses the packet, asks
-- SIPRouter::route what is to become of the message, and sends what the router decides. The router
-- answers a REGISTER through RegisterHandler, which writes the registration table; it forwards an
-- INVITE to the registered contact of the callee and keeps, under the Call-ID, a session
-- (CallRegistry, with the state machine of the call) and a context (addresses, transports and
-- headers of both parties); ACK, BYE and responses are forwarded by that context. The client builds
-- its messages with SIPMessageFactory. It registers by sending REGISTER until a reply comes;
-- SIPClient::on_packet_received hands each packet to the receive handler and to
-- SIPInviteHandler::on_message, which answers requests, follows the responses of its call and
-- changes the state manager, and then calls the callbacks. Over TCP, TcpTransport cuts the stream
-- into messages.
--
-- The files, and what they model:
-- Base: byte strings (find, substr, comparison), std::stoi and std::to_string, maps, exceptions, and
--   std::regex_search for the patterns that the client uses (Base/Regex).
-- Sip/Message: common/include/common/sip_message.hpp, common/src/sip_message.cpp, and TransportType of
--   common/include/common/types.hpp. A record field is named as in the source; get_header, set_header
--   and the others are functions on the message.
-- Proxy/Parser: proxy/src/sip_parser.cpp. Stream puts it behind a TCP connection.
-- Proxy/Metrics: proxy/src/metrics_collector.cpp, the counters as 64-bit patterns.
--   Report has the text of to_string, Server and Stopping have proxy/src/metrics_server.cpp.
-- Proxy/Call: proxy/src/call_state.cpp, call_state_machine.cpp, call_session.cpp, call_registry.cpp.
-- Proxy/Registration: proxy/src/registration_table.cpp, register_handler.cpp.
-- Proxy/Router: proxy/src/sip_router.cpp. Helpers has the types and the static helpers, Context has
--   store_call_context, handle_ack and handle_bye, Response has handle_response, Route has
--   handle_register, handle_invite and route. Conversation, InCall, WholeCall and Interleaving are
--   about sequences of messages. A handler takes the state of the router and gives the
--   result with the state after it.
-- Proxy/Server: proxy/src/sip_proxy.cpp. A packet that is sent is a value.
-- Proxy/Address: what the proxy reads out of header values.
-- Networking/Queue: common/include/common/thread_safe_queue.hpp.
-- Networking/Pipeline: networking/src/dispatcher.cpp and networking/src/thread_pool.cpp, as
--   interleaved atomic steps of the threads. Stopping, Stopped and Completes are about the order of
--   SIPProxy::stop, where joining a thread is waiting for its end.
-- Networking/Tcp: networking/src/tcp_transport.cpp. Framing is about the messages of a stream,
--   Connections and Reconnect about the table of sockets.
-- Networking/Udp: networking/src/udp_transport.cpp.
-- Networking/Sockets: networking/src/tcp_socket.cpp and udp_socket.cpp.
-- Logger: common/src/logger.cpp.
-- Client/State: client/src/sip_client_state_manager.cpp.
-- Client/Register: client/src/sip_receive_handler.cpp, client/src/sip_register_handler.cpp.
-- Client/Factory: client/src/sip_message_factory.cpp.
-- Client/Session: the state of client/include/client/sip_client.hpp, with what is sent and what the
--   callbacks are told as lists.
-- Client/Invite: client/src/sip_invite_handler.cpp. A handler takes the client and gives the client.
-- Client/App: client/src/sip_client.cpp, and handle_register of client/src/sip_register_handler.cpp
--   with each packet handled as it comes in.
-- Client/Console: client/src/cli_handler.cpp, as a function of the lines of the input.
-- Ui: ui/src/header_injection_widget.cpp (Headers), main_window.cpp (Window), sip_qt_app.cpp (App).
--   Events is the loop of the window, Buttons, Controls and Consistent are about the buttons.
-- System: the client and the proxy together.
-- Apps: apps/sip_proxy_main.cpp, apps/sip_client_main.cpp.
-- Tests: runs of the models, and the theorems at concrete inputs.
--
-- What stands for what. A std::string is its list of bytes; npos is `none`. An unordered_map is an
-- association list, so that the loops over one take the order in which its keys were put in. A
-- session that is shared through a pointer is the entry of the registry. The one metrics collector
-- of the process is a part of the state of the router. An exception is a value: only the reading of
-- Content-Length catches one, and any other ends the process. A pattern of std::regex is a sequence
-- of classes and greedy repetitions with groups; its search is the leftmost match, with the first
-- alternative and the longest repetitions that let the rest match. Random numbers, the chunks that
-- a socket delivers, the port that it gets, and the packets that arrive while the client waits are
-- given as arguments. Handlers are atomic: the mutexes of the table, the registry and the contexts
-- are not modelled, nor is a change by another worker between two calls under them. The text that
-- goes to the log is left out of the handlers, but for the lines on headers and the transitions of
-- the client.
--
-- The client runs as if one thread had it at a time.
--
-- Bounds. std::stoi is bounded to 32 bits and gives an exception outside them; a port is cut to 16
-- bits, also the one that the factory of a client starts with, which the source keeps as an int
-- until the transport sets it. The CSeq counter has no bound. std::to_string runs on fuel, and n +
-- 1 rounds are enough for n. The loop over a closed queue runs on fuel, one round more than there
-- are items; so does the cutting of a TCP stream, with one round more than there are bytes, and
-- Framing proves that more rounds change nothing. The loop of the console runs on fuel, one round
-- more than there are lines (Console/Ends). The loops over lines, headers and attempts are
-- structural recursions.
--
-- The window. A slot takes the window and the client. The signals that the callbacks emit are
-- queued, and the list of the notices of the client is that queue; a slot that runs later reads the
-- state that the client has by then. The strings of Qt and the system calls of the sockets are
-- parameters (Ui/Qt, Networking/Sockets).
--
-- Not modelled: the layout of the window, what is printed, and the scripts and tests.
pub mod Base
pub mod Sip
pub mod Logger
pub mod Networking
pub mod Client
pub mod Proxy
pub mod Ui
pub mod System
pub mod Apps
pub mod Tests
