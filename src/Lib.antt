-- ===== src/Lib.antt =====
-- The SIP proxy's own logic: the headers of a message and their text, the pool of backends with its
-- sessions, the tables of routes, the transports and resolvers, and where the proxy sends a
-- message.
--
-- The program. A transport hands the bytes of a message to ParseMessage (message.go), which keeps
-- the headers as texts; an accessor parses a header when it is first asked for and stores the
-- result in the message. The proxy (proxy.go) marks the top Via of a request with the address it
-- came from, drops a Route that names itself, and finds the next hop by Route, by configured route
-- (preconfig_route.go), or among its backends (backend.go), where sessions keep a call on one
-- backend. A response loses the top Via and goes where the next one says. Transports that messages
-- came in on are learned (self_learn_route.go), and receive buffers are pooled
-- (byte_array_pool.go). What leaves the proxy goes over client transports that a manager keeps by
-- address (transport.go); the names of hosts are resolved from the configuration or by DNS, and a
-- change of the addresses of a host changes the pool of its backends (resolver.go).
--
-- Files and code.
--   Prelude, Text: errors, integers, lists and what the code uses of package strings, strconv and fmt
--     on bytes; Text.Format is Fprintf with no operands, since the code passes data as the format.
--   KeyValue: key_value.go, generic_param.go, and the loops over parameters in via.go.
--   Via: via.go (ParseVia, Via.String, CreateVia). SipUri: sip_uri.go (ParseSipURI, SIPURI.Write).
--   Address: addr_spec.go, absolute_uri.go, name_addr.go. Party: from_spec.go and to.go, whose types
--     have the same fields. Routes: route.go and record_route.go. CSeq: cseq.go.
--   Message: the list of headers of message.go; Message.Access the typed accessors (GetVia, PopVia,
--     SetReceived), Message.Ids the identifiers (GetDialog, GetSessionId, GetServerTransaction, with
--     dialog.go and transaction.go), Message.Wire the text (ParseMessage, Write). Message.Vias and
--     Message.Transactions have the laws of Via headers that are still texts.
--   Pool: RoundRobinBackend and BackendFactory of backend.go. Session: LocalSessionBasedBackend,
--     RedisSessionBackendAddrMgr and MasterSlaveRedisSessionBasedBackend of backend.go.
--   SelfLearn: self_learn_route.go. PreConfigRoute: preconfig_route.go. BufferPool:
--     byte_array_pool.go. Identity: MyName of proxy.go. Proxy: the rest of
--     proxy.go that is modelled. Dict: Go's maps with string keys. Tests: concrete runs.
--   Dispatch: ProxyItem and its functions in proxy.go, the interface SessionBasedBackend of backend.go
--     with its three implementations as records of operations; Dispatch.Choice: Proxy.sendToBackend;
--     Dispatch.Stores: the store that NewProxy makes.
--   Loop: Proxy.handleRawMessage; Loop.Sends: the rest of one round of receiveAndProcessMessage, with
--     findClientTransport, sendRequest, sendResponse and handleSession, over the proxy's whole state.
--   Clients: ClientTransportFactory and FailOverClientTransport of transport.go; Clients.Manager:
--     ClientTransportMgr.
--   Stream: TCPBackend of backend.go, TCPClientTransport and UDPClientTransport of transport.go.
--   Config: what the configuration of main.go becomes, with createViaConfig and
--     CreateRoundRobinBackend of backend.go.
--   Server: RawMessage, UDPServerTransport and TCPServerTransport of transport.go.
--   Resolver: PreConfigHostResolver and DynamicHostResolver of resolver.go, and util.go.
--
-- Correspondence. A text is the list of its bytes. `int` is a natural number or a negative one;
-- parsing one has the bounds of an int64, and the product of a duration wraps as an int64. A
-- function with an error returns a Result; one that changes its receiver returns the new value, and
-- an accessor of a message is a function from the message to a result and the message that it
-- leaves. A value written through a pointer that an accessor returned is stored back in the header.
-- An operation under a lock is one step. Every reading of the clock is an argument, since one
-- operation may read it several times. A loop over a map goes by the order of a list that stands
-- for any order.
--
-- Bounds and fuel. `parse_lines` reads at most as many lines as its fuel, which `parse_message`
-- sets above the length of the input; every line takes a byte at least. `digits` has fuel for the
-- twenty digits that an int64 needs at most. `receive_messages` reads at most as many messages as
-- its fuel, which `tcp_receive` sets above the length of the input. Where either runs out of fuel the
-- error is `out_of_fuel`, which stands for no error of the code. Every other loop is structural; the
-- two rounds of a send over TCP are the code's own bound.
--
-- Shared objects. Client and fail-over transports, connections, callbacks and the pools of items
-- are shared by pointer in the code; each is a number here, its place in a list or its name.
--
-- Parameters. What a network send, a dial, a DNS lookup, url.Parse, the functions of package net on
-- addresses, regexp, the environment and a random UUID answer are arguments. A goroutine that is
-- started stands in a queue; Resolver.Sync and Resolver.Overtaking say what their order matters.
--
-- Not modelled: sockets, and the goroutines and channels between the parts; reading the
-- configuration, the command line, logging and the start of the program (main.go, register.go);
-- random identifiers (util.go).
pub mod Address
pub mod BufferPool
pub mod CSeq
pub mod Clients
pub mod Config
pub mod Dict
pub mod Dispatch
pub mod Identity
pub mod KeyValue
pub mod Loop
pub mod Message
pub mod Party
pub mod Pool
pub mod PreConfigRoute
pub mod Prelude
pub mod Proxy
pub mod Resolver
pub mod Routes
pub mod SelfLearn
pub mod Server
pub mod Session
pub mod SipUri
pub mod Stream
pub mod Tests
pub mod Text
pub mod Via
