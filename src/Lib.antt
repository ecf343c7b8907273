-- ===== src/Lib.antt =====
-- titan-ipoverlay: traffic of SOCKS5 clients is carried by overlay nodes.
--
-- A pop (ippop) accepts SOCKS5 clients, signs them in, and hands each connection and each UDP packet
-- to a tunnel of a node. Nodes and users are stored in Redis (ippop/model): a user is routed to a
-- node, a node is bound to a user or to none, and the free nodes are those that may be given out.
--
-- The files and what they model:
--
--   Prelude         lists, byte strings, association lists, signed integers, decimal texts, and
--                   computations that return an error and change a state (Prelude/Exec).
--   Socks5/Conn     the client's connection: bytes that arrive, bytes written, writes that succeed.
--   Socks5/Ip       what is used of Go's package net, with the textual forms as a parameter `Net`.
--   Socks5/Username, Address, Datagram
--                   ippop/socks5/protocol.go: paserUsername and validateSession; readAddrSpec,
--                   newRequest, replySocks5Client; datagrams with their parser and their builder.
--   Socks5/Auth, Server
--                   ippop/socks5/socks5.go: authenticate, readUserAndPassword, serveSocks5Conn and the
--                   handlers of the commands. A handler ends in a value that names the call that
--                   follows (HandleSocks5TCP, or the UDP association).
--   Socks5/Counts   ippop/socks5/udp.go, useripcount.go, userudpcount.go and handleSocks5Associate:
--                   the counts of associations and the UDP servers of the users.
--   StructMap       ippop/model/structmap.go: structToMap and mapToStruct on a list of fields.
--   Redis           the server as a parameter: a view of its data and the documented effect of each
--                   command, for pipelines that succeed. A pipeline that fails may have any effect.
--   Model           the records Node and User with their keys and their stored forms.
--   Model/Node      ippop/model/node.go and blacklist.go: HandleNodeOnline, GetNode, SetNodeOffline,
--                   DeleteNodeOnlineData, AddBlacklist, RemoveBlacklist.
--   Model/Bind      ippop/model/bind.go: AllocateFreeNode, AddFreeNode, RemoveFreeNode,
--                   BindNodeWithNewUser, UnbindNode, SwitchNodeByUser.
--   Model/User      ippop/model/user.go and userschedulerlist.go: SaveUser, GetUser, DeleteUser, ZaddUser,
--                   ListUserWithNames and the scheduler's list.
--   Model/Traffic   ippop/model/traffic5min.go, traffichour.go and trafficday.go: the statistics per five
--                   minutes, hour and day, as one text with the constants of a `Period`. The sorted
--                   sets are a parameter, with the documented effect of a pipeline that succeeds.
--                   A list call is the list of what it assigns; Maps has the Go maps made of it.
--   Ws/Rules        ippop/ws/filterrule.go: RulesToMap and isDeny, whose panics are `none`.
--   Ws/Traffic      ippop/ws/usertraffic.go: add, and snapshotAndClear as what it gives (`snapshot`) and
--                   what it leaves (`clear`).
--   Ws/Scheduler    ippop/ws/userroutescheduler.go: isUserNeedToSwithRoute.
--   Ws/SignIn       ippop/ws/tunmgr.go: getUserFromCache and HandleUserAuth, with the cache and MD5 as
--                   parameters.
--   Ws/Sessions     ippop/ws/tunmgr.go: allocateTunnelByUserSession, randomTunnel,
--                   handleUserSessionWhenSocks5TCPClose, collectExpiredSessions and removeSessions.
--   Ws/Switch       ippop/ws/tunmgr.go: switchNodeForUser and SwitchNode.
--   Wire            ippop/ws/proto/message.proto, with protobuf's Marshal and Unmarshal as a parameter,
--                   and what both ends do with a connection: a frame is written or refused. Wire/Flow,
--                   Wire/Session and Wire/View are the frames of a session as a sequence of bytes.
--   Ws/Tunnel       ippop/ws/tunnel.go, tcpproxy.go and udpproxy.go: the pop's end of a tunnel.
--                   Messages has what arrives from the node, Accept what SOCKS5 clients start, with the
--                   end of the tunnel, and Effects what each of them does to a session.
--   Client/Tunnel   client/tunnel/tunnel.go, tcpproxy.go and udpproxy.go: the node's end, in the same
--                   parts; its dialer is a parameter.
--   Pipe            both ends with the frames between them. Pipe/Steps has the steps of the system, of
--                   any session, in any order, and what they do to the bytes of one session;
--                   Pipe/Silence has the keepalive of both.
--   Rpc             ippop/rpc/internal/logic: CreateUser (Create), and DeleteUser, ModifyUser,
--                   ModifyUserPassword, StartOrStopUser, SwitchUserRouteNode, AddBlacklist,
--                   RemoveBlacklist and KickNode (Change), on the calls of ippop/model.
--   Redis/Answering, Model/OneFree
--                   two instances of the Redis interface, which show that its laws can hold.
--
-- Strings are lists of bytes, numbers are native natural numbers or signed integers of 64 bits with
-- their wrap-around written out. The clock and the random ids are arguments. The fuel of the option
-- loop is the number of parts that are left, which each round makes smaller.
--
-- The goroutines of a tunnel are cut into steps at the points where they wait: a message of the
-- websocket, a read of a proxy's connection, the reply to a request, a tick. A step is atomic; each
-- has at most one write to the websocket, which its lock makes atomic, besides the closing of all
-- proxies at the end. A websocket delivers frames in order and once. The session ids of TCP
-- connections are fresh, as random ones are.
--
-- Not modelled: sockets, locks (the maps are used under one lock each, so that a call is one step),
-- the rate limiter, logging, generated protocol code, the benchmark, and the parts that the manifest
-- lists as not modelled.
pub mod Prelude
pub mod Socks5
pub mod StructMap
pub mod Redis
pub mod Model
pub mod Ws
pub mod Rpc
pub mod Wire
pub mod Client
pub mod Pipe
