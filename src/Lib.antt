-- ===== src/Lib.antt =====
-- https_tunnel_proxy: a tunnel for HTTPS traffic with billing by volume. A client library (sdk/)
-- opens tunnels to a proxy server (tms/), which asks a recorder (trafficRecorder/) about tokens and
-- balances that are kept in Redis, and announces each login to a traffic meter (ic-dpi/). The meter
-- captures the packets of the server's host, counts what each client address has cost, and reports
-- to the recorder, which deducts the reports from the balances. The programs exchange packed
-- structs behind a header of six bytes.
--
-- Files and the code that they are about:
--   Base: names shared by all files; Tests (Boolean tests), Lists, Int (machine integers), State (code
--     that changes a state), Decimal (printed numbers).
--   Wire: tms/tms/TMSMessage.h. Bytes has the header and little-endian fields; MessageEnum and
--     RespCode the constants; Messages the structs with their bytes (`encode_...`, `decode_...`);
--     RoundTrip.
--   Dpi: ic-dpi/ic-dpi. Predict is `TelecomTrafficPredict`; Counter/Update the bodies of
--     `OnTrafficReport`, `OnUserLogin` and `OnTrafficReportReply` of LvldbMgr.cpp on one entry,
--     Counter/Conserve and Counter/Outstanding their histories; Table the same operations on the
--     cache; Packet is `dpi_packet_process` of PcapModule.cpp; Stream is `StreamRecvEvent` of
--     ConnectMgr.cpp, with Steps (one round), Chunks (cuts of the stream) and Deliver (framed
--     messages); Handler is `HandleRecvMsg`.
--   Tms: tms/tms. Types has `User` and `SCB`; Accounting the traffic functions of UserMgr.cpp, and
--     Accounting/Ledger a user with several streams; ScbMgr is `SCBMgr` of SCB.h, with Fresh
--     (numbers of control blocks) and Watch (the scan of watched blocks); Dns is `req_fill` and
--     `res_parse` of DnsCache.cpp, with Dns/Names and Dns/Answers; WaitLists is `AddWaitLists` and
--     `ExpireWaitLists`; Download the way of bytes from a web server to a tunnel in
--     ConnectMgr.cpp, with Download/Delivery and Download/Repeat. World is the server's whole
--     state (`Connect`, `ConnectMgr`, `UserMgr`) with World/Action, what a method does to it;
--     Connection has `SendTmsMsg`, `CreateAgentConn`, `ConnectWebServer`, `CreateSCB`,
--     `RetrieveUser` and `NewForwardId` (Connection/ForwardIds); Login is LOGIN_REQ, with
--     Login/Attach and Login/Unverified (before the recorder's answer), Login/Again (a second
--     login) and Login/Hosts (`IpOrHost`); Session is BEGIN_TRANSMIT and READ_TOKEN_RSP, with
--     Session/Stream (a client's objects), Session/Complete (up to READY), Session/EndToEnd (with
--     the client's answer) and Session/Refused; Removal is `RemoveConn` and `~Connect`, with
--     Removal/Ends; Events is `HandleAcceptEvent`, `HandleEPOEvent` and `InformShutdownUser`, with
--     Events/Accept, Events/Again and Events/Shutdown; Inform is `DnsRecvEvent` and
--     `InformClients`, with Inform/Waiting, Inform/Asking and Inform/ByName; Forward is the
--     charges and the forwarding of `StreamRecvEvent`, with Forward/Upload.
--   Recorder: trafficRecorder/trafficRecorder/TRNet.cpp. Redis is the server as a parameter;
--     CString `strlen` and `memcmp`; Token READ_TOKEN_REQ; Traffic TRAFFIC_REPORT, and Billing
--     what it does to the balance; Pool is redis_conn_pool.cpp, with Pool/Shared.
--   Sdk: sdk/sdk. Tls is the search for the server's name in YMEUtils.cpp, with Tls/Scan; Login
--     what LOGIN_RSP says and does. World is the state of the client (`Connect` and `ConnectMgr`
--     of ConnectMgr.h, the globals of SdkEnv.cpp), with World/Action; Recycler has `CRBNew`,
--     `CRBDelay` and `CRBDelete` of Recycler.cpp, Recycler/Scan `CRBScan`, and Recycler/Delay is
--     about a block that was delayed; Connection has the events, `SendMsg`, `SendTmsMsg`,
--     `~Connect`, `HandleAcceptEvent`, `CreateConn` and `RemoveConnect` of ConnectMgr.cpp; Session
--     is `HandleRecvMsg`, with Session/Opens and Session/Arrives (a successful login); Stream is
--     `StreamRecvEvent` and `HandleEPOEvent`, with Stream/Fill and Stream/Relay (Download, Flush,
--     Run, Watched: a download); Request parses the requests of local programs (Request/Connect,
--     Request/Host); Proxy is `ProxyRecvEvent`, `HandleProxyProtocol` and `HandleRecvEvent`; Env
--     is `YMESet` and `YMEGet` of SdkEnv.cpp, with Env/Settings; Calls has `YMEConnectable` and
--     `YMEShutDown`; MainLoop is a round of `SdkMainLoopRun`, with MainLoop/Crash.
--   Tests, in each part but Wire, Tms/NetworkTests, Tms/SessionTests, Tms/WaitingTests (with
--     Tms/SessionData), Sdk/DownloadTests, Sdk/RequestTests and Sdk/RecyclerTests: runs on
--     concrete input.
--
-- How the code is modelled: a C integer is the number of its bit pattern, with the wrap-around
-- written out; a pointer is an address in a heap that is a function; an operation takes the state
-- and gives the new state with what it sends. Times are arguments. A loop runs on fuel and gives
-- `none` without it. One round of each compare-and-swap loop is enough where no other thread comes
-- between (`loop_fuel`); the loop over a socket needs at most one round more than the bytes that it
-- holds; names and records of an answer are read with the length of the message and one as fuel.
-- The calls of `connect` stand in the trace of calls with their address and port.
--
-- Parameters: LevelDB's cache (`LruCache`, with three laws), the Redis server (`Redis`; Billing
-- adds `BalanceLaws`), the handler of complete messages in Dpi/Stream, and the operating system of
-- the proxy server and of the client (a `System` each), whose answers read the calls made so far;
-- the proxy server's `epoll_ctl` is taken to succeed. The client's `recv` is a list of chunks.
--
-- Not modelled: the vendored LevelDB and libgo, epoll and socket calls, log lines, the interleaving
-- of threads inside one function of the meter, the proxy server's creation of the fixed
-- connections; of the client library the replies to callers without a local program
-- (`HandleRecvHttp`, `YMESend`, `YMEReqPage`), the page cache, and the orders that go through curl.
pub mod Base
pub mod Wire
pub mod Dpi
pub mod Tms
pub mod Recorder
pub mod Sdk
