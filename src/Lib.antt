-- ===== src/Lib.antt =====
-- smallX, a node of a proxy panel: its Shadowsocks runtime. The agent fetches the node's settings and
-- users from the panel, `Translate` turns them into a configuration, and the service accepts TCP
-- connections and UDP packets, finds the user whose key opens them, reads the target address, checks
-- the target rules and the user's limits, copies the bytes under a rate limit, and counts traffic and
-- devices for the panel's reports.
--
-- Files and code, by paths from the repository's root:
--   Base: lists over native numbers, Boolean tests, 64-bit words, Go's results and maps (association
--     lists with one entry for a key), strings as bytes, sorting.
--   Model: internal/model/model.go. Ss/Types: the types of internal/ss/translate.go.
--   Config: internal/config/config.go. Reading and decoding the file are parameters.
--   Ss/Translate: Translate, derivePassword, parseObfs, parsePluginOpts of translate.go; what they
--     accept and give is described apart from the code in Translate/Secrets, Translate/Plugins and
--     Translate/Ciphers.
--   Ss/Cipher: internal/ss/cipher.go. Ss/Stream: internal/ss/stream.go, with incrementNonce in
--     Stream/Nonce, the frames in Stream/Frames, reader and writer in Stream/Transfer and
--     Stream/Delivery, identifyTCPUser in Stream/Identify and Stream/Authentic.
--   Ss/Service: buildState, needsRestart, Apply, restartLocked, Snapshot and Close of
--     internal/ss/service.go; what the network answers is an argument of a call.
--   Ss/Copy: copyCount, writeWithLimit and waitForLimit of service.go, and the upstream of handleTCP.
--   Ss/Plane: handleTCP, handleUDP, getOrCreateUDPSession, serveUDPSession and closeUDPSessions of
--     service.go. `Plane` is what the handlers share, and a sequence of the events of Plane/Steps is
--     any order of their steps. The start of a handler is one step: it asks the limiter once, it uses
--     the session table once, under `udpMu`, and what it does behind that (the speed limiter that it
--     reads, `seen`) has the same effect before or after the calls that may run in between. Its
--     copies, its end, and the two critical sections of the end of a goroutine are steps of their own.
--   Ss/Packet: encryptUDPPacket, decryptUDPPacket of internal/ss/service.go.
--   Ss/Limits: internal/ss/limits.go. A limiter is a record of its three maps; `acquire` returns the
--     state next to the result; the closure that it returns is a lease that is released once
--     (Limits/Sessions). Calls run under the mutex: a sequence of calls is any order of them.
--   Ss/Traffic, Ss/Online: trafficStore and onlineTracker of service.go; the clock is an argument.
--   Ss/Netip, Ss/Resolver: internal/ss/resolver.go and what it uses of net/netip.
--   Ss/HostPort, Ss/SocksAddr: internal/ss/socksaddr.go and what it uses of net and strconv.
--   Ss/Rules: internal/ss/rules.go.
--   Provider, Panel: internal/provider/provider.go and internal/provider/xboard/client.go. One call is
--     one exchange with a panel, which is a function from requests to answers.
--   Backend: internal/backend: the interface of runtime.go and the three runtimes; Backend/Native is
--     ss_native.go, the translation and the service together.
--   Agent: internal/agent/agent.go over any provider and runtime: syncOnce, pushSnapshot, the loop of
--     Run. Agent/Tracking and Agent/Loss put it together with the client and with the
--     native runtime.
--   Cmd: the choices of cmd/smallx/main.go.
--   Tests: runs at concrete inputs, and the theorems at concrete inputs.
--
-- Numbers and fuel: byte counters are 64-bit patterns and wrap; the product of speedLimitToBytes is
-- a signed 64-bit word; ports are 16 bits; the bytes of a stream are numbers. `itoa` has fuel for 20
-- digits, more than a 64-bit number has; `trim_space` has the length of the text; the loop of
-- DeriveMasterKey has the key size, and adds 16 bytes in a turn; the loop of `Write` has the number
-- of bytes, and sends one at least in a turn.
--
-- Parameters, with what their documentation says as named fields: ciphers, HKDF and MD5 (CryptoLib),
-- base64, golang.org/x/time/rate (RateLib), regexp (RegexLib), texts of IP addresses (NetText,
-- IpText). `to_lower` maps ASCII letters and the two letters outside ASCII whose lower case is in
-- ASCII; other letters stay, which no comparison with a name in ASCII can tell from Go's result
-- (a text that is shown or sent on, as in `Summary`, keeps them).
-- JSON, MessagePack and net/url are a Codec; an `io.Writer` is a Writer; an agent's laws are stated
-- against an Endpoint, a panel whose entity tags name its contents.
-- Not modelled: logging, flags and signals, the accept and read loops around the handlers, dialling
-- and the options of sockets.
pub mod Agent
pub mod Backend
pub mod Base
pub mod Cmd
pub mod Config
pub mod Model
pub mod Panel
pub mod Provider
pub mod Ss
pub mod Tests
