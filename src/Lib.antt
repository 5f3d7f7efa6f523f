-- ===== src/Lib.antt =====
-- A model of go-managesieve, a ManageSieve (RFC 5804) library, with the theorems that make it correct.
--
-- The program has three packages that matter here. managesieve/ holds the wire types and helpers that
-- server and client share. managesieveserver/ serves connections: parser.go reads lines, tokens and
-- literal markers, conn.go runs the command loop over a session that the application gives
-- (session.go), with the errors of errors.go and the options of options.go. managesievemem/ is a
-- session over a store in memory, and managesieveclient/ is a client.
--
--   Common, Common/*     Booleans, byte strings and list lemmas that all parts share, the deadlines of a
--                        network connection (Timers), and Go's signed integers (Integers)
--   Text/*               the parts of Go's library the code uses: UTF-8 decoding, TrimSpace, prefixes,
--                        Split and Join, %d, base64; strings are lists of bytes
--   Wire, Wire/*         managesieve/managesieve.go and managesieve/extensions.go
--   Server/Parser        managesieveserver/parser.go: parseLine, parseTokens, unquoteString,
--                        literalLength and parseInt64; its children prove quoting, numbers, requests
--                        and the termination of the token loop
--   Server/Reader        parser.go: readBoundedLine, over a model of bufio.Reader with its buffer of
--                        4096 bytes, the segments that the network delivers, and the error behind them;
--                        Lines and Full relate it, and io.ReadFull, to the unsegmented stream
--   Server/Errors, Server/Options, Server/Session
--                        errors.go, the options that a connection reads, with their defaults in
--                        Options/Defaults, and the session interface
--   Server/Conn/State    type Conn of conn.go with its response and error helpers
--   Server/Conn/*        Capabilities (sendCapabilityBlock, sendGreeting), Literals (resolveLiteralArgs,
--                        readScriptArgument, readAuthLiteral), Auth (handleAuthenticate, handleLogin,
--                        handleStartTLS, Hijack), Scripts (the eight script handlers), Dispatch
--                        (dispatch, dispatchUnknown), Serve (serve, shutdownBye, close),
--                        Accept (handleConn of managesieveserver/server.go), Deadlines
--                        (nextReadDeadline, setReadDeadline, setDeadline, forceReadUnblock)
--   Server/Conn/Quiet    what helpers leave alone; Protocol the abstract machine of what a client can
--                        change; Refinement the runs of the code in it; Guard and Termination what
--                        follows; Enforcement, Limits, Responses, Answers and Rejections are about
--                        single rules
--   Server/Listener      managesieveserver/server.go: the accept loop of Serve, recoverConn,
--                        isTLSConn
--   Server/Shutdown      server.go: the tracked connections and Close, interleaved with what the
--                        connections do; Ending joins it to the command loop
--   Store/Scripts        managesievemem/store.go: the scripts of an account and what the methods do to
--                        them; Lookup, Renaming, Shape, Operations prove its shape, Contract and Outcomes
--                        relate it to a map from names to entries, without order
--   Store/Memory         the accounts, the login and the session's methods; Accounts runs the calls of
--                        several sessions in any order, Isolation separates users, Admission is about
--                        the login, Methods about PutScript, GetScript, HaveSpace and SetActive as wholes
--   Client/Responses     managesieveclient/client.go: isStatus, parseCapabilityLine, closingQuote, unquote
--   Client/Lines         client.go: readLine over bufio's ReadLine; Stream relates it to the
--                        unsegmented stream, Limit bounds it
--   Client/State, Client/Operations
--                        client.go: type Client with readCapabilityBlock, writeCmd and the arming of
--                        deadlines, and NewClient with the operations
--   Client/*             Capabilities, Blocks, Upgrade, Guard are about the client alone; Greeting, Login
--                        and Dialogue put it against the server's own definitions, Dialogue/Accounts
--                        against the server with the in-memory store
--   Examples/*           tests, and the theorems at concrete inputs
--
-- Correspondence. A connection is a record of state that each handler takes and returns. What it does
-- to its surroundings is recorded in a trace, newest first: bytes written, flushes, calls of the
-- session's methods, the TLS handshake, hooks, and the two closings. The session is a record of
-- functions over a state of the application's own. The outcomes of flushes, the TLS handshake, the
-- clock and the cancellation of contexts are parameters. Handlers in Go's names, in snake case, are
-- split where the code branches on the result of a call. Numbers are natural numbers; parse_int64 and
-- the error delay write out the 64-bit wrap. A script that `find` gives is changed in place in the list
-- that holds it. The store's mutex makes each method one step, SetActive two.
--
-- Fuel. The token loop takes the length of its text, and is proved never to run out; the line reader
-- takes the length of what is left to read, and is proved equal to its specification, which has no
-- fuel. resolve_literal_args takes the length of what is left to read, serve a number of rounds; that
-- both are enough is shown in Server/Conn/Termination, since each round reads a line.
--
-- Time. A deadline is never, a time, or expired; that a read behind an expired deadline gives only
-- what is buffered is the network's part and a named hypothesis where it is used. Close of the
-- server and the client's guard are lists of steps, one for each section under a mutex and for each
-- SetDeadline outside of it, with any other steps between them.
--
-- The client's readLine takes the length of what is left to read as its fuel, which is proved enough;
-- readCapabilityBlock counts down MaxCapabilityLines. Dialing, the TLS handshake and the outcome of
-- writes are parameters of the client as they are of the server.
--
-- Not modelled: that an expired deadline wakes a blocked read, except that nothing more arrives;
-- logging; goroutines and waiting for them; opening listeners; the cause of a panic; the position
-- in the text of a base64 error; options that are negative where the code tests them by `> 0` (0
-- stands for no limit), but for Options/Defaults. unicode.ToUpper beyond ASCII is a parameter.
pub mod Common
pub mod Text
pub mod Wire
pub mod Server
pub mod Store
pub mod Client
pub mod Examples
