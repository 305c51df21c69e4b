-- ===== src/Lib.antt =====
-- icesmtp: the SMTP server engine of this repository, from a line of the client to a stored message.
--
-- The program is a Go package with one session per connection. `Engine.Run` (engine.go) greets
-- the client, then reads a line at a time, parses it (parser.go, command.go), checks the verb
-- against the state machine (statemachine.go, state.go), and calls a handler, which answers with
-- a response (reply.go) and fills an envelope builder (envelope_builder.go, envelope.go) under
-- the limits of the session (limits.go, session.go). DATA streams the message into the builder;
-- STARTTLS makes the main loop upgrade the connection (conn.go, tls.go) and start over.
--
-- Which file models which part:
--   Prelude             names that the others share; tests and lists over the native numbers
--   Text                what the source uses of Go's strings, bytes and fmt
--   Protocol.State      state.go: State and its predicates
--   Protocol.Command    command.go: CommandVerb, AllowedCommands, the argument rules
--   Protocol.Machine    statemachine.go: StateMachine; `transition`, `transition_for_command`,
--                       `reset` and the others return the machine and the error
--   Protocol.Reply      reply.go: Response and its bytes
--   Limits              limits.go and session.go: SessionLimits and the checks;
--                       Limits.Policy: PolicyResult
--   Parser.Line         parser.go: ParseCommand; Parser.Path: ParseMailPath; Parser.Host:
--                       ParseHeloHostname; Parser.Dots: DataLineReader
--   Envelope            envelope.go; Envelope.Build: envelope_builder.go, and its Calls: any calls
--                       on a builder; Envelope.Shared: the array behind a builder and its envelope
--   Session.Tls         tls.go; Session.Connection: conn.go, BufferedConn;
--                       Session.Config: session.go and mailbox.go
--   Engine.State        engine.go: Engine, writeResponse, handleDisconnect and the like;
--                       Engine.Options: NewEngineWithConn and its options
--   Engine.Greet        the handlers of HELO, EHLO, RSET, NOOP, QUIT, VRFY, HELP and STARTTLS
--   Engine.Mail         the handlers of MAIL and RCPT
--   Engine.Stream       streamData; Engine.Data: the handler of DATA
--   Engine.Loop         handleCommand, processOneCommand, performTLSUpgrade and Run
--                       Engine.Loop.Closing: Close, called while the main loop runs;
--                       Engine.Loop.Aftermath: what follows a failed DATA
--   Engine.Arrival      the lines of the client arrive while the engine takes its turns
--   Table               a Go map with string keys
--   Session.Provider    tls_provider.go; Session.Status: mailbox.go, MailboxStatus
--   Mem.Mailbox         mem/mailbox.go: the registry of addresses and domains
--   Mem.Storage         mem/storage.go and storage.go; Mem.Delivery: a session with both
--   Harness.Pipe        harness/harness.go: PipeBuffer; Harness.Transcript: Transcript;
--                       Harness.Client: Send, SendData, Expect and readResponse;
--                       Harness.Options: the options; Harness.Conversation: RunConversation;
--                       Harness.Conn: conn.go, PipeConn over these buffers
--   Logger              logger.go: StdLogger
--   Custom              examples/custom_policy/main.go: the two policies
--   Servers             examples/: the configurations of the servers, and what they store
-- The modules below these hold the proofs. Tests holds sessions that run, and witnesses.
--
-- How code becomes definitions. A handler takes the engine and returns it, changed, with its
-- response; a panic of the source (a call through a nil envelope or TLS provider) is `none`.
-- A string or a byte slice is the list of its bytes. Sizes and limits are natural numbers, and a
-- limit of 0 is no limit; the counters are not bounded by 2^63. The SIZE that a client declares is
-- read into an int64 as Sscanf does it, with no value where that overflows.
--
-- The outside. A connection is the list of results that its reads will have, the error of every
-- read behind them, the results of its writes, and what a TLS handshake leads to; a deadline that
-- passes is such a result. The context is asked by the number of reads made. The mailbox, the
-- sender policy, the storage, the TLS provider and the OnCommand hook are functions of the number
-- of the command and of their arguments, so that they may answer differently each time; what the
-- hooks are told and what the storage takes is kept in the engine. Identifiers, times, the names of
-- cipher suites and Unicode's case tables are parameters. TrimSpace and Fields know all white
-- space of Unicode in UTF-8.
--
-- `run` takes the number of rounds that the main loop is given, and says `out_of_rounds` where
-- they do not suffice. A round takes a read, upgrades the connection, which happens once at most,
-- or ends the session, so that a number above that of the reads, plain and encrypted, is enough
-- where the errors behind them end a session. The fuel of `decimal` is the number itself.
--
-- A method of the mailbox, the storage or a provider changes its state under one hold of its lock,
-- so that calls from several goroutines are a sequence of calls. The harness meets its engine in
-- the two buffers only: what the engine wrote so far stands in the output, and a call that waits
-- for more says so. Its `read_response` is given one round more than there are bytes to read.
-- Certificates are of any type, and what the loading of one returns is an argument. A logger keeps
-- the lines that it was asked to print, and `int_to_str` is `none` where the source would write
-- in front of its buffer.
--
-- A script of the harness meets the engine by what the engine writes for each step, which is an
-- argument. Several sessions share a storage by the sequence of what they store.
--
-- Not modelled: the calls of a logger from the engine, which have no effect on it; the checks of
-- crypto/tls; NetConn and TimeoutReader, and a session over a Conn other than the buffered one;
-- `Start` of the harness, which runs the engine in a goroutine; the listeners, signals and log lines
-- of the examples; a Close from another goroutine in the middle of a handler; an envelope factory
-- other than the standard one; a write that fails half way, which is taken to have written nothing.
mod Prelude
pub mod Text
pub mod Table
pub mod Protocol
pub mod Limits
pub mod Parser
pub mod Envelope
pub mod Session
pub mod Engine
pub mod Mem
pub mod Harness
pub mod Logger
pub mod Custom
pub mod Servers
mod Tests
