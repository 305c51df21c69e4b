-- ===== src/Session/Connection.antt =====
-- conn.go: `BufferedConn`, as the engine meets it. Each call of `ReadBytes('\n')` has a result that
-- the client and the network choose, and so have each write and the TLS handshake. A deadline that
-- passes is such a result.
use icesmtp.Prelude.{
  ℕ, suc, Bool, true, false, List, [], ◌∷◌, ◌++◌, Option, none, some, Bytes, take, drop, length,
}
use icesmtp.Protocol.Reply.{Response}
use icesmtp.Session.Tls.{TlsConnectionState}

-- The errors, as `isIOError` and `isTimeoutError` and the main loop tell them apart. `timed_out`
-- stands for the two deadline errors and every net.Error that is a timeout, `cancelled` for
-- context.Canceled, `refused` for the errors of the parser, of the limits, and of hooks, and `other`
-- for any other error of the connection.
pub data Failure : Type 0 where
  eof unexpected_eof closed_pipe timed_out cancelled refused other : Failure

unfoldable pub is_io_error : Failure → Bool
is_io_error eof = true
is_io_error unexpected_eof = true
is_io_error closed_pipe = true
is_io_error _ = false

unfoldable pub is_timeout_error : Failure → Bool
is_timeout_error timed_out = true
is_timeout_error _ = false

pub data Read : Type 0 where
  line : Bytes → Read
  failed : Failure → Read

-- What a handshake leads to: the state, the number of plain lines that the buffered reader holds
-- at that time, and the reads of the encrypted stream with the error behind them.
pub data Handshake : Type 0 where
  secured : TlsConnectionState → ℕ → List Read → Failure → Handshake
  broken : Handshake

-- `reads` are the results to come, and `at_end` is that of each read behind them. `held` lines at
-- their front stand in the buffer since before the handshake. `writes` are the results of the
-- writes to come, behind which each succeeds, and `sent` is what was written.
pub record Connection : Type 0 where
  pub reads : List Read
  pub at_end : Failure
  pub held : ℕ
  pub clock : ℕ
  pub handshake : Handshake
  pub writes : List (Option Failure)
  pub sent : List Response

-- The front of the reads, and the connection behind it. The clock counts the reads.
abbrev pub pop_read : Connection → List Read → Read × Connection
pop_read c [] = (failed c.at_end, record c { clock = suc c.clock })
pop_read c (r ∷ rs) = (r, record c { reads = rs; clock = suc c.clock })

-- `ReadLine`.
unfoldable pub read_line : Connection → Read × Connection
read_line c = pop_read c c.reads

abbrev pub pop_write : Response → Connection → List (Option Failure) → Connection × Option Failure
pop_write r c [] = (record c { sent = c.sent ++ r ∷ [] }, none)
pop_write r c (none ∷ ws) = (record c { writes = ws; sent = c.sent ++ r ∷ [] }, none)
pop_write r c (some f ∷ ws) = (record c { writes = ws }, some f)

-- `Write` of a whole response.
unfoldable pub write : Response → Connection → Connection × Option Failure
write r c = pop_write r c c.writes

-- `UpgradeTLS` puts the encrypted stream in the place of the plain one. The buffer stays.
abbrev pub upgrade_to : Connection → Handshake → Connection × Option TlsConnectionState
upgrade_to c (secured state held reads at_end) =
    let kept = take held c.reads in
    (record c { reads = kept ++ reads; at_end = at_end; held = length kept }, some state)
upgrade_to c broken = (c, none)

unfoldable pub upgrade_tls : Connection → Connection × Option TlsConnectionState
upgrade_tls c = upgrade_to c c.handshake

-- `ResetReader` drops what the buffer holds.
unfoldable pub reset_reader : Connection → Connection
reset_reader c = record c { reads = drop c.held c.reads; held = 0 }
