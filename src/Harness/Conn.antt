-- ===== src/Harness/Conn.antt =====
-- conn.go: `PipeConn`, over two buffers of the harness, which the harness holds too.
pub mod Closing
use icesmtp.Harness.Pipe
use icesmtp.Harness.Pipe.{PipeBuffer, Taken, failed}
use icesmtp.Prelude.{ℕ, Bool, true, false, Option, none, some, Bytes, codes, ltb, if◌then◌else◌}
use icesmtp.Session.Connection.{Failure, closed_pipe, timed_out}
use icesmtp.Session.Provider.{TlsError, handshake}
use icesmtp.Session.Tls.{TlsConnectionState}

-- What the upgrader of a test returns.
pub data Upgraded : Type 0 where
  secured : PipeBuffer → PipeBuffer → TlsConnectionState → Upgraded
  broken : Failure → Upgraded

pub record PipeConn : Type 0 where
  pub reader : PipeBuffer
  pub writer : PipeBuffer
  pub read_deadline : Option ℕ
  pub closed : Bool
  pub tls_upgrader : Option Upgraded
  pub tls_state : Option TlsConnectionState

unfoldable pub wrap_pipe : PipeBuffer → PipeBuffer → PipeConn
wrap_pipe r w = record {
  reader = r;
  writer = w;
  read_deadline = none;
  closed = false;
  tls_upgrader = none;
  tls_state = none;
}

unfoldable pub set_tls_upgrader : Upgraded → PipeConn → PipeConn
set_tls_upgrader u c = record c { tls_upgrader = some u }

-- `time.Now().After(deadline)`, for a deadline that is set.
abbrev pub is_after : Option ℕ → ℕ → Bool
is_after none now = false
is_after (some t) now = ltb t now

-- One pass of `Read` into `size` bytes, at the time `now`.
unfoldable pub read : ℕ → ℕ → PipeConn → PipeConn × Taken
unfolding Pipe.read
read now size c =
    if c.closed
    then (c, failed closed_pipe)
    else if is_after c.read_deadline now
    then (c, failed timed_out)
    else (let (p, t) = Pipe.read c.reader.read_deadline now size c.reader in
        (record c { reader = p }, t))

unfoldable pub write : Bytes → PipeConn → PipeConn × Option Failure
unfolding Pipe.write
write bytes c =
    if c.closed
    then (c, some closed_pipe)
    else (let (p, e) = Pipe.write bytes c.writer in (record c { writer = p }, e))

unfoldable pub close : PipeConn → PipeConn
unfolding Pipe.close
close c = record c { closed = true; reader = Pipe.close c.reader; writer = Pipe.close c.writer }

-- A buffer has a deadline for reads. It has none for writes, and `SetWriteDeadline` does nothing.
unfoldable pub set_read_deadline : Option ℕ → PipeConn → PipeConn
unfolding Pipe.set_read_deadline
set_read_deadline t c = record c { read_deadline = t; reader = Pipe.set_read_deadline t c.reader }

-- What `UpgradeTLS` returns.
pub data Upgrade : Type 0 where
  upgraded : TlsConnectionState → Upgrade
  upgrader_failed : Failure → Upgrade
  unsupported : TlsError → Upgrade

abbrev upgrade_with : PipeConn → Option Upgraded → PipeConn × Upgrade
upgrade_with c (some (secured r w state)) =
    (record c { reader = r; writer = w; tls_state = some state }, upgraded state)
upgrade_with c (some (broken f)) = (c, upgrader_failed f)
upgrade_with c none = (
  c,
  unsupported (record {
    phase = handshake;
    cause = none;
    message = codes "TLS upgrade not supported on pipe connection";
  }),
)

unfoldable pub upgrade_tls : PipeConn → PipeConn × Upgrade
upgrade_tls c = upgrade_with c c.tls_upgrader
