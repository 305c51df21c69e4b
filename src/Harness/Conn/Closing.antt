-- ===== src/Harness/Conn/Closing.antt =====
-- A pipe connection that was closed.
use icesmtp.Harness.Conn
use icesmtp.Harness.Conn.{PipeConn, Upgraded, secured, broken, upgrade_tls, set_tls_upgrader}
use icesmtp.Harness.Pipe.{failed}
use icesmtp.Prelude.{
  ℕ, true, List, [], ◌∷◌, Option, some, Bytes, ◌≡◌, refl, ◌∙◌, Option-cases, inl, inr,
}
use icesmtp.Session.Connection.{closed_pipe}

-- The calls on a connection.
pub data Op : Type 0 where
  take_bytes : ℕ → ℕ → Op
  put_bytes : Bytes → Op
  set_deadline : Option ℕ → Op
  set_upgrader : Upgraded → Op
  upgrade shut : Op

unfoldable pub perform : Op → PipeConn → PipeConn
unfolding Conn.read Conn.write Conn.set_read_deadline upgrade_tls Conn.close
perform (take_bytes now size) c = (Conn.read now size c).0
perform (put_bytes bytes) c = (Conn.write bytes c).0
perform (set_deadline t) c = Conn.set_read_deadline t c
perform (set_upgrader u) c = set_tls_upgrader u c
perform upgrade c = (upgrade_tls c).0
perform shut c = Conn.close c

unfoldable pub perform_all : List Op → PipeConn → PipeConn
unfolding perform
perform_all [] c = c
perform_all (o ∷ os) c = perform_all os (perform o c)

upgrade_tls-closed : (c : PipeConn) → (upgrade_tls c).0.closed ≡ c.closed
unfolding upgrade_tls
upgrade_tls-closed c = elim (Option-cases c.tls_upgrader) [
  | inl h ↦ rw h
  | inr (secured r w state, h) ↦ rw h
  | inr (broken f, h) ↦ rw h
]

perform-closed : (o : Op) (c : PipeConn) → c.closed ≡ true → (perform o c).closed ≡ true
unfolding perform Conn.read Conn.write Conn.set_read_deadline set_tls_upgrader Conn.close
perform-closed (take_bytes now size) c h = rw (h, Conn.read)
perform-closed (put_bytes bytes) c h = rw (h, Conn.write)
perform-closed (set_deadline t) c h = h
perform-closed (set_upgrader u) c h = h
perform-closed upgrade c h = upgrade_tls-closed c ∙ h
perform-closed shut c h = refl

perform_all-closed :
    (os : List Op) (c : PipeConn) → c.closed ≡ true → (perform_all os c).closed ≡ true
unfolding perform_all
perform_all-closed [] c h = h
perform_all-closed (o ∷ os) c h = perform_all-closed os (perform o c) (perform-closed o c h)

-- Once a connection was closed, whatever is called after that, an upgrade to TLS among it, a read
-- and a write end with a closed pipe, and neither touches a buffer.
pub perform_all_of_close :
    (c : PipeConn) (os : List Op) (now size : ℕ) (bytes : Bytes)
    → let d = perform_all os (Conn.close c) in
      (Conn.read now size d ≡ (d, failed closed_pipe))
      × (Conn.write bytes d ≡ (d, some closed_pipe))
unfolding Conn.read Conn.write
perform_all_of_close c os now size bytes =
    let shut_down = perform_all-closed os (Conn.close c) (unfold Conn.close in refl) in
    (rw (shut_down, Conn.read), rw (shut_down, Conn.write))
