-- ===== src/Engine/Loop/Upgrade.antt =====
-- engine.go and conn.go: what a STARTTLS upgrade leaves behind.
use icesmtp.Engine.Loop.{perform_tls_upgrade, finish_upgrade}
use icesmtp.Engine.State.{Engine}
use icesmtp.Prelude.{ℕ, true, List, [], Option, none, some, ◌≡◌, refl, take, arith}
use icesmtp.Protocol.State.{greeted, start_tls}
use icesmtp.Session.Connection.{Connection, Failure, Read, secured, upgrade_tls, reset_reader}
use icesmtp.Session.Tls.{TlsConnectionState}
use icesmtp.Text.Search.Laws.{drop-append}

-- The session after the upgrade knows nothing of what came before it, and reads the encrypted
-- stream from its start.
pub record IsRenewed (s : TlsConnectionState) (secret : List Read) (at_end : Failure) (e f : Engine)
    : Type 0 where
  pub reads : f.conn.reads ≡ secret
  pub ends : f.conn.at_end ≡ at_end
  pub machine : f.sm.state ≡ greeted
  pub shown : f.session.state ≡ greeted
  pub active : f.session.tls_active ≡ true
  pub tls_state : f.session.tls_state ≡ some s
  pub no_envelope : f.envelope ≡ none
  pub no_hostname : f.session.client_hostname ≡ []
  pub nothing_sent : f.conn.sent ≡ e.conn.sent
  pub nothing_stored : f.stored ≡ e.stored

reset-upgrade :
    (c : Connection) (s : TlsConnectionState) (held : ℕ) (secret : List Read) (at_end : Failure)
    → c.handshake ≡ secured s held secret at_end
    → (reset_reader (upgrade_tls c).0).reads ≡ secret
unfolding reset_reader upgrade_tls
reset-upgrade c s held secret at_end h = rw h (drop-append (take held c.reads) secret)

-- When a session that is in StartTLS upgrades, with a provider that has a configuration and a
-- handshake that succeeds, then whatever plain lines the client had already sent, in the buffer or
-- not, are dropped: the next reads are those of the encrypted stream. The session starts over at
-- Greeted, with no host name and no envelope, and nothing is sent or stored by the upgrade.
pub perform_tls_upgrade-IsRenewed :
    (e : Engine) (get_config : ℕ → Option Failure) (s : TlsConnectionState) (held : ℕ)
    (secret : List Read) (at_end : Failure)
    → e.sm.state ≡ start_tls
    → e.config.tls_provider ≡ some get_config
    → get_config e.stats.command_count ≡ none
    → e.conn.handshake ≡ secured s held secret at_end
    → (f : Engine) × (perform_tls_upgrade e ≡ some (f, none)) × IsRenewed s secret at_end e f
unfolding perform_tls_upgrade finish_upgrade
perform_tls_upgrade-IsRenewed e get_config s held secret at_end st p c h = (
  finish_upgrade s (record e { conn = (upgrade_tls e.conn).0 }),
  upgraded,
  record {
    reads = reset-upgrade e.conn s held secret at_end h;
    ends = unfold upgrade_tls reset_reader in ground arith;
    machine = ground arith;
    shown = refl;
    active = refl;
    tls_state = refl;
    no_envelope = refl;
    no_hostname = refl;
    nothing_sent = unfold upgrade_tls reset_reader in ground arith;
    nothing_stored = refl;
  },
)
  where
    upgraded :
        perform_tls_upgrade e
        ≡ some (finish_upgrade s (record e { conn = (upgrade_tls e.conn).0 }), none)
    upgraded = ground arith
