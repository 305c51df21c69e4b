-- ===== src/Tests/Sample.antt =====
-- A server that accepts every recipient, and clients that talk to it.
use icesmtp.Engine.Loop.{Ending, returned, panicked, out_of_rounds}
use icesmtp.Engine.State.{Engine, new_engine}
use icesmtp.Envelope.{Envelope}
use icesmtp.Limits.{default_session_limits}
use icesmtp.Prelude.{
  ℕ, String, Bool, true, ◌≡◌, refl, false, List, [], ◌∷◌, ◌++◌, Option, none, some, Bytes, codes,
  map,
}
use icesmtp.Protocol.Reply.{Response}
use icesmtp.Session.Config.{SessionConfig, Surroundings, default_extensions, accept_all_mailbox}
use icesmtp.Session.Connection.{Connection, Failure, Read, line, secured, eof}
use icesmtp.Session.Tls.{TlsConnectionState, optional}
use icesmtp.Parser.{Command, MailPath}
use icesmtp.Protocol.Command.{CommandVerb}
use icesmtp.Protocol.State.{State}
use icesmtp.Envelope.Build.{Builder}

abbrev pub config : SessionConfig
config = record {
  server_hostname = codes "mx.test";
  limits = record default_session_limits { max_message_size = 100; max_recipients = 2 };
  tls_policy = optional;
  tls_provider = some (λ _. none);
  mailbox = accept_all_mailbox;
  sender_policy = none;
  storage = some (λ _ _. none);
  extensions = default_extensions;
  hooks = none;
}

abbrev pub around : Surroundings
around = record {
  context = λ _. none;
  fresh_id = λ n. n ∷ [];
  now = λ n. n;
  wide_upper = λ s. s;
  cipher_suite_name = λ _. codes "suite";
}

abbrev pub crlf : String → Read
crlf s = line (codes s ++ codes "\r\n")

abbrev pub client : List Read → List Read → Connection
client plain secret = record {
  reads = plain;
  at_end = eof;
  held = 0;
  clock = 0;
  handshake =
      secured
        (record {
          version = 0x0304;
          cipher_suite = 1;
          server_name = [];
          peer_certificates = false;
          verified_chains = false;
        })
        1 secret eof;
  writes = [];
  sent = [];
}

abbrev pub server : List Read → List Read → Engine
server plain secret =
    new_engine config around (client plain secret) (codes "s1") (codes "127.0.0.1")

abbrev pub reply_codes : Ending → List ℕ
reply_codes (returned e _) = map (λ (r : Response). r.code) e.conn.sent
reply_codes _ = []

abbrev pub messages : Ending → List Bytes
messages (returned e _) = map (λ (m : Envelope). m.content) e.stored
messages _ = []

abbrev pub dialogue : List Read
dialogue =
    crlf "EHLO client.test"
    ∷ crlf "mail from:<a@b.org> SIZE=20"
    ∷ crlf "RCPT TO:<x@mx.test>"
    ∷ crlf "DATA"
    ∷ crlf "hello"
    ∷ crlf "..dot"
    ∷ crlf "."
    ∷ crlf "QUIT"
    ∷ []

-- The engine that a session leaves.
abbrev pub final : Engine → Ending → Engine
final d (returned e _) = e
final d _ = d

abbrev pub last_error : Ending → Option Failure
last_error (returned _ f) = f
last_error _ = none

abbrev pub path_of : String → MailPath
path_of address = record { address = codes address; source_route = []; is_null = false }

-- A transaction from a@b.org to x@mx.test, without data.
abbrev pub builder : Builder
builder = record {
  id = codes "m1";
  mail_from = some (path_of "a@b.org");
  recipients = path_of "x@mx.test" ∷ [];
  esmtp_params = [];
  received_at = 0;
  content = [];
  data_writer = none;
  finalized = false;
  metadata = record {
    session_id = codes "s1";
    client_hostname = codes "client.test";
    client_ip = codes "127.0.0.1";
    server_hostname = codes "mx.test";
    tls_active = false;
    tls_version = [];
    tls_cipher_suite = [];
    authenticated_user = [];
  };
}

-- The server, put into a state, with these reads to come.
abbrev pub server_in : State → Option Builder → List Read → List Read → Engine
server_in s envelope plain secret =
    let e = server plain secret in
    record e {
      sm = record { state = s; observed = [] };
      session = record e.session { state = s };
      envelope = envelope;
    }

abbrev pub command : CommandVerb → String → Command
command verb argument = record {
  verb = verb;
  raw = codes argument;
  argument = codes argument;
  params = [];
}

abbrev pub tls_state : TlsConnectionState
tls_state = record {
  version = 0x0304;
  cipher_suite = 1;
  server_name = [];
  peer_certificates = false;
  verified_chains = false;
}

abbrev pub is_returned : Ending → Bool
is_returned (returned _ _) = true
is_returned _ = false

pub returned-final :
    (d : Engine) (x : Ending) → is_returned x ≡ true → x ≡ returned (final d x) (last_error x)
returned-final d (returned e f) h = refl
returned-final d panicked h = cc
returned-final d out_of_rounds h = cc
