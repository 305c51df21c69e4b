-- ===== src/Engine/Options.antt =====
-- engine.go: `NewEngineWithConn` and its options.
use icesmtp.Engine.State.{Engine, new_engine}
use icesmtp.Prelude.{List, [], ◌∷◌, Bytes, ◌≡◌, refl}
use icesmtp.Session.Config.{SessionConfig, Surroundings}
use icesmtp.Session.Connection.{Connection}

-- `WithClientIP`, `WithClientAddr` and `WithSessionID`.
pub data EngineOption : Type 0 where
  client_ip client_addr session_id : Bytes → EngineOption

-- No code reads `clientAddr`, which the engine of the model therefore lacks.
abbrev pub apply_option : EngineOption → Engine → Engine
apply_option (client_ip ip) e = record e { client_ip = ip }
apply_option (client_addr _) e = e
apply_option (session_id id) e = record e { session_id = id }

abbrev pub apply_options : List EngineOption → Engine → Engine
apply_options [] e = e
apply_options (option ∷ options) e = apply_options options (apply_option option e)

-- The identifier is the one that `generateSessionID` has made, unless an option sets it.
unfoldable pub new_engine_with_conn :
    SessionConfig → Surroundings → Connection → Bytes → List EngineOption → Engine
unfolding new_engine
new_engine_with_conn config around conn generated options =
    apply_options options (new_engine config around conn generated [])

-- The identifier and the address that the options leave.
abbrev pub set_last : List EngineOption → Bytes × Bytes → Bytes × Bytes
set_last [] set = set
set_last (client_ip ip ∷ options) (id, _) = set_last options (id, ip)
set_last (client_addr _ ∷ options) set = set_last options set
set_last (session_id id ∷ options) (_, ip) = set_last options (id, ip)

set_last_lem :
    (config : SessionConfig) (around : Surroundings) (conn : Connection)
    (options : List EngineOption) (id ip : Bytes)
    → apply_options options (new_engine config around conn id ip)
      ≡ new_engine config around conn (set_last options (id, ip)).0 (set_last options (id, ip)).1
unfolding new_engine
set_last_lem config around conn [] id ip = refl
set_last_lem config around conn (client_ip new ∷ options) id ip =
    set_last_lem config around conn options id new
set_last_lem config around conn (client_addr _ ∷ options) id ip =
    set_last_lem config around conn options id ip
set_last_lem config around conn (session_id new ∷ options) id ip =
    set_last_lem config around conn options new ip

-- An engine with any options is one that `new_engine` makes, of which the theorems on sessions
-- speak.
new_engine_with_conn_lem :
    (config : SessionConfig) (around : Surroundings) (conn : Connection) (generated : Bytes)
    (options : List EngineOption)
    → let set = set_last options (generated, []) in
      new_engine_with_conn config around conn generated options
      ≡ new_engine config around conn set.0 set.1
unfolding new_engine_with_conn
new_engine_with_conn_lem config around conn generated options =
    set_last_lem config around conn options generated []
