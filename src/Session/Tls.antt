-- ===== src/Session/Tls.antt =====
-- tls.go: the policy, and the state of a TLS connection.
use icesmtp.Prelude.{ℕ, Bool, true, false, Bytes, codes, ◌==◌, if◌then◌else◌}

pub data TlsPolicy : Type 0 where
  disabled optional required immediate : TlsPolicy

-- `TLSPolicy.String`.
unfoldable pub spell_policy : TlsPolicy → Bytes
spell_policy disabled = codes "Disabled"
spell_policy optional = codes "Optional"
spell_policy required = codes "Required"
spell_policy immediate = codes "Immediate"

-- Go's `==` on the type.
abbrev pub same : TlsPolicy → TlsPolicy → Bool
same disabled disabled = true
same optional optional = true
same required required = true
same immediate immediate = true
same _ _ = false

pub record TlsConnectionState : Type 0 where
  pub version : ℕ  -- uint16
  pub cipher_suite : ℕ  -- uint16
  pub server_name : Bytes
  pub peer_certificates : Bool
  pub verified_chains : Bool

unfoldable pub version_string : TlsConnectionState → Bytes
version_string s =
    if s.version == 0x0301
    then codes "TLS 1.0"
    else if s.version == 0x0302
    then codes "TLS 1.1"
    else if s.version == 0x0303
    then codes "TLS 1.2"
    else if s.version == 0x0304
    then codes "TLS 1.3"
    else codes "Unknown"
