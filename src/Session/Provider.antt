-- ===== src/Session/Provider.antt =====
-- tls_provider.go: the providers of TLS configurations. A certificate is anything; what
-- `tls.LoadX509KeyPair` returns at a call is an argument of it.
pub mod Certificates
use icesmtp.Prelude.{ℕ, List, [], ◌∷◌, ◌++◌, Option, none, some, Bytes, codes, Bool, true, false}
use icesmtp.Session.Connection.{Failure}
use icesmtp.Session.Tls.{TlsPolicy, disabled}
use icesmtp.Table.{Table, get, put}

pub data TlsErrorPhase : Type 0 where
  configuration handshake certificate : TlsErrorPhase

pub record TlsError : Type 0 where
  pub phase : TlsErrorPhase
  pub cause : Option Failure
  pub message : Bytes

-- `TLSError.Error`, with the texts of the causes.
unfoldable pub spell_error : (Failure → Bytes) → TlsError → Bytes
spell_error text e = elim e.cause [
  | none ↦ e.message
  | some f ↦ e.message ++ (codes ": " ++ text f)
]

pub data Fallible {ℓ} (A : Type ℓ) : Type ℓ where
  ok : A → Fallible A
  err : TlsError → Fallible A

-- What `tls.LoadX509KeyPair` returns.
pub data Loaded {ℓ} (C : Type ℓ) : Type ℓ where
  loaded : C → Loaded C
  failed : Failure → Loaded C

-- The fields of `tls.Config` that the source sets. With `by_name`, the handshake asks the provider
-- for the certificate.
pub record TlsConfig {ℓ} (C : Type ℓ) : Type ℓ where
  pub min_version : ℕ
  pub cipher_suites : List ℕ
  pub certificates : List C
  pub by_name : Bool

pub record StaticTlsProvider {ℓ} (C : Type ℓ) : Type ℓ where
  pub config : TlsConfig C
  pub policy : TlsPolicy

-- `config` is nil until the first load.
pub record ReloadableTlsProvider {ℓ} (C : Type ℓ) : Type ℓ where
  pub config : Option (TlsConfig C)
  pub policy : TlsPolicy

pub record SniTlsProvider {ℓ} (C : Type ℓ) : Type ℓ where
  pub certificates : Table C
  pub default_cert : Option C
  pub policy : TlsPolicy

-- `suites` are the identifiers that `SecureCipherSuites` takes from crypto/tls.
module _ {ℓ} {C : Type ℓ} (suites : List ℕ) where
  unfoldable pub secure_tls_config : TlsConfig C
  secure_tls_config = record {
    min_version = 0x0303;
    cipher_suites = suites;
    certificates = [];
    by_name = false;
  }

  -- The configuration with this certificate.
  abbrev pub config_with : C → TlsConfig C
  config_with cert = record secure_tls_config { certificates = cert ∷ [] }

  unfoldable pub new_static_from_cert : C → TlsPolicy → StaticTlsProvider C
  new_static_from_cert cert policy = record { config = config_with cert; policy = policy }

  unfoldable pub new_static_from_files : Loaded C → TlsPolicy → Fallible (StaticTlsProvider C)
  unfolding new_static_from_cert
  new_static_from_files (failed f) policy =
      err (record {
        phase = certificate;
        cause = some f;
        message = codes "failed to load certificate";
      })
  new_static_from_files (loaded cert) policy = ok (new_static_from_cert cert policy)

  -- `Reload`: what it leaves, and its error.
  unfoldable pub reload :
      Loaded C → ReloadableTlsProvider C → ReloadableTlsProvider C × Option TlsError
  unfolding secure_tls_config
  reload (failed f) p = (
    p,
    some (record {
      phase = certificate;
      cause = some f;
      message = codes "failed to reload certificate";
    }),
  )
  reload (loaded cert) p = (record p { config = some (config_with cert) }, none)

  abbrev made : ReloadableTlsProvider C × Option TlsError → Fallible (ReloadableTlsProvider C)
  made (p, none) = ok p
  made (p, some e) = err e

  unfoldable pub new_reloadable : Loaded C → TlsPolicy → Fallible (ReloadableTlsProvider C)
  unfolding reload
  new_reloadable load policy = made (reload load (record { config = none; policy = policy }))

  -- `GetConfig` of the provider by names.
  unfoldable pub get_sni_config : SniTlsProvider C → TlsConfig C
  unfolding secure_tls_config
  get_sni_config p = record secure_tls_config { by_name = true }

module _ {ℓ} {C : Type ℓ} where
  abbrev first : List C → Fallible C
  first [] =
      err (record { phase = certificate; cause = none; message = codes "no certificate available" })
  first (c ∷ _) = ok c

  -- `GetCertificate` of the reloadable provider; without a configuration it panics.
  unfoldable pub get_loaded_certificate : ReloadableTlsProvider C → Option (Fallible C)
  get_loaded_certificate p = elim p.config [
    | none ↦ none
    | some config ↦ some (first config.certificates)
  ]

  unfoldable pub new_sni : TlsPolicy → SniTlsProvider C
  new_sni policy = record { certificates = []; default_cert = none; policy = policy }

  unfoldable pub add_certificate : Bytes → C → SniTlsProvider C → SniTlsProvider C
  unfolding put
  add_certificate name cert p = record p { certificates = put name cert p.certificates }

  unfoldable pub add_certificate_from_files :
      Bytes → Loaded C → SniTlsProvider C → SniTlsProvider C × Option TlsError
  unfolding add_certificate
  add_certificate_from_files name (failed f) p = (
    p,
    some (record {
      phase = certificate;
      cause = some f;
      message = codes "failed to load certificate for " ++ name;
    }),
  )
  add_certificate_from_files name (loaded cert) p = (add_certificate name cert p, none)

  unfoldable pub set_default_certificate : C → SniTlsProvider C → SniTlsProvider C
  set_default_certificate cert p = record p { default_cert = some cert }

  abbrev pub or_default : Bytes → Option C → Option C → Fallible C
  or_default name (some cert) _ = ok cert
  or_default name none (some cert) = ok cert
  or_default name none none = err (record {
    phase = certificate;
    cause = none;
    message = codes "no certificate for server name: " ++ name;
  })

  -- `GetCertificate` of the provider by names.
  unfoldable pub get_certificate : Bytes → SniTlsProvider C → Fallible C
  unfolding get
  get_certificate name p = or_default name (get name p.certificates) p.default_cert

  -- `NoTLSProvider`, whose policy is `disabled`.
  unfoldable pub get_no_config : Fallible (TlsConfig C)
  get_no_config =
      err (record { phase = configuration; cause = none; message = codes "TLS is disabled" })
