-- ===== src/Tests/Services.antt =====
-- The logger, the TLS providers and the example's policies at concrete inputs.
use icesmtp.Custom.Blocked.{is_blocked, validate_sender-is_blocked}
use icesmtp.Custom.{RestrictedSenderPolicy, check_domains, validate_sender}
use icesmtp.Logger.Numbers.{shown, int_to_str-shown}
use icesmtp.Logger.{
  int, info, debug, int_to_str, digits_onto, buffer_size, new_std_logger, with_session, with_attrs,
  log_at, log, attrs_text, format_value, spell, StdLogger,
}
use icesmtp.Mem.Mailbox.{domain_of}
use icesmtp.Prelude.{
  ℕ, true, false, not, ◌||◌, ◌>>=◌, List, [], ◌∷◌, Option, none, some, Bytes, String, codes, map,
  ◌-◌, ◌^◌, ◌≡◌, refl, arith,
}
use icesmtp.Session.Connection.{other}
use icesmtp.Session.Provider.Certificates.{
  Op, add, load, set_default, perform, perform_all, reload_all, get_loaded_certificate-reload_all,
}
use icesmtp.Session.Provider.{
  ok, Loaded, loaded, failed, ReloadableTlsProvider, config_with, reload, new_reloadable,
  get_loaded_certificate, new_sni, get_certificate, add_certificate, add_certificate_from_files,
  set_default_certificate,
}
use icesmtp.Session.Tls.{optional}
use icesmtp.Table.{get, put}
use icesmtp.Tests.Sample.{path_of}
use icesmtp.Text.Case.{to_lower}
use icesmtp.Text.Number.{pos, negsuc, sscanf_int64}
use icesmtp.Text.Search.{has_suffix, has_prefix}

int_to_str-shown_example :
    (int_to_str (negsuc 41) ≡ some (shown (negsuc 41)))
    × (sscanf_int64 (shown (negsuc 41)) ≡ negsuc 41)
int_to_str-shown_example = int_to_str-shown (negsuc 41) (omega arith)

-- The least int64 is printed as a sign alone.
least_int64 : int_to_str (negsuc (2 ^ 63 - 1)) ≡ some (codes "-")
unfolding int_to_str buffer_size
least_int64 = refl

abbrev lines : Option StdLogger → List Bytes
lines none = []
lines (some l) = l.written

logged :
    lines (
      log_at debug (codes "dropped") [] (new_std_logger info) >>= λ l.
      log_at info
        (codes "stored")
        (record { key = codes "size"; attr_value = int (pos 120) } ∷ [])
        (with_session (codes "s1") l))
    ≡ codes "[INFO] stored session_id=s1 size=120" ∷ []
unfolding log_at log attrs_text format_value int_to_str digits_onto buffer_size with_session
    with_attrs new_std_logger spell
logged = refl

abbrev changes : List (Op ℕ)
changes =
    add (codes "mx.test") 1
    ∷ set_default 7
    ∷ load (codes "mx.test") (failed other)
    ∷ load (codes "mx.test") (loaded 2)
    ∷ []

chosen : get_certificate (codes "mx.test") (perform_all changes (new_sni optional)) ≡ ok 2
unfolding get_certificate perform_all perform add_certificate add_certificate_from_files
    set_default_certificate new_sni get put
chosen = refl

abbrev provider : ReloadableTlsProvider ℕ
provider = record { config = some (config_with (4865 ∷ []) 1); policy = optional }

abbrev reloads : List (Loaded ℕ)
reloads = loaded 2 ∷ failed other ∷ []

get_loaded_certificate-reload_all_example :
    (get_loaded_certificate (reload_all (4865 ∷ []) reloads provider) ≡ some (ok 2))
    × ((reload_all (4865 ∷ []) reloads provider).config ≡ some (config_with (4865 ∷ []) 2))
    × ((reload_all (4865 ∷ []) reloads provider).policy ≡ optional)
unfolding new_reloadable reload
get_loaded_certificate-reload_all_example =
    get_loaded_certificate-reload_all (4865 ∷ []) 1 optional reloads provider refl

abbrev keep_case : Bytes → Bytes
keep_case s = s

abbrev policy : RestrictedSenderPolicy
policy = record { blocked_domains = codes "spam.test" ∷ codes "Loud.test" ∷ [] }

validate_sender-is_blocked_example :
    (validate_sender keep_case policy (path_of "x@Spam.test")).accepted ≡ (
      false
      || not (
          is_blocked policy.blocked_domains (domain_of (to_lower keep_case (codes "x@Spam.test")))))
validate_sender-is_blocked_example =
    validate_sender-is_blocked keep_case policy (path_of "x@Spam.test") (refl, (refl, tt))

-- A blocked name with an upper-case letter blocks nothing.
verdicts :
    map
      (λ (a : String). (validate_sender keep_case policy (path_of a)).accepted)
      ("x@SPAM.test" ∷ "x@sub.spam.test" ∷ "x@loud.test" ∷ "x@Loud.test" ∷ [])
    ≡ false ∷ true ∷ true ∷ true ∷ []
unfolding validate_sender check_domains to_lower has_suffix has_prefix
verdicts = refl
