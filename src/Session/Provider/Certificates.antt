-- ===== src/Session/Provider/Certificates.antt =====
-- Which certificate a provider hands out, after any calls.
use icesmtp.Prelude.{ℕ, List, [], ◌∷◌, Option, some, Bytes, ◌≡◌, refl, sym, ap, ◌∙◌}
use icesmtp.Session.Provider.{
  Fallible, ok, Loaded, loaded, failed, ReloadableTlsProvider, SniTlsProvider, config_with, reload,
  new_reloadable, get_loaded_certificate, add_certificate, add_certificate_from_files,
  set_default_certificate,
}
use icesmtp.Session.Tls.{TlsPolicy}
use icesmtp.Table.Laws.{update}
use icesmtp.Table.{get}

ok-injective {ℓ} : {A : Type ℓ} (a b : A) → Fallible.ok a ≡ Fallible.ok b → a ≡ b
ok-injective a b h = cc

module _ {ℓ} {C : Type ℓ} (suites : List ℕ) where
  -- `Reload`, once for each of these results of the loading.
  unfoldable pub reload_all : List (Loaded C) → ReloadableTlsProvider C → ReloadableTlsProvider C
  unfolding reload
  reload_all [] p = p
  reload_all (l ∷ ls) p = reload_all ls (reload suites l p).0

  -- The certificate that was loaded last.
  abbrev pub last_loaded : C → List (Loaded C) → C
  last_loaded cert [] = cert
  last_loaded cert (loaded next ∷ ls) = last_loaded next ls
  last_loaded cert (failed _ ∷ ls) = last_loaded cert ls

  abbrev pub holding : C → TlsPolicy → ReloadableTlsProvider C
  holding cert policy = record { config = some (config_with suites cert); policy = policy }

  reload_all_lem :
      (cert : C) (policy : TlsPolicy) (ls : List (Loaded C))
      → reload_all ls (holding cert policy) ≡ holding (last_loaded cert ls) policy
  unfolding reload_all reload
  reload_all_lem cert policy [] = refl
  reload_all_lem cert policy (loaded next ∷ ls) = reload_all_lem next policy ls
  reload_all_lem cert policy (failed _ ∷ ls) = reload_all_lem cert policy ls

  made_holding :
      (cert : C) (policy : TlsPolicy) (p : ReloadableTlsProvider C)
      → new_reloadable suites (loaded cert) policy ≡ ok p
      → p ≡ holding cert policy
  unfolding new_reloadable reload
  made_holding cert policy p is = sym (ok-injective _ _ is)

  -- A provider whose first load succeeded hands out, after any reloads, the certificate that was
  -- loaded last, in its configuration and for a handshake: a reload that fails changes nothing, and
  -- the policy stays.
  pub get_loaded_certificate-reload_all :
      (cert : C) (policy : TlsPolicy) (ls : List (Loaded C)) (p : ReloadableTlsProvider C)
      → new_reloadable suites (loaded cert) policy ≡ ok p
      → (get_loaded_certificate (reload_all ls p) ≡ some (ok (last_loaded cert ls)))
        × ((reload_all ls p).config ≡ some (config_with suites (last_loaded cert ls)))
        × ((reload_all ls p).policy ≡ policy)
  unfolding get_loaded_certificate
  get_loaded_certificate-reload_all cert policy ls p is =
      let start : p ≡ holding cert policy = made_holding cert policy p is in
      let last : reload_all ls p ≡ holding (last_loaded cert ls) policy =
        ap (reload_all ls) start ∙ reload_all_lem cert policy ls in
      (
        ap get_loaded_certificate last,
        ap (λ (q : ReloadableTlsProvider C). q.config) last,
        ap (λ (q : ReloadableTlsProvider C). q.policy) last,
      )

-- The calls that give the provider by names its certificates.
pub data Op {ℓ} (C : Type ℓ) : Type ℓ where
  add : Bytes → C → Op C
  load : Bytes → Loaded C → Op C
  set_default : C → Op C

module _ {ℓ} {C : Type ℓ} where
  unfoldable pub perform : Op C → SniTlsProvider C → SniTlsProvider C
  unfolding add_certificate add_certificate_from_files set_default_certificate
  perform (add name cert) p = add_certificate name cert p
  perform (load name l) p = (add_certificate_from_files name l p).0
  perform (set_default cert) p = set_default_certificate cert p

  unfoldable pub perform_all : List (Op C) → SniTlsProvider C → SniTlsProvider C
  unfolding perform
  perform_all [] p = p
  perform_all (o ∷ os) p = perform_all os (perform o p)

  -- The calls, on a function from names.
  abbrev pub named : List (Op C) → (Bytes → Option C) → Bytes → Option C
  named [] f = f
  named (add name cert ∷ os) f = named os (update name (some cert) f)
  named (load name (loaded cert) ∷ os) f = named os (update name (some cert) f)
  named (load name (failed _) ∷ os) f = named os f
  named (set_default _ ∷ os) f = named os f

  abbrev pub last_default : List (Op C) → Option C → Option C
  last_default [] d = d
  last_default (set_default cert ∷ os) d = last_default os (some cert)
  last_default (add _ _ ∷ os) d = last_default os d
  last_default (load _ _ ∷ os) d = last_default os d

  table : SniTlsProvider C → Bytes → Option C
  table p q = get q p.certificates
