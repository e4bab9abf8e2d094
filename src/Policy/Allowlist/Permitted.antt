-- ===== src/Policy/Allowlist/Permitted.antt =====
-- src/cua/policy/allowlist.py: what an allowed URL is, and that a capability only narrows.
use computer_use_automation.Base.{
  String, true, false, ◌||◌, ◌∷◌, map, any, Any, any_iff, or_iff, eq_iff, if◌then◌else◌, Option,
  none, some, List, [], mem, is_empty, ◌==◌, ◌≡◌, ◌↔◌, ◌⊎◌, inl, inr, refl, arith, Bool-cases,
}
use Prim.Native.String
use mathlib.Core.Path.{subst}
use computer_use_automation.Domain.Text.{codes, occurs_in}
use computer_use_automation.Domain.Capability.{is_set}
use computer_use_automation.Policy.Config.{Allowlist}
use computer_use_automation.Policy.Allowlist.{
  UrlHost, ParsedUrl, allowed, has_text, check, netloc_of, lowered_netloc, joined, narrowed,
  globally_allowed, host_check,
}

-- The host that a capability's domain stands for: what the domain parses to, in lower case, itself or
-- with two slashes before it; the domain itself in lower case, if that has no host part.
pub data Hosts (host : UrlHost) (domain : String) : String → Type 0 where
  parsed :
      (p : ParsedUrl)
      → host.urlparse
          (if occurs_in (codes "//") (codes domain) then domain else String.◌++◌ "//" domain)
        ≡ some p
      → is_set (host.lower p.netloc) ≡ true
      → Hosts host domain (host.lower p.netloc)
  bare :
      (p : ParsedUrl)
      → host.urlparse
          (if occurs_in (codes "//") (codes domain) then domain else String.◌++◌ "//" domain)
        ≡ some p
      → is_set (host.lower p.netloc) ≡ false
      → Hosts host domain (host.lower domain)

-- The hosts of several domains, one for each.
pub HostsOf : UrlHost → List String → List String → Type 0
HostsOf host [] [] = Unit
HostsOf host (d ∷ ds) (n ∷ ns) = Hosts host d n × HostsOf host ds ns
HostsOf host _ _ = ⊥

-- An `http` or `https` URL with a host and no credentials, whose host the deployment lists or for
-- which it has a pattern, and whose host is among those of the capability's domains, if it declares
-- any.
pub record IsPermitted (host : UrlHost) (config : Allowlist) (extra : List String) (url : String)
    : Type 0 where
  pub page : ParsedUrl
  pub nonempty : is_set url ≡ true
  pub parsed : host.urlparse url ≡ some page
  pub readable : page.readable ≡ true
  pub web : (page.scheme == "http" || page.scheme == "https") ≡ true
  pub named : has_text page.hostname ≡ true
  pub no_user : page.username ≡ none
  pub no_password : page.password ≡ none
  pub deployed :
      Any (λ d. host.lower d ≡ host.lower page.netloc) config.domains
      ⊎ Any (λ p. host.matches_start p url ≡ true) config.url_patterns
  pub within :
      (extra ≡ [])
      ⊎ ((names : List String) × HostsOf host extra names
          × (mem (host.lower page.netloc) names ≡ true))

module _ (host : UrlHost) where
  deployed_iff :
      (config : Allowlist) (at url : String)
      → (globally_allowed host config at url ≡ true) ↔ (
          Any (λ d. host.lower d ≡ at) config.domains
          ⊎ Any (λ p. host.matches_start p url ≡ true) config.url_patterns)
  unfolding globally_allowed
  deployed_iff config at url =
      or_iff (mem at (map host.lower config.domains))
        (any (λ p. host.matches_start p url) config.url_patterns) (listed config.domains)
        (any_iff (λ p. host.matches_start p url) (λ p. host.matches_start p url ≡ true)
          (λ p. ((λ h. h), λ h. h)) config.url_patterns)
    where
      listed :
          (ds : List String) → (mem at (map host.lower ds) ≡ true) ↔ Any (λ d. host.lower d ≡ at) ds
      listed [] = ((λ h. absurd (ground arith)), λ h. absurd h)
      listed (d ∷ ds) =
          or_iff (host.lower d == at) (mem at (map host.lower ds)) (eq_iff (host.lower d) at)
            (listed ds)

  netloc_if_Hosts : (domain at : String) → Hosts host domain at → netloc_of host domain ≡ some at
  unfolding netloc_of
  netloc_if_Hosts domain _ (parsed p e f) = rw (e, f) refl
  netloc_if_Hosts domain _ (bare p e f) = rw (e, f) refl

  netloc_of-Hosts : (domain at : String) → (netloc_of host domain ≡ some at) ↔ Hosts host domain at
  unfolding netloc_of
  netloc_of-Hosts domain at = (there (host.urlparse _) refl, netloc_if_Hosts domain at)
    where
      there :
          (p : Option ParsedUrl)
          → host.urlparse
              (if occurs_in (codes "//") (codes domain) then domain else String.◌++◌ "//" domain)
            ≡ p
          → lowered_netloc host p domain ≡ some at
          → Hosts host domain at
      there none e h = absurd (ground arith)
      there (some p) e h = elim (Bool-cases (is_set (host.lower p.netloc))) [
        | inl f ↦
            let same : host.lower p.netloc ≡ at = ground arith in
            subst (Hosts host domain) same (parsed p e f)
        | inr f ↦
            let same : host.lower domain ≡ at = ground arith in
            subst (Hosts host domain) same (bare p e f)
      ]

  joined_parts :
      (m : Option String) (r : Option (List String)) (n : String) (ns : List String)
      → joined host m r ≡ some (n ∷ ns)
      → (m ≡ some n) × (r ≡ some ns)
  joined_parts none r n ns h = absurd (ground arith)
  joined_parts (some m) none n ns h = absurd (ground arith)
  joined_parts (some m) (some ms) n ns h = (ground arith, ground arith)

  joined_nonempty : (m : Option String) (r : Option (List String)) → ¬ (joined host m r ≡ some [])
  joined_nonempty none r h = ground arith
  joined_nonempty (some m) none h = ground arith
  joined_nonempty (some m) (some ms) h = ground arith

  narrowed-HostsOf :
      (extra names : List String) → (narrowed host extra ≡ some names) ↔ HostsOf host extra names
  unfolding narrowed HostsOf
  narrowed-HostsOf [] [] = ((λ h. tt), λ k. refl)
  narrowed-HostsOf [] (n ∷ ns) = ((λ h. absurd (ground arith)), λ k. absurd k)
  narrowed-HostsOf (d ∷ ds) [] =
      ((λ h. absurd (joined_nonempty (netloc_of host d) (narrowed host ds) h)), λ k. absurd k)
  narrowed-HostsOf (d ∷ ds) (n ∷ ns) =
      let here = netloc_of-Hosts d n in
      let later = narrowed-HostsOf ds ns in
      (
        (λ h.
            let parts = joined_parts (netloc_of host d) (narrowed host ds) n ns h in
            (here.0 parts.0, later.0 parts.1)),
        λ k. rw (here.1 k.0, later.1 k.1) refl,
      )

module _ (host : UrlHost) (config : Allowlist) (extra : List String) (url : String) where
  inside :
      (names : Option (List String)) (at : String)
      → narrowed host extra ≡ names
      → globally_allowed host config at url ≡ true
      → host_check host config extra at url ≡ allowed
      → (extra ≡ []) ⊎ ((ns : List String) × HostsOf host extra ns × (mem at ns ≡ true))
  unfolding check
  inside none at e g h = inl (ground arith)
  inside (some names) at e g h = elim (Bool-cases (is_empty extra)) [
    | inl q ↦ inl (ground arith)
    | inr q ↦ inr (names, (narrowed-HostsOf host extra names).0 e, ground arith)
  ]

  permitted :
      (parsed : Option ParsedUrl)
      → host.urlparse url ≡ parsed
      → check host config extra url ≡ allowed
      → IsPermitted host config extra url
  unfolding check
  permitted none e h = absurd (ground arith)
  permitted (some page) e h = record {
    page = page;
    nonempty = ground arith;
    parsed = e;
    readable = ground arith;
    web = ground arith;
    named = ground arith;
    no_user = ground arith;
    no_password = ground arith;
    deployed = (deployed_iff host config (host.lower page.netloc) url).0 (ground arith);
    within =
        inside (narrowed host extra) (host.lower page.netloc) refl (ground arith) (ground arith);
  }

  checked : IsPermitted host config extra url → check host config extra url ≡ allowed
  unfolding check
  checked v =
      let deployed = (deployed_iff host config (host.lower v.page.netloc) url).1 v.deployed in
      elim v.within [
        | inl e ↦ ground arith
        | inr (ns, k, m) ↦ let e = (narrowed-HostsOf host extra ns).1 k in ground arith
      ]

  -- The allowlist allows a URL exactly when it is permitted: it parses to a readable `http` or `https`
  -- page with a host and no user or password, a domain of the deployment's is in lower case the page's
  -- host and port or a pattern of the deployment's matches the URL, and the page's host and port are
  -- those of one of the capability's own domains, which can all be read, if it declares any.
  pub check-iff-IsPermitted :
      (check host config extra url ≡ allowed) ↔ IsPermitted host config extra url
  check-iff-IsPermitted = (permitted (host.urlparse url) refl, checked)

module _ (host : UrlHost) (config : Allowlist) (extra : List String) (url : String) where
  -- A capability's domains never let in a URL that the deployment's allowlist alone refuses.
  pub check_narrows : check host config extra url ≡ allowed → check host config [] url ≡ allowed
  check_narrows h =
      let v = (check-iff-IsPermitted host config extra url).0 h in
      (check-iff-IsPermitted host config [] url).1 (record {
        page = v.page;
        nonempty = v.nonempty;
        parsed = v.parsed;
        readable = v.readable;
        web = v.web;
        named = v.named;
        no_user = v.no_user;
        no_password = v.no_password;
        deployed = v.deployed;
        within = inl refl;
      })
