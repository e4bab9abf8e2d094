-- ===== src/Policy/Allowlist.antt =====
-- src/cua/policy/allowlist.py: whether a URL may be visited. The standard library's `urlparse`,
-- `str.lower` and `re.match` are arguments.
pub mod Permitted
use Prim.Native.String
use computer_use_automation.Base.{
  String, Bool, true, false, ◌&&◌, ◌||◌, not, Option, none, some, List, [], ◌∷◌, map, mem, any,
  is_empty, is_some, if◌then◌else◌, ◌==◌,
}
use computer_use_automation.Domain.Text.{codes, occurs_in}
use computer_use_automation.Domain.Capability.{is_set}
use computer_use_automation.Policy.Config.{Allowlist}

-- What `urlparse` returns. `hostname` and `port` are read lazily: `readable` says that touching
-- them raises no `ValueError`.
pub record ParsedUrl : Type 0 where
  pub scheme : String
  pub netloc : String
  pub readable : Bool
  pub hostname : Option String
  pub username : Option String
  pub password : Option String

-- `urlparse` is none where it raises `ValueError`; `matches_start` is `re.match`.
pub record UrlHost : Type 0 where
  pub urlparse : String → Option ParsedUrl
  pub lower : String → String
  pub matches_start : String → String → Bool

pub data UrlRefusal : Type 0 where
  empty_url could_not_be_parsed scheme_not_permitted no_host credentials_embedded : UrlRefusal
  not_in_allowlist outside_capability : String → UrlRefusal

-- A verdict, or the `ValueError` that `_netloc` lets out on a malformed domain of the capability.
pub data UrlVerdict : Type 0 where
  allowed : UrlVerdict
  refused : UrlRefusal → UrlVerdict
  raised : UrlVerdict

-- `name or ""`, and whether it is empty.
abbrev pub has_text : Option String → Bool
has_text none = false
has_text (some t) = is_set t

module _ (host : UrlHost) where
  open host use {urlparse, lower, matches_start}

  lowered_netloc : Option ParsedUrl → String → Option String
  lowered_netloc none value = none
  lowered_netloc (some p) value =
      some (if is_set (lower p.netloc) then lower p.netloc else lower value)

  -- `_netloc`
  unfoldable pub netloc_of : String → Option String
  unfolding lowered_netloc
  netloc_of value =
      lowered_netloc
        (urlparse (if occurs_in (codes "//") (codes value) then value else String.◌++◌ "//" value))
        value

  abbrev pub joined : Option String → Option (List String) → Option (List String)
  joined none ns = none
  joined (some n) none = none
  joined (some n) (some ns) = some (n ∷ ns)

  -- The set `narrowed`, unless one of its members raises.
  unfoldable pub narrowed : List String → Option (List String)
  narrowed [] = some []
  narrowed (d ∷ ds) = let rest = narrowed ds in joined (netloc_of d) rest

  narrow_check : Option (List String) → String → UrlVerdict
  narrow_check none at = raised
  narrow_check (some names) at = if mem at names then allowed else refused (outside_capability at)

  unfoldable pub globally_allowed : Allowlist → String → String → Bool
  globally_allowed config at url =
      mem at (map lower config.domains) || any (λ p. matches_start p url) config.url_patterns

  host_check : Allowlist → List String → String → String → UrlVerdict
  unfolding narrow_check globally_allowed
  host_check config extra at url =
      if not (globally_allowed config at url)
      then refused (not_in_allowlist at)
      else if is_empty extra
      then allowed
      else narrow_check (narrowed extra) at

  parsed_check : Allowlist → List String → String → Option ParsedUrl → UrlVerdict
  unfolding host_check
  parsed_check config extra url none = refused could_not_be_parsed
  parsed_check config extra url (some p) =
      if not p.readable
      then refused could_not_be_parsed
      else if not (p.scheme == "http" || p.scheme == "https")
      then refused scheme_not_permitted
      else if not (has_text p.hostname)
      then refused no_host
      else if is_some p.username || is_some p.password
      then refused credentials_embedded
      else host_check config extra (lower p.netloc) url

  unfoldable pub check : Allowlist → List String → String → UrlVerdict
  unfolding parsed_check
  check config extra url =
      if not (is_set url) then refused empty_url else parsed_check config extra url (urlparse url)
