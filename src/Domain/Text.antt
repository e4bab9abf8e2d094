-- ===== src/Domain/Text.antt =====
-- The text helpers of src/cua/domain/predicates.py, over code points, with the parts of Python's
-- standard library that they call: the white space of `str.isspace` and `\s`, `str.strip`, `in`.
-- `str.lower` and `re.search` are arguments of what uses them.
use Prim.Native.Char.{code}
use computer_use_automation.Base.{
  ℕ, String, Bool, true, false, ◌&&◌, ◌||◌, List, [], ◌∷◌, leb, nat_eq, if◌then◌else◌, keep,
}
use mathlib.Core.List.{reverse}

abbrev pub codes : String → List ℕ
codes String.[] = []
codes (String.◌∷◌ c s) = code c ∷ codes s

-- What the host gives: `str.lower`, `re.search(pattern, text) is not None`, and the `str()` of a
-- reference to a secret.
pub record TextHost : Type 0 where
  pub lower : List ℕ → List ℕ
  pub search : String → List ℕ → Bool
  pub secret_text : String → String

-- `str.isspace` of one character, which is also what `\s` matches.
unfoldable pub is_space : ℕ → Bool
is_space c =
    (leb 9 c && leb c 13)
    || (leb 28 c && leb c 32)
    || nat_eq c 0x85
    || nat_eq c 0xa0
    || nat_eq c 0x1680
    || (leb 0x2000 c && leb c 0x200a)
    || nat_eq c 0x2028
    || nat_eq c 0x2029
    || nat_eq c 0x202f
    || nat_eq c 0x205f
    || nat_eq c 0x3000

-- What `[^a-z0-9\s]+` leaves.
unfoldable pub is_kept : ℕ → Bool
is_kept c = (leb b'a' c && leb c b'z') || (leb b'0' c && leb c b'9') || is_space c

-- `.replace("\xa0", " ")`
unfoldable pub plain_space : ℕ → ℕ
plain_space c = if nat_eq c 0xa0 then 32 else c

-- `re.sub(r"\s+", " ", text)`; the flag says that the last character read was a space.
unfoldable pub collapse : Bool → List ℕ → List ℕ
collapse before [] = []
collapse before (c ∷ cs) =
    let rest = collapse (is_space c) cs in
    if is_space c then (if before then rest else 32 ∷ rest) else c ∷ rest

unfoldable pub strip_left : List ℕ → List ℕ
strip_left [] = []
strip_left (c ∷ cs) = let rest = strip_left cs in if is_space c then rest else c ∷ cs

unfoldable pub strip : List ℕ → List ℕ
unfolding strip_left
strip cs = reverse (strip_left (reverse (strip_left cs)))

spaced : List ℕ → List ℕ
spaced [] = []
spaced (c ∷ cs) = plain_space c ∷ spaced cs

-- `_normalize`
unfoldable pub normalize : TextHost → List ℕ → List ℕ
unfolding spaced collapse strip is_kept is_space plain_space
normalize host text = strip (collapse false (keep is_kept (spaced (host.lower text))))

-- `_squash`
unfoldable pub squash : List ℕ → List ℕ
unfolding collapse strip is_space
squash text = strip (collapse false text)

-- `a == b` on texts.
unfoldable pub same_codes : List ℕ → List ℕ → Bool
same_codes [] [] = true
same_codes (a ∷ as') (b ∷ bs) = nat_eq a b && same_codes as' bs
same_codes _ _ = false

unfoldable pub has_prefix : List ℕ → List ℕ → Bool
has_prefix [] text = true
has_prefix (a ∷ as') [] = false
has_prefix (a ∷ as') (b ∷ bs) = nat_eq a b && has_prefix as' bs

-- `part in text`
unfoldable pub occurs_in : List ℕ → List ℕ → Bool
unfolding has_prefix
occurs_in part [] = has_prefix part []
occurs_in part (b ∷ bs) = has_prefix part (b ∷ bs) || occurs_in part bs
