-- ===== src/Targeting/Names.antt =====
-- src/cua/perception/normalize.py: the comparison of accessible names, over code points.
use computer_use_automation.Base.{
  ℕ, String, Bool, true, false, ◌&&◌, ◌||◌, Option, none, some, List, [], ◌∷◌, get_or, keep, leb,
  nat_eq, if◌then◌else◌,
}
use mathlib.Core.List.{reverse}
use computer_use_automation.Domain.Text.{codes, is_space, plain_space, collapse, strip, same_codes}

-- `.replace("\xa0", " ")`, and without a zero-width space.
unfoldable pub plain_text : List ℕ → List ℕ
unfolding plain_space
plain_text [] = []
plain_text (c ∷ cs) =
    let rest = plain_text cs in if nat_eq c 0x200b then rest else plain_space c ∷ rest

unfoldable pub without_marks : List ℕ → List ℕ
without_marks [] = []
without_marks (c ∷ cs) =
    let rest = without_marks cs in if nat_eq c b':' || nat_eq c b'*' then rest else c ∷ cs

-- `rstrip(":*")`
unfoldable pub strip_marks : List ℕ → List ℕ
unfolding without_marks
strip_marks cs = reverse (without_marks (reverse cs))

-- `cleaned or None`
abbrev pub text_or_none : List ℕ → Option (List ℕ)
text_or_none [] = none
text_or_none (c ∷ cs) = some (c ∷ cs)

unfoldable pub clean : List ℕ → List ℕ
unfolding plain_text strip_marks collapse strip is_space
clean cs = strip (strip_marks (strip (collapse false (plain_text cs))))

unfoldable pub normalize_name : Option String → Option (List ℕ)
unfolding clean
normalize_name none = none
normalize_name (some t) = text_or_none (clean (codes t))

-- `a == b` on two cleaned names.
unfoldable pub same_name : Option (List ℕ) → Option (List ℕ) → Bool
unfolding same_codes
same_name none none = true
same_name (some a) (some b) = same_codes a b
same_name none (some b) = false
same_name (some a) none = false

-- What `[^a-z0-9]+` leaves.
unfoldable pub is_word : ℕ → Bool
is_word c = (leb b'a' c && leb c b'z') || (leb b'0' c && leb c b'9')

unfoldable pub fold : (List ℕ → List ℕ) → Option String → List ℕ
unfolding is_word
fold lower text = keep is_word (lower (codes (get_or text "")))
