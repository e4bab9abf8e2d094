-- ===== src/Replay/Transforms.antt =====
-- src/cua/replay/transforms.py: the named normalizers of an extraction, over the code points of a text.
-- The classes of Unicode that `str.strip`, `\s` and `\d` read, and a digit's value, are arguments.
use computer_use_automation.Base.{
  ℕ, String, Bool, ◌&&◌, ◌||◌, not, Option, none, some, List, [], ◌∷◌, ◌++◌, ◌+◌, ◌*◌, ◌==◌, nat_eq,
  keep, all, length, is_empty, ltb, if◌then◌else◌, Result, ok, err,
}

pub record CharHost : Type 0 where
  -- `str.isspace`, which `str.strip` and `\s` read
  pub is_space : ℕ → Bool
  -- `\d`
  pub is_digit : ℕ → Bool
  -- `int` of a digit, and the decimal digits of a number
  pub digit_value : ℕ → ℕ
  pub decimal : ℕ → List ℕ
  -- the text of some code points
  pub from_codes : List ℕ → String

abbrev pub Text : Type 0
Text = List ℕ

module _ (host : CharHost) where
  open host use {is_space, is_digit, digit_value, decimal}

  unfoldable pub strip_left : Text → Text
  strip_left [] = []
  strip_left (c ∷ cs) = let rest = strip_left cs in if is_space c then rest else c ∷ cs

  unfoldable pub strip_right : Text → Text
  strip_right [] = []
  strip_right (c ∷ cs) =
      let rest = strip_right cs in if is_space c && is_empty rest then [] else c ∷ rest

  -- `str.strip`
  unfoldable pub strip : Text → Text
  unfolding strip_left strip_right
  strip t = strip_right (strip_left t)

  -- `[^,\s]`
  abbrev pub no_separator : ℕ → Bool
  no_separator c = not (nat_eq c b',' || is_space c)

  -- `[\d.\-]`
  abbrev pub amount_char : ℕ → Bool
  amount_char c = is_digit c || nat_eq c b'.' || nat_eq c b'-'

  -- `_CURRENCY.sub("", _THOUSANDS.sub("", ...))`
  abbrev pub cleaned : Text → Text
  cleaned t = keep amount_char (keep no_separator t)

  unfoldable pub money : Text → Text
  unfolding strip
  money t = if is_empty (cleaned (strip t)) then strip t else cleaned (strip t)

  -- `int` of digits.
  unfoldable pub number_of : ℕ → Text → ℕ
  number_of so_far [] = so_far
  number_of so_far (c ∷ cs) = number_of (so_far * 10 + digit_value c) cs

  -- `:02d`
  unfoldable pub two_digits : ℕ → Text
  two_digits n = if ltb n 10 then b'0' ∷ decimal n else decimal n

  -- The groups of `^(\d{1,2})/(\d{1,2})/(\d{4})$` on a text with no white space at its end.
  pub record UsDate : Type 0 where
    pub month : Text
    pub day : Text
    pub year : Text

  -- What stands before the first slash, and what after it.
  unfoldable pub cut : Text → Option (Text × Text)
  cut [] = none
  cut (c ∷ cs) =
      let rest = cut cs in
      if nat_eq c b'/'
      then some ([], cs)
      else elim rest [ none ↦ none | some (a, b) ↦ some (c ∷ a, b) ]

  abbrev pub digits_from : ℕ → ℕ → Text → Bool
  digits_from low high t = all is_digit t && not (ltb (length t) low) && not (ltb high (length t))

  unfoldable pub us_date_of : Text → Text → Text → Option UsDate
  us_date_of m d y =
      if digits_from 1 2 m && digits_from 1 2 d && digits_from 4 4 y
      then some (record { month = m; day = d; year = y })
      else none

  abbrev pub after_month : Text → Option (Text × Text) → Option UsDate
  after_month m none = none
  after_month m (some (d, y)) = us_date_of m d y

  abbrev pub after_cut : Option (Text × Text) → Option UsDate
  after_cut none = none
  after_cut (some (m, rest)) = after_month m (cut rest)

  -- `_US_DATE.match`
  unfoldable pub us_date : Text → Option UsDate
  unfolding us_date_of cut
  us_date t = after_cut (cut t)

  abbrev pub iso_or : Text → Option UsDate → Text
  iso_or t none = t
  iso_or t (some x) =
      x.year
      ++ (b'-' ∷ (two_digits (number_of 0 x.month) ++ (b'-' ∷ two_digits (number_of 0 x.day))))

  unfoldable pub date : Text → Text
  unfolding strip us_date
  date t = iso_or (strip t) (us_date (strip t))

pub data TransformError : Type 0 where
  unknown_transform : String → TransformError

unfoldable pub apply_transform : CharHost → String → Text → Result TransformError Text
unfolding money date
apply_transform host name t =
    if name == "money"
    then ok (money host t)
    else if name == "date"
    then ok (date host t)
    else err (unknown_transform name)
