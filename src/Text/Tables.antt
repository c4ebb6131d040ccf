-- ===== src/Text/Tables.antt =====
-- The Unicode data that Python's `str` methods and `re` consult. It is not part of the repository,
-- so it is a parameter; `ascii` is its part below 128.
use Prim.Native.Char.{Char, code}
use zomboid_goblin.Base.{
  ℕ_eq, ℕ, ◌+◌, String, Bool, ◌&&◌, ◌||◌, ◌==◌, leb, [], ◌∷◌, elem, if◌then◌else◌,
}

pub record CharTables : Type 0 where
  -- `c.isspace()`, for `str.strip` and `str.split`
  pub is_space : Char → Bool
  -- `c.casefold()`
  pub fold : Char → String
  -- `\w` and `\s` of `re`
  pub is_word : Char → Bool
  pub re_space : Char → Bool
  -- a literal of a pattern against a character, under `re.IGNORECASE`
  pub same_letter : Char → Char → Bool

abbrev pub is_digit : Char → Bool
is_digit c = leb b'0' (code c) && leb (code c) b'9'

abbrev pub is_upper : Char → Bool
is_upper c = leb b'A' (code c) && leb (code c) b'Z'

abbrev pub is_lower : Char → Bool
is_lower c = leb b'a' (code c) && leb (code c) b'z'

-- `[A-Za-z0-9]`
abbrev pub is_alnum : Char → Bool
is_alnum c = is_upper c || is_lower c || is_digit c

abbrev pub ascii_lower : ℕ → ℕ
ascii_lower n = if leb b'A' n && leb n b'Z' then n + 32 else n

abbrev ascii_space : Char → Bool
ascii_space c = elem (code c) (9 ∷ 10 ∷ 11 ∷ 12 ∷ 13 ∷ 28 ∷ 29 ∷ 30 ∷ 31 ∷ 32 ∷ [])

-- Characters that are no ASCII letter fold to themselves; the letters stay as they are written,
-- since tests use lower case.
abbrev pub ascii : CharTables
ascii = record {
  is_space = ascii_space;
  fold = λ c. String.◌∷◌ c String.[];
  is_word = λ c. is_alnum c || code c == b'_';
  re_space = ascii_space;
  same_letter = λ p c. ascii_lower (code p) == ascii_lower (code c);
}
