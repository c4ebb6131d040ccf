-- ===== src/Text/Trim.antt =====
-- `str.strip`, `str.casefold` and slices from the front.
use Prim.Native.String.{◌++◌}
use text.Mathlib.TextLemmas.{length-cons, length-nil}
use zomboid_goblin.Base.{
  String_eq, ℕ, zero, suc, ◌≤◌, String, count, ◌&&◌, ◌==◌, arith, if◌then◌else◌,
}
use zomboid_goblin.Text.Tables.{CharTables}

-- `s[:n]`
unfoldable pub take_chars : ℕ → String → String
take_chars zero s = String.[]
take_chars (suc n) String.[] = String.[]
take_chars (suc n) (String.◌∷◌ c s) = String.◌∷◌ c (take_chars n s)

-- The slice is never longer than asked for.
pub count-take_chars-le : (n : ℕ) (s : String) → count (take_chars n s) ≤ n
unfolding take_chars
count-take_chars-le zero s = omega (arith, length-nil)
count-take_chars-le (suc n) String.[] = omega (arith, length-nil)
count-take_chars-le (suc n) (String.◌∷◌ c s) =
    omega (arith, length-cons c (take_chars n s), count-take_chars-le n s)

module _ (tables : CharTables) where
  open tables use {is_space, fold}

  unfoldable pub lstrip : String → String
  lstrip String.[] = String.[]
  lstrip (String.◌∷◌ c s) = let rest = lstrip s in if is_space c then rest else String.◌∷◌ c s

  -- A trailing run of spaces goes, any other space stays.
  unfoldable pub rstrip : String → String
  rstrip String.[] = String.[]
  rstrip (String.◌∷◌ c s) =
      let rest = rstrip s in if is_space c && rest == "" then String.[] else String.◌∷◌ c rest

  unfoldable pub strip : String → String
  unfolding lstrip rstrip
  strip s = lstrip (rstrip s)

  unfoldable pub casefold : String → String
  casefold String.[] = String.[]
  casefold (String.◌∷◌ c s) = fold c ++ casefold s
