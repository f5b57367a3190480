-- ===== src/StringUtils/Text.antt =====
-- The operations of std::string that StringUtils.cpp uses. A position that is npos is `none`, and
-- so is the result of a call that throws std::out_of_range.
use vmodule.Base.{
  ℕ, ◌+◌, Bool, true, false, ◌&&◌, Option, none, some, List, [], ◌∷◌, ◌++◌, ◌==◌, leb,
  if◌then◌else◌, length, take, drop,
}

abbrev pub Text : Type 0
Text = List ℕ

infixl 5 ◌>>=◌
abbrev pub ◌>>=◌ : {A B : Type 0} → Option A → (A → Option B) → Option B
none >>= f = none
some a >>= f = f a

abbrev pub is_empty : Text → Bool
is_empty [] = true
is_empty (c ∷ s) = false

unfoldable pub is_prefix : Text → Text → Bool
is_prefix [] s = true
is_prefix (c ∷ p) [] = false
is_prefix (c ∷ p) (d ∷ s) = (c == d) && is_prefix p s

-- The first position, counted from `i`, at which `p` stands in `s`.
unfoldable pub search_from : Text → Text → ℕ → Option ℕ
search_from p [] i = if is_empty p then some i else none
search_from p (c ∷ s) i = if is_prefix p (c ∷ s) then some i else search_from p s (i + 1)

-- s.find(p, pos)
unfoldable pub find : Text → Text → ℕ → Option ℕ
find s p pos = if leb pos (length s) then search_from p (drop pos s) pos else none

-- s.substr(pos) and s.substr(pos, count)
unfoldable pub substr : Text → ℕ → Option Text
substr s pos = if leb pos (length s) then some (drop pos s) else none

unfoldable pub substr_count : Text → ℕ → ℕ → Option Text
substr_count s pos count = if leb pos (length s) then some (take count (drop pos s)) else none

-- s.replace(pos, count, t)
unfoldable pub replace_at : Text → ℕ → ℕ → Text → Option Text
replace_at s pos count t =
    if leb pos (length s) then some (take pos s ++ (t ++ drop (pos + count) s)) else none

-- What is left from the first character that fails the test.
unfoldable pub skip : (ℕ → Bool) → Text → Text
skip p [] = []
skip p (c ∷ s) = if p c then skip p s else c ∷ s
