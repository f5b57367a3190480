-- ===== src/StringUtils/Search.antt =====
-- StringUtils::Replace, Split and FindNumber. Each loop runs on fuel, one round more than the text
-- has characters; out of fuel it gives `none`. `int` counters are assumed not to overflow.
use vmodule.Base.{
  ℕ, zero, suc, ◌+◌, ◌-◌, ◌%◌, ◌^◌, Option, none, some, List, [], ◌∷◌, ◌++◌, ◌==◌, ltb,
  if◌then◌else◌, length,
}
use vmodule.StringUtils.Text.{
  Text, ◌>>=◌, is_empty, is_prefix, search_from, find, substr, substr_count, replace_at,
}

-- Replace(str, oldChar, newChar): the text afterwards, and the count.
unfoldable pub replace_char : Text → ℕ → ℕ → Text × ℕ
replace_char [] old_char new_char = ([], 0)
replace_char (c ∷ s) old_char new_char =
    let rest = replace_char s old_char new_char in
    if c == old_char then (new_char ∷ rest.0, rest.1 + 1) else (c ∷ rest.0, rest.1)

unfoldable pub replace_loop : ℕ → Text → Text → Text → ℕ → ℕ → Option (Text × ℕ)
unfolding find search_from is_prefix replace_at
replace_loop zero old_str new_str str index count = none
replace_loop (suc fuel) old_str new_str str index count =
    if ltb index (length str)
    then elim (find str old_str index) [
      | none ↦ some (str, count)
      | some at ↦
          (replace_at str at (length old_str) new_str >>= λ str'.
          replace_loop fuel old_str new_str str' (at + length new_str) (count + 1))
    ]
    else some (str, count)

-- Replace(str, oldStr, newStr), for std::string and std::wstring.
unfoldable pub replace : Text → Text → Text → Option (Text × ℕ)
unfolding replace_loop
replace str old_str new_str =
    if is_empty old_str
    then some (str, 0)
    else replace_loop (suc (length str)) old_str new_str str 0 0

-- --iMaxStrings of a w-bit unsigned counter
abbrev pub pre_decrement : ℕ → ℕ → ℕ
pre_decrement w n = (n + (2 ^ w - 1)) % 2 ^ w

-- The do-while loop of Split; `w` is the width of iMaxStrings.
unfoldable pub split_loop : ℕ → ℕ → Text → Text → ℕ → ℕ → List Text → Option (List Text)
unfolding find search_from is_prefix substr substr_count
split_loop w zero input delimiter max_strings text_pos results = none
split_loop w (suc fuel) input delimiter max_strings text_pos results =
    if pre_decrement w max_strings == 0
    then (substr input text_pos >>= λ piece. some (results ++ piece ∷ []))
    else elim (find input delimiter text_pos) [
      | none ↦ (substr input text_pos >>= λ piece. some (results ++ piece ∷ []))
      | some next_delim ↦
          (substr_count input text_pos (next_delim - text_pos) >>= λ piece.
          split_loop w fuel input delimiter (pre_decrement w max_strings)
            (next_delim + length delimiter) (results ++ piece ∷ []))
    ]

-- Split(input, delimiter, iMaxStrings) with a string for a delimiter.
unfoldable pub split : Text → Text → ℕ → Option (List Text)
unfolding split_loop
split input delimiter max_strings =
    if is_empty input
    then some []
    else if is_empty delimiter
    then some (input ∷ [])
    else split_loop 32 (suc (length input)) input delimiter max_strings 0 []

-- Split with a character for a delimiter, and a size_t for a limit.
unfoldable pub split_char : Text → ℕ → ℕ → Option (List Text)
unfolding split_loop
split_char input delimiter max_strings =
    if is_empty input
    then some []
    else split_loop 64 (suc (length input)) input (delimiter ∷ []) max_strings 0 []

unfoldable pub find_number_loop : ℕ → Text → Text → Option ℕ → ℕ → Option ℕ
unfolding find search_from is_prefix
find_number_loop fuel str_input str_find none num_found = some num_found
find_number_loop zero str_input str_find (some pos) num_found = none
find_number_loop (suc fuel) str_input str_find (some pos) num_found =
    find_number_loop fuel str_input str_find (find str_input str_find (pos + 1)) (num_found + 1)

unfoldable pub find_number : Text → Text → Option ℕ
unfolding find_number_loop
find_number str_input str_find =
    find_number_loop (suc (length str_input)) str_input str_find (find str_input str_find 0) 0
