-- ===== src/Tests/StringUtils.antt =====
-- Texts are written as character codes: 32 is the space, 97 to 122 are the small letters.
use vmodule.Base.{
  ℕ, zero, suc, ◌-◌, ◌≡◌, ◌↔◌, ◌⊎◌, refl, sym, ap, ◌∙◌, Bool, true, false, ◌&&◌, Option, none, some,
  List, [], ◌∷◌, ◌++◌, arith, ◌==◌, ==_iff, leb, length, get_elem?, has, All, Bool-cases, inl, inr,
  ℤ, pos, negsuc, some_inj,
}
use vmodule.StringUtils.Text.{Text}
use vmodule.StringUtils.Search.{replace, split}
use vmodule.StringUtils.Fields.{IsSplit, cuts, split-IsSplit}
use vmodule.StringUtils.Cut.{pieces, join, Lacks}
use vmodule.StringUtils.Parts.{replace-pieces}
use vmodule.StringUtils.Trim.{Passes}
use vmodule.StringUtils.Numeric.{is_integer, IsNumeral, IsDisjoint, is_integer_iff}
use vmodule.StringUtils.Cases.{Bsearch, FindsSorted, compare_wchar}

abbrev aba : Text
aba = 97 ∷ 98 ∷ 97 ∷ []

replace-pieces_example :
    (replace aba (98 ∷ []) (99 ∷ 99 ∷ [])
      ≡ some (join (99 ∷ 99 ∷ []) (pieces (98 ∷ []) aba), length (pieces (98 ∷ []) aba) - 1))
    × (join (98 ∷ []) (pieces (98 ∷ []) aba) ≡ aba)
    × All (Lacks (98 ∷ [])) (pieces (98 ∷ []) aba)
replace-pieces_example = replace-pieces aba (98 ∷ []) (99 ∷ 99 ∷ []) (λ e. cc)

abbrev blank : ℕ → Bool
blank c = c == 32

abbrev digit : ℕ → Bool
digit c = leb 48 c && leb c 57

abbrev spaced : Text
spaced = 32 ∷ 97 ∷ 32 ∷ 98 ∷ 32 ∷ []

apart : IsDisjoint blank digit
apart c h = ground arith

abbrev forty_two : Text
forty_two = 32 ∷ 52 ∷ 50 ∷ []

is_integer_iff_example : (is_integer blank digit (45 ∷ 52 ∷ []) ≡ true) ↔ (
    (a : Text) × (n : Text) × ((45 ∷ 52 ∷ [] ≡ a ++ n) ⊎ (45 ∷ 52 ∷ [] ≡ a ++ (45 ∷ n)))
    × Passes blank a
    × IsNumeral blank digit n)
is_integer_iff_example = is_integer_iff blank digit apart refl refl (45 ∷ 52 ∷ [])

abbrev tabbed : Text
tabbed = 97 ∷ 9 ∷ 32 ∷ 98 ∷ []

-- A bsearch that looks at one entry after the other.
abbrev deeper : Option ℕ → Option ℕ
deeper none = none
deeper (some i) = some (suc i)

abbrev at_zero : ℤ → Option ℕ → Option ℕ
at_zero (pos zero) later = some 0
at_zero (pos (suc n)) later = deeper later
at_zero (negsuc n) later = deeper later

abbrev scan : Bsearch
scan compare c [] = none
scan compare c (x ∷ table) = let later = scan compare c table in at_zero (compare c x) later

compare-same : (c x : ℕ) → (c == x) ≡ true → compare_wchar c x ≡ pos 0
unfolding compare_wchar
compare-same c x h = ground arith

at_zero-other :
    (c x : ℕ) (later : Option ℕ)
    → (c == x) ≡ false
    → at_zero (compare_wchar c x) later ≡ deeper later
unfolding compare_wchar
at_zero-other c x later h = ground arith

deeper-some :
    (o : Option ℕ) (c x : ℕ) (table : List ℕ) (p : ℕ)
    → ((i : ℕ) → o ≡ some i → get_elem? table i ≡ some c)
    → deeper o ≡ some p
    → get_elem? (x ∷ table) p ≡ some c
deeper-some none c x table p found e = cc
deeper-some (some i) c x table zero found e = absurd (omega (arith, some_inj e))
deeper-some (some i) c x table (suc p) found e = found p (ap some (omega (arith, some_inj e)))

deeper-none : (o : Option ℕ) → deeper o ≡ none → o ≡ none
deeper-none none e = refl
deeper-none (some i) e = cc

scan-found :
    (c : ℕ) (table : List ℕ) (p : ℕ)
    → scan compare_wchar c table ≡ some p
    → get_elem? table p ≡ some c
scan-found c [] p e = cc
scan-found c (x ∷ table) p e = elim (Bool-cases (c == x)) [
  | inl same ↦
      let i_is : 0 ≡ p = some_inj (rw (compare-same c x same) at e) in
      rw (sym i_is) (ap some (sym ((==_iff c x).0 same)))
  | inr other ↦
      deeper-some (scan compare_wchar c table) c x table p (scan-found c table)
        (sym (at_zero-other c x _ other) ∙ e)
]

scan-missed : (c : ℕ) (table : List ℕ) → scan compare_wchar c table ≡ none → has c table ≡ false
scan-missed c [] e = refl
scan-missed c (x ∷ table) e = elim (Bool-cases (c == x)) [
  | inl same ↦ cc (rw (compare-same c x same) at e)
  | inr other ↦ rw other (scan-missed c table (deeper-none _ (sym (at_zero-other c x _ other) ∙ e)))
]

scan-FindsSorted : FindsSorted scan
scan-FindsSorted c table sorted = (scan-found c table, scan-missed c table)

split-IsSplit_example :
    (parts : List Text) × (split aba (98 ∷ []) 0 ≡ some parts)
    × IsSplit (cuts 32 0) (98 ∷ []) aba parts
split-IsSplit_example = split-IsSplit aba (98 ∷ []) 0 (λ e. cc) (λ e. cc) (omega arith)
