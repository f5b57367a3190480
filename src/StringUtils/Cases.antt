-- ===== src/StringUtils/Cases.antt =====
-- toupperUnicode, tolowerUnicode and the wide ToUpper and ToLower of StringUtils.cpp. `bsearch` of
-- the C library is a parameter: it takes the comparison, the key and the table, and gives the index
-- of what it found.
pub mod Tables
use vmodule.Base.{
  ℕ, zero, suc, ◌<◌, ◌≡◌, refl, sym, ap, ◌∙◌, Bool, true, false, ◌&&◌, Option, none, some, List, [],
  ◌∷◌, map, arith, ltb, ltb→lt, if◌then◌else◌, length, get_elem?, has, ==_iff, ◌==◌, Bool-cases,
  inl, inr, Option-cases, some_inj, ℤ, pos, negsuc,
}
use vmodule.StringUtils.Text.{Text}
use vmodule.StringUtils.Cases.Tables.{
  unicode_lowers, unicode_uppers, unicode_lowers_first, unicode_lowers_last, unicode_uppers_first,
  unicode_uppers_last,
}

abbrev pub Bsearch : Type 0
Bsearch = (ℕ → ℕ → ℤ) → ℕ → List ℕ → Option ℕ

unfoldable pub compare_wchar : ℕ → ℕ → ℤ
compare_wchar a b = if ltb a b then negsuc 0 else if ltb b a then pos 1 else pos 0

-- *(table + (p - searched))
unfoldable pub entry : List ℕ → ℕ → Option ℕ → ℕ
entry table c none = c
entry table c (some p) = elim (get_elem? table p) [ none ↦ c | some u ↦ u ]

unfoldable pub tolower_unicode : Bsearch → ℕ → ℕ
unfolding entry compare_wchar unicode_uppers unicode_lowers
tolower_unicode bsearch c = entry unicode_lowers c (bsearch compare_wchar c unicode_uppers)

unfoldable pub toupper_unicode : Bsearch → ℕ → ℕ
unfolding entry compare_wchar unicode_uppers unicode_lowers
toupper_unicode bsearch c = entry unicode_uppers c (bsearch compare_wchar c unicode_lowers)

unfoldable pub to_upper : Bsearch → Text → Text
unfolding toupper_unicode
to_upper bsearch str = map (toupper_unicode bsearch) str

unfoldable pub to_lower : Bsearch → Text → Text
unfolding tolower_unicode
to_lower bsearch str = map (tolower_unicode bsearch) str

abbrev increases_from : ℕ → List ℕ → Bool
increases_from a [] = true
increases_from a (x ∷ xs) = ltb a x && increases_from x xs

-- In ascending order, without repetition.
abbrev pub is_increasing : List ℕ → Bool
is_increasing [] = true
is_increasing (x ∷ xs) = increases_from x xs

-- What the C standard says of bsearch on a table in ascending order.
abbrev pub FindsSorted : Bsearch → Type 0
FindsSorted bsearch =
    (c : ℕ) (table : List ℕ)
    → is_increasing table ≡ true
    → ((p : ℕ) → bsearch compare_wchar c table ≡ some p → get_elem? table p ≡ some c)
      × (bsearch compare_wchar c table ≡ none → has c table ≡ false)

&&-true : (a b : Bool) → (a && b) ≡ true → (a ≡ true) × (b ≡ true)
&&-true true b h = (refl, h)
&&-true false b h = cc

increases_from-lt :
    (a : ℕ) (xs : List ℕ) (i c : ℕ) → increases_from a xs ≡ true → get_elem? xs i ≡ some c → a < c
increases_from-lt a [] i c h e = cc
increases_from-lt a (x ∷ xs) zero c h e = omega (arith, ltb→lt a x (&&-true _ _ h).0, some_inj e)
increases_from-lt a (x ∷ xs) (suc i) c h e =
    omega (arith, ltb→lt a x (&&-true _ _ h).0, increases_from-lt x xs i c (&&-true _ _ h).1 e)

is_increasing-tail : (x : ℕ) (xs : List ℕ) → increases_from x xs ≡ true → is_increasing xs ≡ true
is_increasing-tail x [] h = refl
is_increasing-tail x (y ∷ xs) h = (&&-true _ _ h).1

get_elem?_inj :
    (xs : List ℕ) (i j c : ℕ)
    → is_increasing xs ≡ true
    → get_elem? xs i ≡ some c
    → get_elem? xs j ≡ some c
    → i ≡ j
get_elem?_inj [] i j c h e f = cc
get_elem?_inj (x ∷ xs) zero zero c h e f = refl
get_elem?_inj (x ∷ xs) zero (suc j) c h e f =
    absurd (omega (arith, increases_from-lt x xs j c h f, some_inj e))
get_elem?_inj (x ∷ xs) (suc i) zero c h e f =
    absurd (omega (arith, increases_from-lt x xs i c h e, some_inj f))
get_elem?_inj (x ∷ xs) (suc i) (suc j) c h e f =
    ap suc (get_elem?_inj xs i j c (is_increasing-tail x xs h) e f)

get_elem?-has : (xs : List ℕ) (i c : ℕ) → get_elem? xs i ≡ some c → has c xs ≡ true
get_elem?-has [] i c e = cc
get_elem?-has (x ∷ xs) zero c e = rw ((==_iff c x).1 (sym (some_inj e))) refl
get_elem?-has (x ∷ xs) (suc i) c e = elim (Bool-cases (c == x)) [
  | inl f ↦ rw f refl
  | inr f ↦ rw f (get_elem?-has xs i c e)
]

get_elem?_same :
    (xs ys : List ℕ) (i c : ℕ)
    → length xs ≡ length ys
    → get_elem? xs i ≡ some c
    → (d : ℕ) × (get_elem? ys i ≡ some d)
get_elem?_same [] ys i c h e = cc
get_elem?_same (x ∷ xs) [] i c h e = absurd (omega arith)
get_elem?_same (x ∷ xs) (y ∷ ys) zero c h e = (y, refl)
get_elem?_same (x ∷ xs) (y ∷ ys) (suc i) c h e = get_elem?_same xs ys i c (omega arith) e

lowers-increasing : is_increasing unicode_lowers ≡ true
unfolding unicode_lowers unicode_lowers_first unicode_lowers_last
lowers-increasing = refl

same-length : length unicode_lowers ≡ length unicode_uppers
unfolding unicode_lowers unicode_uppers unicode_lowers_first unicode_lowers_last
    unicode_uppers_first unicode_uppers_last
same-length = refl

entry-hit : (table : List ℕ) (c p d : ℕ) → get_elem? table p ≡ some d → entry table c (some p) ≡ d
unfolding entry
entry-hit table c p d e = rw (entry, e) refl

module _ (bsearch : Bsearch) (finds : FindsSorted bsearch) (keys values : List ℕ)
    (ascending : is_increasing keys ≡ true) (same : length keys ≡ length values) where
  mapped :
      (i c : ℕ)
      → get_elem? keys i ≡ some c
      → get_elem? values i ≡ some (entry values c (bsearch compare_wchar c keys))
  unfolding entry
  mapped i c e = elim (Option-cases (bsearch compare_wchar c keys)) [
    | inl miss ↦ cc ((finds c keys ascending).1 miss, get_elem?-has keys i c e)
    | inr (p, hit) ↦
        let i_is : p ≡ i =
          get_elem?_inj keys p i c ascending ((finds c keys ascending).0 p hit) e in
        let (d, found) = get_elem?_same keys values i c same e in
        rw (hit, i_is) (found ∙ ap some (sym (entry-hit values c i d found)))
  ]

  kept : (c : ℕ) → has c keys ≡ false → entry values c (bsearch compare_wchar c keys) ≡ c
  unfolding entry
  kept c absent = elim (Option-cases (bsearch compare_wchar c keys)) [
    | inl miss ↦ rw miss refl
    | inr (p, hit) ↦ cc (absent, get_elem?-has keys p c ((finds c keys ascending).0 p hit))
  ]

-- With a bsearch that finds what a table in ascending order holds, toupperUnicode gives the i-th
-- lower-case letter of the table the i-th upper-case letter, and leaves a character alone that is
-- not in the table.
pub toupper_unicode_lem :
    (bsearch : Bsearch)
    → FindsSorted bsearch
    → ((i c : ℕ)
        → get_elem? unicode_lowers i ≡ some c
        → get_elem? unicode_uppers i ≡ some (toupper_unicode bsearch c))
      × ((c : ℕ) → has c unicode_lowers ≡ false → toupper_unicode bsearch c ≡ c)
unfolding toupper_unicode
toupper_unicode_lem bsearch finds = (
  mapped bsearch finds unicode_lowers unicode_uppers lowers-increasing same-length,
  kept bsearch finds unicode_lowers unicode_uppers lowers-increasing same-length,
)
