-- ===== src/StringUtils/Numeric.antt =====
-- StringUtils::IsNaturalNumber and IsInteger, and the US-ASCII tests of StringUtils.h. What
-- `isspace` and `isdigit` of the C library accept are parameters of the first two.
use vmodule.Base.{
  ℕ, ◌+◌, ◌-◌, ◌<◌, ◌≡◌, ◌≢◌, ◌↔◌, ◌⊎◌, refl, sym, ap, ◌∙◌, Bool, true, false, ◌&&◌, ◌||◌, [], ◌∷◌,
  ◌++◌, append-nil, arith, ◌==◌, leb, ltb, ==_iff, if◌then◌else◌, Bool-cases, inl, inr, ℤ, pos,
  negsuc,
}
use vmodule.StringUtils.Text.{Text, is_empty, skip}
use vmodule.StringUtils.Trim.{starts, Passes, skip-split, skip-append, skip-starts}

-- What is left after the characters that pass, and how many these were.
unfoldable pub pass_over : (ℕ → Bool) → Text → Text × ℕ
pass_over p [] = ([], 0)
pass_over p (c ∷ s) = let rest = pass_over p s in if p c then (rest.0, rest.1 + 1) else (c ∷ s, 0)

unfoldable pub is_natural_number : (ℕ → Bool) → (ℕ → Bool) → Text → Bool
unfolding skip pass_over
is_natural_number isspace isdigit str =
    let digits = pass_over isdigit (skip isspace str) in
    is_empty (skip isspace digits.0) && ltb 0 digits.1

-- if (i < str.size() && str[i] == '-') i++;
unfoldable pub skip_minus : Text → Text
skip_minus [] = []
skip_minus (c ∷ s) = if c == 45 then s else c ∷ s

unfoldable pub is_integer : (ℕ → Bool) → (ℕ → Bool) → Text → Bool
unfolding skip pass_over skip_minus
is_integer isspace isdigit str =
    let digits = pass_over isdigit (skip_minus (skip isspace str)) in
    is_empty (skip isspace digits.0) && ltb 0 digits.1

unfoldable pub isasciidigit : ℕ → Bool
isasciidigit chr = leb 48 chr && leb chr 57

unfoldable pub isasciixdigit : ℕ → Bool
isasciixdigit chr =
    (leb 48 chr && leb chr 57) || (leb 97 chr && leb chr 102) || (leb 65 chr && leb chr 70)

unfoldable pub asciidigitvalue : ℕ → ℤ
unfolding isasciidigit
asciidigitvalue chr = if isasciidigit chr then pos (chr - 48) else negsuc 0

unfoldable pub asciixdigitvalue : ℕ → ℤ
unfolding asciidigitvalue
asciixdigitvalue chr = elim (asciidigitvalue chr) [
  | pos v ↦ pos v
  | negsuc v ↦
      if leb 97 chr && leb chr 102
      then pos (chr - 97 + 10)
      else if leb 65 chr && leb chr 70
      then pos (chr - 65 + 10)
      else negsuc 0
]

unfoldable pub isasciiuppercaseletter : ℕ → Bool
isasciiuppercaseletter chr = leb 65 chr && leb chr 90

unfoldable pub isasciilowercaseletter : ℕ → Bool
isasciilowercaseletter chr = leb 97 chr && leb chr 122

unfoldable pub isasciialphanum : ℕ → Bool
unfolding isasciiuppercaseletter isasciilowercaseletter isasciidigit
isasciialphanum chr = isasciiuppercaseletter chr || isasciilowercaseletter chr || isasciidigit chr

-- What the value of a hexadecimal digit, and of any other character, is like.
abbrev pub IsHexValue : Bool → ℤ → Type 0
IsHexValue b (pos v) = (b ≡ true) × (v < 16)
IsHexValue b (negsuc n) = (b ≡ false) × (n ≡ 0)

-- Asciixdigitvalue gives a value below 16 for the characters that isasciixdigit accepts, and -1 for
-- the others.
pub asciixdigitvalue-IsHexValue : (chr : ℕ) → IsHexValue (isasciixdigit chr) (asciixdigitvalue chr)
unfolding asciixdigitvalue asciidigitvalue isasciidigit isasciixdigit
asciixdigitvalue-IsHexValue chr = ground arith

-- A natural number is digits, at least one, between whitespace.
abbrev pub IsNumeral : (ℕ → Bool) → (ℕ → Bool) → Text → Type 0
IsNumeral isspace isdigit str =
    (d : Text) × (b : Text) × (str ≡ d ++ b) × (d ≢ []) × Passes isdigit d × Passes isspace b

pass_over-skip : (p : ℕ → Bool) (s : Text) → (pass_over p s).0 ≡ skip p s
unfolding pass_over skip
pass_over-skip p [] = refl
pass_over-skip p (c ∷ s) = elim (Bool-cases (p c)) [
  | inl e ↦ rw (e, pass_over-skip p s)
  | inr e ↦ rw e
]

pass_over-starts : (p : ℕ → Bool) (s : Text) → ltb 0 (pass_over p s).1 ≡ starts p s
unfolding pass_over
pass_over-starts p [] = refl
pass_over-starts p (c ∷ s) = elim (Bool-cases (p c)) [ inl e ↦ rw e (ground arith) | inr e ↦ rw e ]

-- What the C standard says of the two tests.
abbrev pub IsDisjoint : (ℕ → Bool) → (ℕ → Bool) → Type 0
IsDisjoint isspace isdigit = (c : ℕ) → isdigit c ≡ true → isspace c ≡ false

is_empty-nil : (s : Text) → is_empty s ≡ true → s ≡ []
is_empty-nil [] h = refl
is_empty-nil (c ∷ s) h = cc

&&-true : (a b : Bool) → (a && b) ≡ true → (a ≡ true) × (b ≡ true)
&&-true true b h = (refl, h)
&&-true false b h = cc

minus_cases :
    (a str s : Text) → str ≡ a ++ s → (str ≡ a ++ skip_minus s) ⊎ (str ≡ a ++ (45 ∷ skip_minus s))
unfolding skip_minus
minus_cases a str [] e = inl e
minus_cases a str (c ∷ s) e = elim (Bool-cases (c == 45)) [
  | inl m ↦ rw m (inr (e ∙ ap (λ x. a ++ (x ∷ s)) ((==_iff c 45).0 m)))
  | inr o ↦ rw o (inl e)
]

module _ (isspace isdigit : ℕ → Bool) where
  end_is :
      (s : Text)
      → (is_empty (skip isspace (pass_over isdigit s).0) && ltb 0 (pass_over isdigit s).1)
        ≡ (is_empty (skip isspace (skip isdigit s)) && starts isdigit s)
  end_is s = rw (pass_over-skip isdigit s, pass_over-starts isdigit s)

  no_blank :
      IsDisjoint isspace isdigit
      → (n : Text) → IsNumeral isspace isdigit n
      → starts isspace n ≡ false
  no_blank apart n ([], b, e, some_digit, ds, bs) = absurd (some_digit refl)
  no_blank apart n (c ∷ d, b, e, some_digit, ds, bs) = rw e (apart c ds.0)

  no_minus : isdigit 45 ≡ false → (n : Text) → IsNumeral isspace isdigit n → skip_minus n ≡ n
  unfolding skip_minus
  no_minus no_digit n ([], b, e, some_digit, ds, bs) = absurd (some_digit refl)
  no_minus no_digit n (c ∷ d, b, e, some_digit, ds, bs) = elim (Bool-cases (c == 45)) [
    | inl m ↦ cc (ds.0, no_digit, ap isdigit ((==_iff c 45).0 m))
    | inr o ↦ rw (e, o)
  ]

  numeral→digits_end :
      IsDisjoint isspace isdigit
      → (s : Text) → IsNumeral isspace isdigit s
      → (is_empty (skip isspace (skip isdigit s)) && starts isdigit s) ≡ true
  numeral→digits_end apart s ([], b, e, some_digit, ds, bs) = absurd (some_digit refl)
  numeral→digits_end apart s (c ∷ d, b, e, some_digit, ds, bs) =
      rw (e, skip-append isdigit (c ∷ d) b ds (blank_stops b bs), all_skipped b bs, ds.0)
    where
      blank_stops : (b : Text) → Passes isspace b → starts isdigit b ≡ false
      blank_stops [] hs = refl
      blank_stops (x ∷ b) (h, hs) = elim (Bool-cases (isdigit x)) [
        | inl d ↦ cc (apart x d)
        | inr n ↦ n
      ]

      all_skipped : (b : Text) → Passes isspace b → skip isspace b ≡ []
      all_skipped b hs = ap (skip isspace) (sym (append-nil b)) ∙ skip-append isspace b [] hs refl

  digits_end→numeral :
      (s : Text)
      → (is_empty (skip isspace (skip isdigit s)) && starts isdigit s) ≡ true
      → IsNumeral isspace isdigit s
  digits_end→numeral s h =
      let (d, whole, ds) = skip-split isdigit s in
      let (b, whole', bs) = skip-split isspace (skip isdigit s) in
      let (gone, begun) = &&-true _ _ h in
      (
        d,
        b,
        whole ∙ ap (λ t. d ++ t) (whole' ∙ ap (λ t. b ++ t) (is_empty-nil _ gone) ∙ append-nil b),
        (λ none_passed. cc (begun, whole, none_passed, skip-starts isdigit s)),
        ds,
        bs,
      )

  -- Where no digit is whitespace, IsNaturalNumber accepts a text exactly if it is whitespace, at
  -- least one digit and whitespace.
  pub is_natural_number_iff :
      IsDisjoint isspace isdigit
      → (str : Text)
      → (is_natural_number isspace isdigit str ≡ true) ↔ (
          (a : Text) × (n : Text) × (str ≡ a ++ n) × Passes isspace a × IsNumeral isspace isdigit n)
  unfolding is_natural_number
  is_natural_number_iff apart str =
      let (a, whole, blank) = skip-split isspace str in
      let e = end_is in
      (
        (λ h. (
          a,
          skip isspace str,
          whole,
          blank,
          digits_end→numeral (skip isspace str) (sym (e (skip isspace str)) ∙ h),
        )),
        (λ (a', n, whole', blank', numeral).
            rw (whole', skip-append isspace a' n blank' (no_blank apart n numeral))
              (e n ∙ numeral→digits_end apart n numeral)),
      )

  -- Where no digit is whitespace and the minus sign is neither, IsInteger accepts a text exactly if
  -- it is whitespace, at most one minus sign, at least one digit and whitespace.
  pub is_integer_iff :
      IsDisjoint isspace isdigit
      → isspace 45 ≡ false
      → isdigit 45 ≡ false
      → (str : Text)
      → (is_integer isspace isdigit str ≡ true) ↔ (
          (a : Text) × (n : Text) × ((str ≡ a ++ n) ⊎ (str ≡ a ++ (45 ∷ n)))
          × Passes isspace a
          × IsNumeral isspace isdigit n)
  unfolding is_integer
  is_integer_iff apart no_space no_digit str =
      let (a, whole, blank) = skip-split isspace str in
      let e = end_is in
      (
        (λ h.
            let numeral =
              digits_end→numeral (skip_minus (skip isspace str))
                (sym (e (skip_minus (skip isspace str))) ∙ h) in
            (
              a,
              skip_minus (skip isspace str),
              minus_cases a str (skip isspace str) whole,
              blank,
              numeral,
            )),
        (λ (a', n, whole', blank', numeral). elim whole' [
          | inl w ↦
              rw
                (
                  w,
                  skip-append isspace a' n blank' (no_blank apart n numeral),
                  no_minus no_digit n numeral,
                )
                (e n ∙ numeral→digits_end apart n numeral)
          | inr w ↦
              rw (w, skip-append isspace a' (45 ∷ n) blank' no_space)
                (unfold skip_minus in (e n ∙ numeral→digits_end apart n numeral))
        ]),
      )
