-- ===== src/StringUtils/Trim.antt =====
-- StringUtils::Trim, TrimLeft and TrimRight. What `isspace` of the C library accepts is a
-- parameter; a character is a byte.
use vmodule.Base.{
  ℕ, ◌/◌, ◌%◌, ◌≡◌, refl, sym, ap, subst, ◌∙◌, Bool, true, false, ◌&&◌, [], ◌∷◌, ◌++◌, reverse,
  ◌==◌, has, All, Bool-cases, inl, inr,
}
use mathlib.Core.List.{reverse-cons, reverse-append, reverse-reverse}
use vmodule.StringUtils.Text.{Text, skip}

-- What is left of the text when what passes the test is erased from its end.
unfoldable pub skip_back : (ℕ → Bool) → Text → Text
unfolding skip
skip_back p str = reverse (skip p (reverse str))

unfoldable pub isspace_c : (ℕ → Bool) → ℕ → Bool
isspace_c isspace c = (c / 128 % 2 == 0) && isspace c

unfoldable pub trim_left : (ℕ → Bool) → Text → Text
unfolding skip isspace_c
trim_left isspace str = skip (isspace_c isspace) str

unfoldable pub trim_left_of : Text → Text → Text
unfolding skip
trim_left_of str chars = skip (λ c. has c chars) str

unfoldable pub trim_right : (ℕ → Bool) → Text → Text
unfolding skip_back isspace_c
trim_right isspace str = skip_back (isspace_c isspace) str

unfoldable pub trim_right_of : Text → Text → Text
unfolding skip_back
trim_right_of str chars = skip_back (λ c. has c chars) str

unfoldable pub trim : (ℕ → Bool) → Text → Text
unfolding trim_left trim_right
trim isspace str = trim_right isspace (trim_left isspace str)

unfoldable pub trim_of : Text → Text → Text
unfolding trim_left_of trim_right_of
trim_of str chars = trim_right_of (trim_left_of str chars) chars

abbrev pub starts : (ℕ → Bool) → Text → Bool
starts p [] = false
starts p (c ∷ s) = p c

abbrev pub Passes : (ℕ → Bool) → Text → Type 0
Passes p s = All (λ c. p c ≡ true) s

pub skip-starts : (p : ℕ → Bool) (s : Text) → starts p (skip p s) ≡ false
unfolding skip
skip-starts p [] = refl
skip-starts p (c ∷ s) = elim (Bool-cases (p c)) [ inl e ↦ rw e (skip-starts p s) | inr e ↦ rw e e ]

pub skip-split : (p : ℕ → Bool) (s : Text) → (a : Text) × (s ≡ a ++ skip p s) × Passes p a
unfolding skip
skip-split p [] = ([], refl, tt)
skip-split p (c ∷ s) = elim (Bool-cases (p c)) [
  | inl e ↦
      let (a, whole, pass) = skip-split p s in (c ∷ a, rw e (ap (λ t. c ∷ t) whole), (e, pass))
  | inr e ↦ ([], rw e refl, tt)
]

pub skip_idle : (p : ℕ → Bool) (s : Text) → starts p s ≡ false → skip p s ≡ s
unfolding skip
skip_idle p [] h = refl
skip_idle p (c ∷ s) h = rw h refl

pub skip-append :
    (p : ℕ → Bool) (a s : Text) → Passes p a → starts p s ≡ false → skip p (a ++ s) ≡ s
unfolding skip
skip-append p [] s h stop = skip_idle p s stop
skip-append p (c ∷ a) s (h, hs) stop = rw h (skip-append p a s hs stop)

Passes-append : (p : ℕ → Bool) (a b : Text) → Passes p a → Passes p b → Passes p (a ++ b)
Passes-append p [] b ha hb = hb
Passes-append p (c ∷ a) b (h, ha) hb = (h, Passes-append p a b ha hb)

starts-append : (p : ℕ → Bool) (a b : Text) → starts p (a ++ b) ≡ false → starts p a ≡ false
starts-append p [] b h = refl
starts-append p (c ∷ a) b h = h

-- What a text trimmed by a test is: nothing that passes at either end, and the text before it is
-- the result between two runs of what passes.
abbrev pub IsTrimOf : (ℕ → Bool) → Text → Text → Type 0
IsTrimOf p str t =
    (starts p t ≡ false)
    × (starts p (reverse t) ≡ false)
    × ((a : Text) × (b : Text) × (str ≡ a ++ (t ++ b)) × Passes p a × Passes p b)

Passes-reverse : (p : ℕ → Bool) (a : Text) → Passes p a → Passes p (reverse a)
Passes-reverse p [] h = tt
Passes-reverse p (c ∷ a) (h, hs) =
    rw (reverse-cons c a) (Passes-append p (reverse a) (c ∷ []) (Passes-reverse p a hs) (h, tt))

skip_back-split : (p : ℕ → Bool) (s : Text) → (b : Text) × (s ≡ skip_back p s ++ b) × Passes p b
unfolding skip_back
skip_back-split p s =
    let (a, whole, pass) = skip-split p (reverse s) in
    (
      reverse a,
      sym (reverse-reverse s) ∙ ap reverse whole ∙ reverse-append a (skip p (reverse s)),
      Passes-reverse p a pass,
    )

strip-IsTrimOf : (p : ℕ → Bool) (str : Text) → IsTrimOf p str (skip_back p (skip p str))
strip-IsTrimOf p str =
    let (a, whole, pass) = skip-split p str in
    let (b, whole', pass') = skip_back-split p (skip p str) in
    (
      starts-append p _ b (subst (λ t. starts p t ≡ false) whole' (skip-starts p str)),
      (unfold skip_back in
          (rw (reverse-reverse (skip p (reverse (skip p str))))
            (skip-starts p (reverse (skip p str))))),
      (a, b, whole ∙ ap (λ t. a ++ t) whole', pass, pass'),
    )

-- The text is what Trim gives between two runs of whitespace, and what it gives neither starts nor
-- ends with whitespace, for any isspace, which is asked only of characters below 128.
pub trim-IsTrimOf :
    (isspace : ℕ → Bool) (str : Text) → IsTrimOf (isspace_c isspace) str (trim isspace str)
unfolding trim trim_left trim_right
trim-IsTrimOf isspace str = strip-IsTrimOf (isspace_c isspace) str

-- The text is what Trim with a set of characters gives between two runs of these characters, and
-- what it gives neither starts nor ends with one of them.
pub trim_of-IsTrimOf : (str chars : Text) → IsTrimOf (λ c. has c chars) str (trim_of str chars)
unfolding trim_of trim_left_of trim_right_of
trim_of-IsTrimOf str chars = strip-IsTrimOf (λ c. has c chars) str

-- A second Trim of the text that Trim gave changes nothing, for any isspace.
pub trim-trim :
    (isspace : ℕ → Bool) (str : Text) → trim isspace (trim isspace str) ≡ trim isspace str
unfolding trim trim_left trim_right
trim-trim isspace str =
    let (front, back, parts) = trim-IsTrimOf isspace str in
    ap (λ t. skip_back (isspace_c isspace) t)
      (skip_idle (isspace_c isspace) (trim isspace str) front)
    ∙ unfold skip_back in
      (ap reverse (skip_idle (isspace_c isspace) (reverse (trim isspace str)) back)
        ∙ reverse-reverse (trim isspace str))
