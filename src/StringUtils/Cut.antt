-- ===== src/StringUtils/Cut.antt =====
-- Finding a text in a text, and the reference that Replace and Split are measured by: cutting a
-- text at the occurrences of another, from the left and without overlap.
use vmodule.Base.{
  ℕ, zero, suc, ◌+◌, ◌<◌, ◌≤◌, ◌≡◌, refl, sym, ap, subst, ◌≢◌, true, false, Option, none, some,
  List, [], ◌∷◌, ◌++◌, arith, length, take, drop, length-append, length-drop, Bool-cases,
  Option-cases, some_inj, inl, inr, All,
}
use vmodule.StringUtils.Text.{Text, is_prefix, search_from}

unfoldable pub cut : ℕ → Text → Text → List Text
cut zero p s = s ∷ []
cut (suc fuel) p s = elim (search_from p s 0) [
  | none ↦ s ∷ []
  | some i ↦ take i s ∷ cut fuel p (drop (i + length p) s)
]

unfoldable pub join : Text → List Text → Text
join d [] = []
join d (s ∷ []) = s
join d (s ∷ t ∷ ts) = s ++ (d ++ join d (t ∷ ts))

pub cut-whole : (fuel : ℕ) (p s : Text) → search_from p s 0 ≡ none → cut (suc fuel) p s ≡ s ∷ []
unfolding cut
cut-whole fuel p s e = rw (e, cut)

pub cut-next :
    (fuel : ℕ) (p s : Text) (j : ℕ)
    → search_from p s 0 ≡ some j
    → cut (suc fuel) p s ≡ take j s ∷ cut fuel p (drop (j + length p) s)
unfolding cut
cut-next fuel p s j e = rw (e, cut)

pub cut-ne-nil : (fuel : ℕ) (p s : Text) → cut fuel p s ≢ []
unfolding cut
cut-ne-nil zero p s = ground arith
cut-ne-nil (suc fuel) p s = ground arith

pub length-cut : (fuel : ℕ) (p s : Text) → 0 < length (cut fuel p s)
unfolding cut
length-cut zero p s = omega arith
length-cut (suc fuel) p s = ground arith

pub join-single : (d s : Text) → join d (s ∷ []) ≡ s
unfolding join
join-single d s = refl

pub join-cons : (d s : Text) (ts : List Text) → ts ≢ [] → join d (s ∷ ts) ≡ s ++ (d ++ join d ts)
unfolding join
join-cons d s [] h = absurd (h refl)
join-cons d s (t ∷ ts) h = refl

-- The pieces of `s` between the occurrences of `p`.
unfoldable pub pieces : Text → Text → List Text
unfolding cut
pieces p s = cut (suc (length s)) p s

pub is_prefix-append : (p s : Text) → is_prefix p s ≡ true → s ≡ p ++ drop (length p) s
unfolding is_prefix
is_prefix-append [] s h = refl
is_prefix-append (c ∷ p) [] h = cc
is_prefix-append (c ∷ p) (d ∷ s) h = ground (arith, is_prefix-append p s)

abbrev pub shift : ℕ → Option ℕ → Option ℕ
shift i none = none
shift i (some j) = some (j + i)

shift-shift : (i : ℕ) (o : Option ℕ) → shift i (shift 1 o) ≡ shift (i + 1) o
shift-shift i none = refl
shift-shift i (some j) = ap some (omega arith)

-- Counting from `i` adds `i` to the position.
pub search_from-shift : (p s : Text) (i : ℕ) → search_from p s i ≡ shift i (search_from p s 0)
unfolding search_from
search_from-shift p [] i = ground arith
search_from-shift p (c ∷ s) i = elim (Bool-cases (is_prefix p (c ∷ s))) [
  | inl hit ↦ rw hit (ap some (omega arith))
  | inr miss ↦
      let e : 0 + 1 ≡ 1 = omega arith in
      rw (miss, e, search_from-shift p s (i + 1), search_from-shift p s 1)
        (sym (shift-shift i (search_from p s 0)))
]

-- `p` stands in `s` at `j`.
abbrev pub Stands : Text → Text → ℕ → Type 0
Stands p s j = (s ≡ take j s ++ (p ++ drop (j + length p) s)) × (j + length p ≤ length s)

Stands-start : (p s : Text) → is_prefix p s ≡ true → Stands p s 0
Stands-start p s h =
    let e : 0 + length p ≡ length p = omega arith in
    let whole = is_prefix-append p s h in
    rw e (whole, omega (arith, ap length whole, length-append p (drop (length p) s)))

Stands-later : (p : Text) (c : ℕ) (s : Text) (j : ℕ) → Stands p s j → Stands p (c ∷ s) (suc j)
Stands-later p c s j (e, le) =
    let e' : suc j + length p ≡ suc (j + length p) = omega arith in
    rw e' (ap (λ t. c ∷ t) e, omega arith)

further :
    (p : Text) (c : ℕ) (s : Text) (j : ℕ) (o : Option ℕ)
    → ((k : ℕ) → o ≡ some k → Stands p s k)
    → shift (0 + 1) o ≡ some j
    → Stands p (c ∷ s) j
further p c s j none ih e = cc
further p c s j (some k) ih e =
    subst (Stands p (c ∷ s)) (omega (arith, some_inj e)) (Stands-later p c s k (ih k refl))

-- Where the search ends, `p` stands.
pub search_from-Stands : (p s : Text) (j : ℕ) → search_from p s 0 ≡ some j → Stands p s j
unfolding search_from
search_from-Stands [] [] j h =
    subst (Stands [] []) (some_inj h) (Stands-start [] [] (unfold is_prefix in refl))
search_from-Stands (d ∷ p) [] j h = cc
search_from-Stands p (c ∷ s) j h = elim (Bool-cases (is_prefix p (c ∷ s))) [
  | inl hit ↦ subst (Stands p (c ∷ s)) (some_inj (rw hit at h)) (Stands-start p (c ∷ s) hit)
  | inr miss ↦
      further p c s j (search_from p s 0) (search_from-Stands p s)
        (rw (miss, search_from-shift p s (0 + 1)) at h)
]

-- `p` does not stand in `s`.
abbrev pub Lacks : Text → Text → Type 0
Lacks p s = search_from p s 0 ≡ none

is_prefix-take : (p s : Text) (k : ℕ) → is_prefix p (take k s) ≡ true → is_prefix p s ≡ true
unfolding is_prefix
is_prefix-take [] s k h = refl
is_prefix-take (c ∷ p) [] zero h = h
is_prefix-take (c ∷ p) [] (suc k) h = h
is_prefix-take (c ∷ p) (d ∷ s) zero h = cc
is_prefix-take (c ∷ p) (d ∷ s) (suc k) h = ground (arith, is_prefix-take p s k)

Lacks-cons :
    (p : Text) (c : ℕ) (s : Text) → is_prefix p (c ∷ s) ≡ false → Lacks p s → Lacks p (c ∷ s)
unfolding search_from
Lacks-cons p c s miss h =
    let e : 0 + 1 ≡ 1 = omega arith in rw (miss, e, search_from-shift p s 1, h)

not_prefix : (p s : Text) (k : ℕ) → is_prefix p s ≡ false → is_prefix p (take k s) ≡ false
not_prefix p s k h = elim (Bool-cases (is_prefix p (take k s))) [
  | inl hit ↦ cc (is_prefix-take p s k hit)
  | inr miss ↦ miss
]

-- Before the first occurrence there is none.
pub take-Lacks :
    (c : ℕ) (p s : Text) (j : ℕ) → search_from (c ∷ p) s 0 ≡ some j → Lacks (c ∷ p) (take j s)
unfolding search_from
take-Lacks c p [] j h = cc
take-Lacks c p (d ∷ s) zero h = refl
take-Lacks c p (d ∷ s) (suc j) h = elim (Bool-cases (is_prefix (c ∷ p) (d ∷ s))) [
  | inl hit ↦ absurd (omega (arith, some_inj (rw hit at h)))
  | inr miss ↦ Lacks-cons (c ∷ p) d (take j s) (not_prefix (c ∷ p) (d ∷ s) (suc j) miss) (
      take-Lacks c p s j
        (earlier (search_from (c ∷ p) s 0) (rw (miss, search_from-shift (c ∷ p) s (0 + 1)) at h)))
]
  where
    earlier : (o : Option ℕ) → shift (0 + 1) o ≡ some (suc j) → o ≡ some j
    earlier none e = cc
    earlier (some k) e = ap some (omega (arith, some_inj e))

pub cut-Lacks :
    (fuel c : ℕ) (p s : Text) → length s < fuel → All (Lacks (c ∷ p)) (cut fuel (c ∷ p) s)
cut-Lacks zero c p s h = absurd (omega arith)
cut-Lacks (suc fuel) c p s h = elim (Option-cases (search_from (c ∷ p) s 0)) [
  | inl e ↦ rw (cut-whole fuel (c ∷ p) s e) (e, tt)
  | inr (j, e) ↦ rw (cut-next fuel (c ∷ p) s j e) (
    take-Lacks c p s j e,
    cut-Lacks fuel c p (drop (j + length (c ∷ p)) s)
        (omega (arith, length-drop (j + length (c ∷ p)) s, (search_from-Stands (c ∷ p) s j e).1)),
  )
]
