-- ===== src/StringUtils/Fields.antt =====
-- Split against the pieces of StringUtils/Cut: `cut n` makes at most n cuts.
use vmodule.Base.{
  ℕ, zero, suc, ◌+◌, ◌-◌, ◌%◌, ◌^◌, ◌<◌, ◌≤◌, ◌≡◌, refl, sym, ap, ◌∙◌, ◌≢◌, none, some, List, [],
  ◌∷◌, ◌++◌, append_assoc, arith, ◌==◌, le→leb, length, take, drop, length-append, length-drop,
  length-take, drop-append, Option-cases, inl, inr, All, false,
}
use vmodule.StringUtils.Text.{Text, search_from, substr, substr_count}
use vmodule.StringUtils.Search.{split_loop, split, split_char, pre_decrement}
use vmodule.StringUtils.Cut.{cut, cut-whole, cut-next, cut-Lacks, join, Lacks, search_from-Stands}
use vmodule.StringUtils.Parts.{find-done, join-cut}

substr-done : (done rest : Text) → substr (done ++ rest) (length done) ≡ some rest
unfolding substr
substr-done done rest =
    rw (le→leb (length done) (length (done ++ rest)) (omega (arith, length-append done rest)))
      (ap some (drop-append done rest))

substr_count-done :
    (done rest : Text) (j : ℕ)
    → substr_count (done ++ rest) (length done) (j + length done - length done) ≡ some (take j rest)
unfolding substr_count
substr_count-done done rest j =
    let e : j + length done - length done ≡ j = omega arith in
    rw (
      e,
      le→leb (length done) (length (done ++ rest)) (omega (arith, length-append done rest)),
      drop-append done rest,
    )

regroup : (a b c d : Text) → a ++ (b ++ (c ++ d)) ≡ ((a ++ b) ++ c) ++ d
regroup a b c d = simp append_assoc

module _ (w : ℕ) (counts : (n : ℕ) → n < 2 ^ w → pre_decrement w ((n + 1) % 2 ^ w) ≡ n)
    (wraps : (n : ℕ) → suc n < 2 ^ w → suc n ≡ (n + 1) % 2 ^ w) where
  last_part :
      (fuel : ℕ) (p done rest : Text) (max : ℕ) (results : List Text)
      → pre_decrement w max ≡ 0
      → split_loop w (suc fuel) (done ++ rest) p max (length done) results
        ≡ some (results ++ rest ∷ [])
  unfolding split_loop
  last_part fuel p done rest max results e = rw (e, substr-done done rest) refl

  no_more :
      (fuel : ℕ) (p done rest : Text) (max n : ℕ) (results : List Text)
      → pre_decrement w max ≡ suc n
      → search_from p rest 0 ≡ none
      → split_loop w (suc fuel) (done ++ rest) p max (length done) results
        ≡ some (results ++ rest ∷ [])
  unfolding split_loop
  no_more fuel p done rest max n results e f =
      let z : (suc n == 0) ≡ false = ground arith in
      rw (e, z, find-done p done rest, f, substr-done done rest) refl

  one_more :
      (fuel : ℕ) (p done rest : Text) (max n j : ℕ) (results : List Text)
      → pre_decrement w max ≡ suc n
      → search_from p rest 0 ≡ some j
      → split_loop w (suc fuel) (done ++ rest) p max (length done) results
        ≡ split_loop w fuel
            (done ++ rest)
            p
            (pre_decrement w max)
            (j + length done + length p)
            (results ++ take j rest ∷ [])
  unfolding split_loop
  one_more fuel p done rest max n j results e f =
      let z : (suc n == 0) ≡ false = ground arith in
      rw (e, z, find-done p done rest, f, substr_count-done done rest j)
        (ap
          (λ t.
            split_loop w fuel (done ++ rest) p t (j + length done + length p)
              (results ++ take j rest ∷ []))
          e)

  split_loop-cut :
      (fuel n : ℕ) (p done rest : Text) (max : ℕ) (results : List Text)
      → 0 < length p
      → length rest < fuel
      → n < 2 ^ w
      → max ≡ (n + 1) % 2 ^ w
      → split_loop w fuel (done ++ rest) p max (length done) results
        ≡ some (results ++ cut n p rest)
  split_loop-cut zero n p done rest max results pos h small e = absurd (omega arith)
  split_loop-cut (suc fuel) zero p done rest max results pos h small e =
      last_part fuel p done rest max results (ap (pre_decrement w) e ∙ counts 0 small)
      ∙ unfold cut in refl
  split_loop-cut (suc fuel) (suc n) p done rest max results pos h small e =
      let d : pre_decrement w max ≡ suc n = ap (pre_decrement w) e ∙ counts (suc n) small in
      elim (Option-cases (search_from p rest 0)) [
        | inl f ↦
            no_more fuel p done rest max n results d f
            ∙ ap (λ t. some (results ++ t)) (sym (cut-whole n p rest f))
        | inr (j, f) ↦
            let (stands, fits) = search_from-Stands p rest j f in
            let tail = drop (j + length p) rest in
            let done' = (done ++ take j rest) ++ p in
            let whole : done ++ rest ≡ done' ++ tail =
              ap (λ t. done ++ t) stands ∙ regroup done (take j rest) p tail in
            let size : j + length done + length p ≡ length done' = omega (
              arith,
              length-append (done ++ take j rest) p,
              length-append done (take j rest),
              length-take j rest,
            ) in
            one_more fuel p done rest max n j results d f
            ∙ ap
                (λ t.
                  split_loop w fuel t p (pre_decrement w max) (j + length done + length p)
                    (results ++ take j rest ∷ []))
                whole
            ∙ ap
                (λ t.
                  split_loop w fuel (done' ++ tail) p (pre_decrement w max) t
                    (results ++ take j rest ∷ []))
                size
            ∙ split_loop-cut fuel n p done' tail (pre_decrement w max) (results ++ take j rest ∷ [])
                pos (omega (arith, length-drop (j + length p) rest)) (omega arith)
                (d ∙ wraps n small)
            ∙ ap some (
                append_assoc results (take j rest ∷ []) (cut n p tail)
                ∙ ap (λ t. results ++ t) (sym (cut-next n p rest j f)))
      ]

-- How many cuts a limit allows: one less than it says, and no limit is the largest.
abbrev pub cuts : ℕ → ℕ → ℕ
cuts w zero = 2 ^ w - 1
cuts w (suc n) = n

length-cut_most : (n : ℕ) (p s : Text) → length (cut n p s) ≤ suc n
length-cut_most zero p s = unfold cut in omega arith
length-cut_most (suc n) p s = elim (Option-cases (search_from p s 0)) [
  | inl e ↦ rw (cut-whole n p s e) (omega arith)
  | inr (j, e) ↦
      rw (cut-next n p s j e) (omega (arith, length-cut_most n p (drop (j + length p) s)))
]

counts_32 : (n : ℕ) → n < 2 ^ 32 → pre_decrement 32 ((n + 1) % 2 ^ 32) ≡ n
counts_32 n h = omega arith

counts_64 : (n : ℕ) → n < 2 ^ 64 → pre_decrement 64 ((n + 1) % 2 ^ 64) ≡ n
counts_64 n h = omega arith

cuts_32 : (max : ℕ) → max < 2 ^ 32 → (cuts 32 max < 2 ^ 32) × (max ≡ (cuts 32 max + 1) % 2 ^ 32)
cuts_32 zero h = (omega arith, omega arith)
cuts_32 (suc n) h = (omega arith, omega arith)

cuts_64 : (max : ℕ) → max < 2 ^ 64 → (cuts 64 max < 2 ^ 64) × (max ≡ (cuts 64 max + 1) % 2 ^ 64)
cuts_64 zero h = (omega arith, omega arith)
cuts_64 (suc n) h = (omega arith, omega arith)

-- What Split promises of its parts: there are at most as many as the limit allows, put together
-- with the delimiter they give the text, and where the limit does not bite they lack it.
abbrev pub IsSplit : ℕ → Text → Text → List Text → Type 0
IsSplit n delimiter input parts =
    (parts ≡ cut n delimiter input)
    × (length parts ≤ suc n)
    × (join delimiter parts ≡ input)
    × (length input < n → All (Lacks delimiter) parts)

cut-IsSplit : (n c : ℕ) (p s : Text) → IsSplit n (c ∷ p) s (cut n (c ∷ p) s)
cut-IsSplit n c p s = (refl, length-cut_most n (c ∷ p) s, join-cut n (c ∷ p) s, cut-Lacks n c p s)

-- For a text and a delimiter that are not empty and a limit of 32 bits, Split ends with the parts
-- that cutting the text at the delimiter from the left gives, with one cut less than the limit, or
-- 2 ^ 32 - 1 cuts at no limit: they are at most one more than the cuts, put together with the
-- delimiter they give the text back, and none holds the delimiter where the text has fewer
-- characters than there may be cuts.
pub split-IsSplit :
    (input delimiter : Text) (max : ℕ)
    → input ≢ []
    → delimiter ≢ []
    → max < 2 ^ 32
    → (parts : List Text) × (split input delimiter max ≡ some parts)
      × IsSplit (cuts 32 max) delimiter input parts
unfolding split
split-IsSplit [] delimiter max some_text some_delimiter h = absurd (some_text refl)
split-IsSplit (a ∷ s) [] max some_text some_delimiter h = absurd (some_delimiter refl)
split-IsSplit (a ∷ s) (c ∷ p) max some_text some_delimiter h =
    let (small, e) = cuts_32 max h in
    (
      cut (cuts 32 max) (c ∷ p) (a ∷ s),
      split_loop-cut 32 counts_32 (λ n h. omega arith) (suc (length (a ∷ s))) (cuts 32 max) (c ∷ p)
          [] (a ∷ s) max [] (omega arith) (omega arith) small e,
      cut-IsSplit (cuts 32 max) c p (a ∷ s),
    )

-- For a text that is not empty, a character as the delimiter and a limit of 64 bits, Split ends
-- with the parts that cutting the text at the delimiter from the left gives, with one cut less than
-- the limit, or 2 ^ 64 - 1 cuts at no limit: they are at most one more than the cuts, put together
-- with the delimiter they give the text back, and none holds the delimiter where the text has fewer
-- characters than there may be cuts.
pub split_char-IsSplit :
    (input : Text) (delimiter max : ℕ)
    → input ≢ []
    → max < 2 ^ 64
    → (parts : List Text) × (split_char input delimiter max ≡ some parts)
      × IsSplit (cuts 64 max) (delimiter ∷ []) input parts
unfolding split_char
split_char-IsSplit [] c max some_text h = absurd (some_text refl)
split_char-IsSplit (a ∷ s) c max some_text h =
    let (small, e) = cuts_64 max h in
    (
      cut (cuts 64 max) (c ∷ []) (a ∷ s),
      split_loop-cut 64 counts_64 (λ n h. omega arith) (suc (length (a ∷ s))) (cuts 64 max) (c ∷ [])
          [] (a ∷ s) max [] (omega arith) (omega arith) small e,
      cut-IsSplit (cuts 64 max) c [] (a ∷ s),
    )
