-- ===== src/StringUtils/Parts.antt =====
-- Replace and Split against the pieces of StringUtils/Cut.
use vmodule.Base.{
  ℕ, zero, suc, ◌+◌, ◌-◌, ◌<◌, ◌≤◌, ◌≡◌, refl, sym, ap, ◌∙◌, ◌≢◌, none, some, [], ◌∷◌, ◌++◌,
  append_assoc, arith, ltb, le→leb, lt→ltb, length, take, drop, length-append, length-drop,
  length-take, drop-append, take-append_more, drop-append_more, Bool-cases, Option-cases, inl, inr,
  All,
}
use mathlib.Core.Path.{ap₂}
use vmodule.StringUtils.Text.{Text, search_from, find, replace_at}
use vmodule.StringUtils.Search.{replace_loop, replace}
use vmodule.StringUtils.Cut.{
  cut, cut-whole, cut-next, cut-ne-nil, length-cut, join-single, join-cons, join, pieces, shift,
  search_from-shift, search_from-Stands, Lacks, cut-Lacks,
}

-- Joining the pieces with the text that they were cut at gives the text back.
pub join-cut : (fuel : ℕ) (p s : Text) → join p (cut fuel p s) ≡ s
join-cut zero p s = unfold cut join in refl
join-cut (suc fuel) p s = elim (Option-cases (search_from p s 0)) [
  | inl e ↦ rw (cut-whole fuel p s e) (join-single p s)
  | inr (j, e) ↦
      rw
        (
          cut-next fuel p s j e,
          join-cons p (take j s) _ (cut-ne-nil fuel p (drop (j + length p) s)),
          join-cut fuel p (drop (j + length p) s),
        )
        (sym (search_from-Stands p s j e).0)
]

-- The search from the end of what is done.
pub find-done :
    (p done rest : Text)
    → find (done ++ rest) p (length done) ≡ shift (length done) (search_from p rest 0)
unfolding find
find-done p done rest =
    rw
      (
        le→leb (length done) (length (done ++ rest)) (omega (arith, length-append done rest)),
        drop-append done rest,
      )
      (search_from-shift p rest (length done))

replaced :
    (done rest t : Text) (j n : ℕ)
    → j ≤ length rest
    → replace_at (done ++ rest) (j + length done) n t
      ≡ some (((done ++ take j rest) ++ t) ++ drop (j + n) rest)
unfolding replace_at
replaced done rest t j n h =
    let e : j + length done + n ≡ j + n + length done = omega arith in
    rw
      (
        le→leb (j + length done) (length (done ++ rest)) (omega (arith, length-append done rest)),
        take-append_more j done rest,
        e,
        drop-append_more (j + n) done rest,
      )
      (ap some (sym (append_assoc (done ++ take j rest) t (drop (j + n) rest))))

-- One round of the loop, at what is done.
round_end :
    (fuel : ℕ) (p t done rest : Text) (count : ℕ)
    → search_from p rest 0 ≡ none
    → replace_loop (suc fuel) p t (done ++ rest) (length done) count ≡ some (done ++ rest, count)
unfolding replace_loop
round_end fuel p t done rest count e =
    elim (Bool-cases (ltb (length done) (length (done ++ rest)))) [
      | inl more ↦ rw (more, find-done p done rest, e)
      | inr end ↦ rw end
    ]

round_next :
    (fuel : ℕ) (p t done rest : Text) (count j : ℕ)
    → 0 < length p
    → search_from p rest 0 ≡ some j
    → replace_loop (suc fuel) p t (done ++ rest) (length done) count
      ≡ replace_loop fuel p t
          (((done ++ take j rest) ++ t) ++ drop (j + length p) rest)
          (length ((done ++ take j rest) ++ t))
          (count + 1)
unfolding replace_loop
round_next fuel p t done rest count j pos e =
    let at = (search_from-Stands p rest j e).1 in
    let n : length ((done ++ take j rest) ++ t) ≡ j + length done + length t = omega (
      arith,
      length-append (done ++ take j rest) t,
      length-append done (take j rest),
      length-take j rest,
    ) in
    rw (
      lt→ltb (length done) (length (done ++ rest)) (omega (arith, length-append done rest)),
      find-done p done rest,
      e,
      replaced done rest t j (length p) (omega arith),
      n,
    )

replace_loop-cut :
    (fuel : ℕ) (p t done rest : Text) (count : ℕ)
    → 0 < length p
    → length rest < fuel
    → replace_loop fuel p t (done ++ rest) (length done) count
      ≡ some (done ++ join t (cut fuel p rest), count + (length (cut fuel p rest) - 1))
replace_loop-cut zero p t done rest count pos h = absurd (omega arith)
replace_loop-cut (suc fuel) p t done rest count pos h = elim (Option-cases (search_from p rest 0)) [
  | inl e ↦
      rw (round_end fuel p t done rest count e, cut-whole fuel p rest e, join-single t rest)
        (ap (λ n. some (done ++ rest, n)) (omega arith))
  | inr (j, e) ↦
      let tail = drop (j + length p) rest in
      let done' = (done ++ take j rest) ++ t in
      rw
        (
          round_next fuel p t done rest count j pos e,
          replace_loop-cut fuel p t done' tail (count + 1) pos
              (omega (arith, length-drop (j + length p) rest, (search_from-Stands p rest j e).1)),
          cut-next fuel p rest j e,
          join-cons t (take j rest) (cut fuel p tail) (cut-ne-nil fuel p tail),
        )
        (ap₂ (λ (s : Text) (n : ℕ). some (s, n)) (simp append_assoc)
          (omega (arith, length-cut fuel p tail)))
]

-- For an old text that is not empty, Replace ends, puts the new text between the pieces of the text
-- and returns the number of cuts; the pieces are such that the old text stands in none of them and
-- put between them again gives the text back.
pub replace-pieces :
    (str old_str new_str : Text)
    → old_str ≢ []
    → (replace str old_str new_str
        ≡ some (join new_str (pieces old_str str), length (pieces old_str str) - 1))
      × (join old_str (pieces old_str str) ≡ str)
      × All (Lacks old_str) (pieces old_str str)
unfolding replace pieces
replace-pieces str [] new_str h = absurd (h refl)
replace-pieces str (c ∷ p) new_str h = (
  replace_loop-cut (suc (length str)) (c ∷ p) new_str [] str 0 (omega arith) (omega arith)
      ∙ ap (λ n. some (join new_str (cut (suc (length str)) (c ∷ p) str), n)) (omega arith),
  join-cut (suc (length str)) (c ∷ p) str,
  cut-Lacks (suc (length str)) c p str (omega arith),
)
