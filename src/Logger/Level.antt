-- ===== src/Logger/Level.antt =====
-- When SetLogLevel of sutils/Logger.cpp returns.
use vmodule.Base.{
  ℕ, zero, suc, ◌≤◌, ◌<◌, ◌≡◌, ◌↔◌, ◌⊎◌, inl, inr, refl, ap, ◌∙◌, Bool, true, false, not, ◌&&◌,
  ◌||◌, Bool-cases, leb, lt_or_ge, if◌then◌else◌, ℤ, pos, negsuc, arith,
}
use vmodule.StringUtils.Text.{Text}
use vmodule.Logger.{
  at_least, log_unknown, log_verbose, log_error, log_silent, is_log_level_logged, Logger, Outcome,
  deadlock, out_of_bounds, ended, log_string, log, unlock, announce, set_log_level,
}

-- The levels that SetLogLevel takes.
abbrev pub is_level : ℤ → Bool
is_level level = at_least log_unknown level && not (at_least (suc log_silent) level)

abbrev pub Returns : Outcome → Type 0
Returns o = (lg : Logger) × (o ≡ ended lg)

module _ (debug : Bool) (isspace : ℕ → Bool) (prefix : ℤ → Text) where
  log-locked :
      (level : ℤ) (tag message : Text) (lg : Logger)
      → lg.locked ≡ true
      → log debug isspace prefix level tag message lg
        ≡ (if is_log_level_logged debug lg.log_level level then deadlock else ended lg)
  unfolding log log_string
  log-locked level tag message lg h = rw h refl

  -- Every level but 0 has the line about itself logged.
  own_line : (n : ℕ) → is_log_level_logged debug (pos (suc n)) (pos log_verbose) ≡ true
  unfolding is_log_level_logged
  own_line n = ground arith

  error_line :
      (current : ℤ)
      → is_log_level_logged debug current (pos log_error) ≡ debug || at_least 1 current
  unfolding is_log_level_logged
  error_line (pos n) = ground arith
  error_line (negsuc n) = ground arith

  module _ (changed invalid : Text) (name : ℤ → Text) (lg : Logger) (free : lg.locked ≡ false) where
    held : Logger
    held = record lg { locked = true }

    set : ℤ → Outcome
    set level = set_log_level debug isspace prefix changed invalid name level lg

    opened :
        (level : ℤ)
        → set level ≡ (
            if is_level level
            then unlock (announce debug isspace prefix level changed name held)
            else unlock (log debug isspace prefix (pos log_error) invalid (name level) held))
    unfolding set set_log_level held
    opened level = rw free refl

    -- Past the level, only a line that is not logged lets it return.
    refused :
        (level : ℤ)
        → is_level level ≡ false
        → set level ≡ (
            if debug || at_least 1 lg.log_level
            then deadlock
            else ended (record lg { locked = false }))
    unfolding held
    refused level e =
        opened level
        ∙ rw (e, log-locked (pos log_error) invalid (name level) held refl, error_line lg.log_level)
            (go (debug || at_least 1 lg.log_level))
      where
        go :
            (b : Bool)
            → unlock (if b then deadlock else ended held)
              ≡ (if b then deadlock else ended (record lg { locked = false }))
        go true = refl
        go false = refl

    quiet : debug ≡ false → set (pos 0) ≡ ended (record lg { log_level = pos 0; locked = false })
    unfolding held is_log_level_logged
    quiet e =
        opened (pos 0)
        ∙ rw
            (
              log-locked (pos log_verbose) changed (name (pos 0))
                  (record held { log_level = pos 0 }) refl,
              e,
            )
            refl

    -- With _DEBUG the level 0 is announced too.
    noisy : debug ≡ true → set (pos 0) ≡ deadlock
    unfolding held is_log_level_logged
    noisy e =
        opened (pos 0)
        ∙ rw
            (
              log-locked (pos log_verbose) changed (name (pos 0))
                  (record held { log_level = pos 0 }) refl,
              e,
            )
            refl

    -- A level from 1 to 8 is announced, and that does not come back.
    told : (n : ℕ) → suc n < 8 → set (pos (suc n)) ≡ deadlock
    unfolding held
    told n small =
        let valid : is_level (pos (suc n)) ≡ true = ground arith in
        let low : leb 8 (suc n) ≡ false = ground arith in
        opened (pos (suc n))
        ∙ rw
            (
              valid,
              low,
              log-locked (pos log_verbose) changed (name (pos (suc n)))
                  (record held { log_level = pos (suc n) }) refl,
              own_line n,
            )
            refl

    silent : set (pos 8) ≡ out_of_bounds
    unfolding held
    silent = opened (pos 8)

    not_both : {o : Outcome} → Returns o → o ≡ deadlock → ⊥
    not_both (lg', e) e' = cc

    not_out : {o : Outcome} → Returns o → o ≡ out_of_bounds → ⊥
    not_out (lg', e) e' = cc

    IsQuiet : ℤ → Type 0
    IsQuiet level =
        (debug ≡ false)
        × ((level ≡ pos 0) ⊎ ((is_level level ≡ false) × (at_least 1 lg.log_level ≡ false)))

    loud :
        (level : ℤ)
        → is_level level ≡ false
        → debug || at_least 1 lg.log_level ≡ true
        → IsQuiet level
        → ⊥
    unfolding IsQuiet
    loud level e y (d, inl z) = let z' = ap is_level z in cc
    loud level e y (d, inr (_, y')) =
        let f : debug || at_least 1 lg.log_level ≡ false = rw (d, y') refl in cc

    -- A level from 1 to 8 is none of these.
    positive : (n : ℕ) → suc n ≤ 8 → IsQuiet (pos (suc n)) → ⊥
    unfolding IsQuiet
    positive n small (d, inl z) = cc
    positive n small (d, inr (e, _)) =
        let valid : is_level (pos (suc n)) ≡ true = ground arith in cc

    by_refusal : (level : ℤ) → is_level level ≡ false → Returns (set level) ↔ IsQuiet level
    unfolding IsQuiet
    by_refusal level e = elim (Bool-cases (debug || at_least 1 lg.log_level)) [
      | inl y ↦ (
        (λ r. absurd (not_both r (refused level e ∙ rw y refl))),
        (λ q. absurd (loud level e y q)),
      )
      | inr y ↦
          let neither : (debug ≡ false) × (at_least 1 lg.log_level ≡ false) = or_false debug _ y in
          (
            (λ r. (neither.0, inr (e, neither.1))),
            (λ q. (record lg { locked = false }, refused level e ∙ rw y refl)),
          )
    ]
      where
        or_false : (a b : Bool) → a || b ≡ false → (a ≡ false) × (b ≡ false)
        or_false false b h = (refl, h)
        or_false true b h = cc

    by_zero : Returns (set (pos 0)) ↔ IsQuiet (pos 0)
    unfolding IsQuiet
    by_zero = elim (Bool-cases debug) [
      | inl y ↦ ((λ r. absurd (not_both r (noisy y))), (λ q. absurd (apart y (q.0))))
      | inr y ↦ ((λ r. (y, inl refl)), (λ q. (_, quiet y)))
    ]
      where
        apart : debug ≡ true → debug ≡ false → ⊥
        apart y e = cc

    -- Where the calling thread does not hold critSec, SetLogLevel never returns if _DEBUG or
    -- PROFILE is defined, as in the repository's build; else it returns exactly for the level 0, or
    -- for a level that it does not take while the level before is at most 0.
    pub set_log_level-Returns_iff :
        (level : ℤ)
        → Returns (set_log_level debug isspace prefix changed invalid name level lg) ↔ (
            (debug ≡ false)
            × ((level ≡ pos 0) ⊎ ((is_level level ≡ false) × (at_least 1 lg.log_level ≡ false))))
    unfolding set IsQuiet
    set_log_level-Returns_iff (pos zero) = by_zero
    set_log_level-Returns_iff (pos (suc n)) = elim (lt_or_ge (suc n) 8) [
      | inl low ↦
          ((λ r. absurd (not_both r (told n low))), (λ q. absurd (positive n (omega arith) q)))
      | inr high ↦ elim (lt_or_ge 8 (suc n)) [
        | inl above ↦ by_refusal (pos (suc n)) (ground arith)
        | inr most ↦
            let e : suc n ≡ 8 = omega arith in
            (
              (λ r. absurd (not_out r (ap (λ m. set (pos m)) e ∙ silent))),
              (λ q. absurd (positive n (omega arith) q)),
            )
      ]
    ]
    set_log_level-Returns_iff (negsuc n) = by_refusal (negsuc n) refl
