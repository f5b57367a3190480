-- ===== src/Timers.antt =====
-- toMillisecondTimeoutDelay and systemMaketime of sutils/Timers.cpp. An nsecs_t is a signed
-- number of 64 bits; an unsigned int has 32 bits, an unsigned long 64.
use vmodule.Base.{
  ℕ, zero, suc, ◌+◌, ◌-◌, ◌*◌, ◌/◌, ◌%◌, ◌^◌, ◌<◌, ◌≤◌, ◌≡◌, Bool, false, Option, none, some, ◌⊎◌,
  inl, inr, refl, lt_or_ge, inc, ap, ◌∙◌, arith, ltb, leb, ◌==◌, if◌then◌else◌, ℤ, pos, negsuc,
  ◌&&◌, ◌||◌, not,
}

-- INT_MAX
abbrev pub longest : ℕ
longest = 2147483647

-- How far a time lies after another; 0 where it does not.
abbrev pub distance : ℤ → ℤ → ℕ
distance (pos a) (pos b) = b - a
distance (pos a) (negsuc n) = 0
distance (negsuc m) (pos b) = suc m + b
distance (negsuc m) (negsuc n) = m - n

-- The last part of toMillisecondTimeoutDelay, where timeoutTime is later by `delay`. `none` where the
-- difference is not an int64_t and its subtraction overflows, which is undefined.
abbrev pub delay_millis : (delay : ℕ) → Option ℤ
delay_millis delay =
    if leb (2 ^ 63) delay
    then none
    else if ltb ((longest - 1) * 1000000) delay
    then some (negsuc 0)
    else some (pos ((delay + 999999) / 1000000))

unfoldable pub to_millisecond_timeout_delay : (reference_time timeout_time : ℤ) → Option ℤ
to_millisecond_timeout_delay reference_time timeout_time =
    let later = delay_millis (distance reference_time timeout_time) in
    if distance reference_time timeout_time == 0 then some (pos 0) else later

-- 0 >= (int) (mon -= 2), of 32 bits.
abbrev pub is_shifted : (mon0 : ℕ) → Bool
is_shifted mon0 = let mon = (mon0 + (2 ^ 32 - 2)) % 2 ^ 32 in (mon == 0) || leb (2 ^ 31) mon

-- The month and the year after that.
unfoldable pub shifted_month : ℕ → ℕ
shifted_month mon0 =
    if is_shifted mon0
    then ((mon0 + (2 ^ 32 - 2)) % 2 ^ 32 + 12) % 2 ^ 32
    else (mon0 + (2 ^ 32 - 2)) % 2 ^ 32

unfoldable pub shifted_year : ℕ → ℕ → ℕ
shifted_year year0 mon0 = if is_shifted mon0 then (year0 + (2 ^ 32 - 1)) % 2 ^ 32 else year0

-- The days, an unsigned long.
unfoldable pub maketime_days : ℕ → ℕ → ℕ → ℕ
maketime_days year mon day =
    (year / 4 + (2 ^ 32 - year / 100) + year / 400 + 367 * mon % 2 ^ 32 / 12 + day) % 2 ^ 32
    + year * 365 % 2 ^ 32
    + (2 ^ 64 - 719499)

unfoldable pub system_maketime : ℕ → ℕ → ℕ → ℕ → ℕ → ℕ → ℕ
unfolding shifted_month shifted_year maketime_days
system_maketime year0 mon0 day hour min sec =
    (((maketime_days (shifted_year year0 mon0) (shifted_month mon0) day * 24 + hour) * 60 + min)
        * 60
      + sec)
    % 2 ^ 64

-- The answer that include/sutils/Timers.h documents: -1 for more than INT_MAX milliseconds, and
-- otherwise the difference, rounded up to the next millisecond.
abbrev pub IsDocumented : ℕ → ℤ → Type 0
IsDocumented left (pos t) =
    (left ≤ t * 1000000) × (t * 1000000 < left + 1000000) × (left ≤ longest * 1000000)
IsDocumented left (negsuc n) = (n ≡ 0) × (longest * 1000000 < left)

-- The times for which the answer is -1 although they are within INT_MAX milliseconds.
abbrev pub IsLast : ℕ → Type 0
IsLast left = ((longest - 1) * 1000000 < left) × (left ≤ longest * 1000000)

delay_millis-IsDocumented :
    (left : ℕ)
    → left < 2 ^ 63
    → (d : ℤ) × (delay_millis left ≡ some d)
      × ((IsLast left × (d ≡ negsuc 0)) ⊎ ((IsLast left → ⊥) × IsDocumented left d))
delay_millis-IsDocumented left fits = elim (lt_or_ge ((longest - 1) * 1000000) left) [
  | inl far ↦ elim (lt_or_ge (longest * 1000000) left) [
    | inl farther ↦
        (negsuc 0, ground arith, inr ((λ h. absurd (omega (arith, h.1))), (refl, farther)))
    | inr last ↦ (negsuc 0, ground arith, inl ((far, last), refl))
  ]
  | inr near ↦ (
    pos ((left + 999999) / 1000000),
    ground arith,
    inr ((λ h. absurd (omega (arith, h.0))), omega arith),
  )
]

-- What the answer is for a deadline that is `left` nanoseconds away.
abbrev pub IsAnswer : ℕ → Option ℤ → Type 0
IsAnswer left got =
    ((2 ^ 63 ≤ left) × (got ≡ none))
    ⊎ ((left < 2 ^ 63)
        × ((d : ℤ) × (got ≡ some d)
            × ((IsLast left × (d ≡ negsuc 0)) ⊎ ((IsLast left → ⊥) × IsDocumented left d))))

delay-IsAnswer : (left : ℕ) → IsAnswer left (if left == 0 then some (pos 0) else delay_millis left)
delay-IsAnswer zero =
    inr (omega arith, (pos 0, refl, inr ((λ h. absurd (omega (arith, h.0))), omega arith)))
delay-IsAnswer (suc n) = elim (lt_or_ge (suc n) (2 ^ 63)) [
  | inl fits ↦
      let later : (suc n == 0) ≡ false = ground arith in
      rw later (inr (fits, delay_millis-IsDocumented (suc n) fits))
  | inr far ↦ inl (far, ground arith)
]

-- The time `n` nanoseconds after another.
abbrev pub later_by : ℕ → ℤ → ℤ
later_by zero time = time
later_by (suc n) time = inc (later_by n time)

distance-inc :
    (t u : ℤ)
    → distance u t ≡ 0
    → (distance t (inc u) ≡ suc (distance t u)) × (distance (inc u) t ≡ 0)
distance-inc (pos a) (pos b) h = omega arith
distance-inc (pos a) (negsuc zero) h = absurd (omega arith)
distance-inc (pos a) (negsuc (suc n)) h = absurd (omega arith)
distance-inc (negsuc m) (pos b) h = omega arith
distance-inc (negsuc m) (negsuc zero) h = omega arith
distance-inc (negsuc m) (negsuc (suc n)) h = omega arith

distance-later_by :
    (n : ℕ) (time : ℤ)
    → (distance (later_by n time) time ≡ 0) × (distance time (later_by n time) ≡ n)
distance-later_by zero (pos a) = omega arith
distance-later_by zero (negsuc m) = omega arith
distance-later_by (suc n) time =
    let (back, ahead) = distance-later_by n time in
    let (more, back') = distance-inc time (later_by n time) back in (back', more ∙ ap suc ahead)

-- ToMillisecondTimeoutDelay gives 0 for a deadline that has passed; for one that is later by less
-- than 2 ^ 63 nanoseconds it gives what its comment documents, -1 for more than INT_MAX
-- milliseconds and otherwise the difference rounded up to the next millisecond, except that it
-- gives -1 already for more than INT_MAX - 1 milliseconds; for one that is later by more the
-- subtraction overflows.
pub to_millisecond_timeout_delay-IsAnswer :
    (time : ℤ) (left passed : ℕ)
    → IsAnswer left (to_millisecond_timeout_delay time (later_by left time))
      × (to_millisecond_timeout_delay (later_by passed time) time ≡ some (pos 0))
unfolding to_millisecond_timeout_delay
to_millisecond_timeout_delay-IsAnswer time left passed =
    let there = (distance-later_by left time).1 in
    let back = (distance-later_by passed time).0 in (rw there (delay-IsAnswer left), rw back refl)

-- The calendar: a year is a leap year when 4 divides it, but not when 100 does, unless 400 does.
abbrev pub is_leap : ℕ → Bool
is_leap year = (year % 4 == 0) && (not (year % 100 == 0) || (year % 400 == 0))

abbrev pub leap_days : ℕ → ℕ
leap_days year = if is_leap year then 1 else 0

-- The days of the first `n` years from 1970 on.
unfoldable pub days_of_years : ℕ → ℕ
days_of_years zero = 0
days_of_years (suc n) = days_of_years n + 365 + leap_days (1970 + n)

pub data Month : Type 0 where
  january : Month
  february : Month
  march : Month
  april : Month
  may : Month
  june : Month
  july : Month
  august : Month
  september : Month
  october : Month
  november : Month
  december : Month

abbrev pub number : Month → ℕ
number january = 1
number february = 2
number march = 3
number april = 4
number may = 5
number june = 6
number july = 7
number august = 8
number september = 9
number october = 10
number november = 11
number december = 12

-- The days of a year before a month.
abbrev pub days_before : ℕ → Month → ℕ
days_before year january = 0
days_before year february = 31
days_before year march = 59 + leap_days year
days_before year april = 90 + leap_days year
days_before year may = 120 + leap_days year
days_before year june = 151 + leap_days year
days_before year july = 181 + leap_days year
days_before year august = 212 + leap_days year
days_before year september = 243 + leap_days year
days_before year october = 273 + leap_days year
days_before year november = 304 + leap_days year
days_before year december = 334 + leap_days year

leap_days-step :
    (y : ℕ)
    → 0 < y
    → y / 4 + y / 400 + (y - 1) / 100 ≡ (y - 1) / 4 + (y - 1) / 400 + y / 100 + leap_days y
leap_days-step y h = ground arith

-- The closed form that systemMaketime is built on.
days_of_years-closed :
    (n : ℕ)
    → days_of_years n + 719162 + (1969 + n) / 100
      ≡ (1969 + n) * 365 + (1969 + n) / 4 + (1969 + n) / 400
unfolding days_of_years
days_of_years-closed zero = omega arith
days_of_years-closed (suc n) =
    omega (arith, days_of_years-closed n, leap_days-step (1970 + n) (omega arith))

-- Where nothing wraps around, the days are these, 2 ^ 64 aside.
maketime_days-closed :
    (year mon day : ℕ)
    → 1 ≤ year
    → year < 10000000
    → mon ≤ 12
    → day ≤ 31
    → maketime_days year mon day + 719499 + year / 100
      ≡ 2 ^ 64 + (year / 4 + year / 400 + 367 * mon / 12 + day + year * 365)
unfolding maketime_days
maketime_days-closed year mon day h small m d = omega arith

seconds-wrap :
    (days real hour min sec : ℕ)
    → days ≡ 2 ^ 64 + real
    → real < 4000000000
    → hour < 24
    → min < 60
    → sec < 60
    → (((days * 24 + hour) * 60 + min) * 60 + sec) % 2 ^ 64
      ≡ ((real * 24 + hour) * 60 + min) * 60 + sec
seconds-wrap days real hour min sec e r h m s = omega arith

days-of_month :
    (n : ℕ) (month : Month) (day : ℕ)
    → n < 1000000
    → 1 ≤ day
    → day ≤ 31
    → maketime_days (shifted_year (1970 + n) (number month)) (shifted_month (number month)) day
      ≡ 2 ^ 64 + (days_of_years n + days_before (1970 + n) month + (day - 1))
unfolding shifted_year shifted_month
days-of_month n january day small lo hi =
    let y : (1970 + n + (2 ^ 32 - 1)) % 2 ^ 32 ≡ 1969 + n = omega arith in
    rw y (
      omega (
        arith,
        maketime_days-closed (1969 + n) 11 day (omega arith) (omega arith) (omega arith) hi,
        days_of_years-closed n,
      ))
days-of_month n february day small lo hi =
    let y : (1970 + n + (2 ^ 32 - 1)) % 2 ^ 32 ≡ 1969 + n = omega arith in
    rw y (
      omega (
        arith,
        maketime_days-closed (1969 + n) 12 day (omega arith) (omega arith) (omega arith) hi,
        days_of_years-closed n,
      ))
days-of_month n march day small lo hi = omega (
  arith,
  maketime_days-closed (1970 + n) 1 day (omega arith) (omega arith) (omega arith) hi,
  days_of_years-closed n,
  leap_days-step (1970 + n) (omega arith),
)
days-of_month n april day small lo hi = omega (
  arith,
  maketime_days-closed (1970 + n) 2 day (omega arith) (omega arith) (omega arith) hi,
  days_of_years-closed n,
  leap_days-step (1970 + n) (omega arith),
)
days-of_month n may day small lo hi = omega (
  arith,
  maketime_days-closed (1970 + n) 3 day (omega arith) (omega arith) (omega arith) hi,
  days_of_years-closed n,
  leap_days-step (1970 + n) (omega arith),
)
days-of_month n june day small lo hi = omega (
  arith,
  maketime_days-closed (1970 + n) 4 day (omega arith) (omega arith) (omega arith) hi,
  days_of_years-closed n,
  leap_days-step (1970 + n) (omega arith),
)
days-of_month n july day small lo hi = omega (
  arith,
  maketime_days-closed (1970 + n) 5 day (omega arith) (omega arith) (omega arith) hi,
  days_of_years-closed n,
  leap_days-step (1970 + n) (omega arith),
)
days-of_month n august day small lo hi = omega (
  arith,
  maketime_days-closed (1970 + n) 6 day (omega arith) (omega arith) (omega arith) hi,
  days_of_years-closed n,
  leap_days-step (1970 + n) (omega arith),
)
days-of_month n september day small lo hi = omega (
  arith,
  maketime_days-closed (1970 + n) 7 day (omega arith) (omega arith) (omega arith) hi,
  days_of_years-closed n,
  leap_days-step (1970 + n) (omega arith),
)
days-of_month n october day small lo hi = omega (
  arith,
  maketime_days-closed (1970 + n) 8 day (omega arith) (omega arith) (omega arith) hi,
  days_of_years-closed n,
  leap_days-step (1970 + n) (omega arith),
)
days-of_month n november day small lo hi = omega (
  arith,
  maketime_days-closed (1970 + n) 9 day (omega arith) (omega arith) (omega arith) hi,
  days_of_years-closed n,
  leap_days-step (1970 + n) (omega arith),
)
days-of_month n december day small lo hi = omega (
  arith,
  maketime_days-closed (1970 + n) 10 day (omega arith) (omega arith) (omega arith) hi,
  days_of_years-closed n,
  leap_days-step (1970 + n) (omega arith),
)

before_small : (year : ℕ) (month : Month) → days_before year month ≤ 366
before_small year january = ground arith
before_small year february = ground arith
before_small year march = ground arith
before_small year april = ground arith
before_small year may = ground arith
before_small year june = ground arith
before_small year july = ground arith
before_small year august = ground arith
before_small year september = ground arith
before_small year october = ground arith
before_small year november = ground arith
before_small year december = ground arith

-- SystemMaketime is the number of seconds since the start of 1970 by the Gregorian calendar,
-- counted year by year and month by month, for the million years from 1970 on, a day from 1 to 31
-- and a time of day; nothing overflows.
pub system_maketime-calendar :
    (n : ℕ) (month : Month) (day hour min sec : ℕ)
    → n < 1000000
    → 1 ≤ day
    → day ≤ 31
    → hour < 24
    → min < 60
    → sec < 60
    → system_maketime (1970 + n) (number month) day hour min sec
      ≡ (((days_of_years n + days_before (1970 + n) month + (day - 1)) * 24 + hour) * 60 + min) * 60
        + sec
unfolding system_maketime
system_maketime-calendar n month day hour min sec small lo hi h m s =
    seconds-wrap _ (days_of_years n + days_before (1970 + n) month + (day - 1)) hour min sec
      (days-of_month n month day small lo hi)
      (omega (arith, days_of_years-closed n, before_small (1970 + n) month)) h m s
