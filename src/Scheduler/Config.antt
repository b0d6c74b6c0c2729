-- ===== src/Scheduler/Config.antt =====
-- src/fetech/scheduling.py, `NetworkScheduler.__init__`: the check of the four limits.
use fetech.Prelude.{
  ℕ, zero, suc, ◌*◌, ◌<◌, ◌≡◌, Bool, true, false, not, ◌||◌, Option, none, some, refl, subst, ◌⊎◌,
  inl, inr, ◌==◌, if◌then◌else◌, arith,
}

-- The arguments are values of a dynamic language. A finite float is its sign and its size in ticks
-- of the loop's clock; `negative` is an integer below 0.
pub data Value : Type 0 where
  boolean : Bool → Value
  integer : ℕ → Value
  negative : Value
  real : Bool → ℕ → Value
  not_finite : Value
  other : Value

pub record Limits : Type 0 where
  pub global_concurrency : ℕ
  pub per_host_concurrency : ℕ
  pub min_interval : ℕ
  pub host_history_limit : ℕ

-- isinstance(v, bool) or not isinstance(v, int) or v <= 0
abbrev pub bad_count : Value → Bool
bad_count (integer zero) = true
bad_count (integer (suc n)) = false
bad_count _ = true

-- isinstance(v, bool) or not isinstance(v, int | float) or not math.isfinite(v) or v < 0; an
-- integer counts whole seconds, of `second` ticks each
abbrev pub bad_interval : Value → Bool
bad_interval (integer n) = false
bad_interval (real minus ticks) = if minus then not (ticks == 0) else false
bad_interval _ = true

abbrev pub count_of : Value → ℕ
count_of (integer n) = n
count_of _ = 0

-- float(v)
abbrev pub ticks_of : ℕ → Value → ℕ
ticks_of second (integer n) = n * second
ticks_of second (real minus ticks) = ticks
ticks_of second _ = 0

-- `none` is the ValueError.
unfoldable pub configure : ℕ → Value → Value → Value → Value → Option Limits
configure second global per_host interval history =
    if bad_count global || (bad_count per_host || (bad_interval interval || bad_count history))
    then none
    else some (record {
      global_concurrency = count_of global;
      per_host_concurrency = count_of per_host;
      min_interval = ticks_of second interval;
      host_history_limit = count_of history;
    })

-- What the constructor establishes of limits made from these arguments: a count is the integer that
-- was given, and positive; the interval is a number of seconds or a finite float that is not negative.
pub record IsSound (second : ℕ) (global per_host interval history : Value) (l : Limits)
    : Type 0 where
  pub global_given : global ≡ integer l.global_concurrency
  pub global_positive : 0 < l.global_concurrency
  pub per_host_given : per_host ≡ integer l.per_host_concurrency
  pub per_host_positive : 0 < l.per_host_concurrency
  pub interval_given :
      ((n : ℕ) × (interval ≡ integer n) × (l.min_interval ≡ n * second))
      ⊎ ((minus : Bool) × (interval ≡ real minus l.min_interval)
          × ((minus ≡ false) ⊎ (l.min_interval ≡ 0)))
  pub history_given : history ≡ integer l.host_history_limit
  pub history_positive : 0 < l.host_history_limit

count_of_given : (v : Value) → bad_count v ≡ false → (v ≡ integer (count_of v)) × (0 < count_of v)
count_of_given (integer zero) h = absurd (ground arith)
count_of_given (integer (suc n)) h = (refl, omega arith)
count_of_given _ h = absurd (ground arith)

ticks_of_given :
    (second : ℕ) (v : Value)
    → bad_interval v ≡ false
    → ((n : ℕ) × (v ≡ integer n) × (ticks_of second v ≡ n * second))
      ⊎ ((minus : Bool) × (v ≡ real minus (ticks_of second v))
          × ((minus ≡ false) ⊎ (ticks_of second v ≡ 0)))
ticks_of_given second (integer n) h = inl (n, refl, refl)
ticks_of_given second (real false ticks) h = inr (false, refl, inl refl)
ticks_of_given second (real true ticks) h = inr (true, refl, inr (ground arith))
ticks_of_given second _ h = absurd (ground arith)

-- Where the constructor accepts its arguments, the counts are the integers that were given and are
-- positive, and the interval is not negative: the seconds that an integer counts, or the size of a
-- finite float, which has no minus sign unless it is 0.
pub configure-IsSound :
    (second : ℕ) (a b c d : Value) (l : Limits)
    → configure second a b c d ≡ some l
    → IsSound second a b c d l
unfolding configure
configure-IsSound second a b c d l h =
    let (good, is) = accepted (bad_count a) (bad_count b) (bad_interval c) (bad_count d) h in
    subst (IsSound second a b c d) is (record {
      global_given = (count_of_given a good.0).0;
      global_positive = (count_of_given a good.0).1;
      per_host_given = (count_of_given b good.1).0;
      per_host_positive = (count_of_given b good.1).1;
      interval_given = ticks_of_given second c good.2;
      history_given = (count_of_given d good.3).0;
      history_positive = (count_of_given d good.3).1;
    })
  where
    accepted :
        (p q r t : Bool) {x : Limits}
        → (if p || (q || (r || t)) then none else some x) ≡ some l
        → ((p ≡ false) × (q ≡ false) × (r ≡ false) × (t ≡ false)) × (x ≡ l)
    accepted false false false false h' = ((refl, refl, refl, refl), ground arith)
    accepted true q r t h' = absurd (ground arith)
    accepted false true r t h' = absurd (ground arith)
    accepted false false true t h' = absurd (ground arith)
    accepted false false false true h' = absurd (ground arith)
