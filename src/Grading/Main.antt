-- ===== src/Grading/Main.antt =====
-- grading/grading.cpp: the parameters of `main`, the limits that the reference library sets, and the
-- evaluation of the libraries one after the other.
use software_transactional_m.Prelude.{
  ℕ, ◌+◌, ◌*◌, ◌/◌, ◌%◌, ◌^◌, ◌≡◌, ◌≢◌, refl, List, [], ◌∷◌, ◌==◌, if◌then◌else◌, ==_false, subst,
  arith,
}
use software_transactional_m.Grading.Chrono.{invalid_tick}
use software_transactional_m.Grading.Driver.{Limits}

-- The constants of `main`. The two probabilities and the seed serve the random choices only and are left.
pub record Parameters : Type 0 where
  pub nbworkers : ℕ
  pub nbtxperwrk : ℕ
  pub nbaccounts : ℕ
  pub expnbaccounts : ℕ
  pub init_balance : ℕ
  pub nbrepeats : ℕ
  pub slow_factor : ℕ

-- `hardware_concurrency` is an argument, 0 where it is unknown.
unfoldable pub parameters : ℕ → Parameters
parameters hardware_concurrency =
    let nbworkers : ℕ = if hardware_concurrency == 0 then 16 else hardware_concurrency in
    record {
      nbworkers = nbworkers;
      nbtxperwrk = 200000 / nbworkers;
      nbaccounts = 32 * nbworkers;
      expnbaccounts = 256 * nbworkers;
      init_balance = 100;
      nbrepeats = 7;
      slow_factor = 16;
    }

-- `slow_factor * tick`, which must not be the tick that stands for no limit.
unfoldable pub slow_limit : (slow_factor tick : ℕ) → ℕ
slow_limit slow_factor tick =
    let maxtick : ℕ = slow_factor * tick % 2 ^ 64 in
    if maxtick == invalid_tick then (maxtick + 1) % 2 ^ 64 else maxtick

-- What the `try` block of a library ends with: an exception, an error, or the three ticks.
pub data Measured : Type 0 where
  exception error : Measured
  ticks : (tick_init tick_perf tick_chck : ℕ) → Measured

-- The first library that is measured sets the limits.
unfoldable pub set_limits : ℕ → Limits → (tick_init tick_perf tick_chck : ℕ) → Limits
unfolding slow_limit
set_limits slow_factor l tick_init tick_perf tick_chck =
    if l.maxtick_init == invalid_tick
    then record {
      maxtick_init = slow_limit slow_factor tick_init;
      maxtick_perf = slow_limit slow_factor tick_perf;
      maxtick_chck = slow_limit slow_factor tick_chck;
    }
    else l

abbrev pub no_limits : Limits
no_limits = record {
  maxtick_init = invalid_tick;
  maxtick_perf = invalid_tick;
  maxtick_chck = invalid_tick;
}

-- What comes of one library: `main` ends, or goes on.
abbrev pub code : Measured → (ℕ → ℕ → ℕ → ℕ) → ℕ
code exception rest = 2
code error rest = 1
code (ticks i p c) rest = rest i p c

-- The loop over the libraries: how each one is measured depends on the limits. The answer is the
-- code of `main`.
unfoldable pub evaluate : ℕ → List (Limits → Measured) → Limits → ℕ
unfolding set_limits
evaluate slow_factor [] l = 0
evaluate slow_factor (m ∷ ms) l =
    code (m l) λ i p c. evaluate slow_factor ms (set_limits slow_factor l i p c)

abbrev pub Limited : Limits → Type 0
Limited l =
    (l.maxtick_init ≢ invalid_tick)
    × (l.maxtick_perf ≢ invalid_tick)
    × (l.maxtick_chck ≢ invalid_tick)

slow_limit-ne : (slow_factor tick : ℕ) → slow_limit slow_factor tick ≢ invalid_tick
unfolding slow_limit
slow_limit-ne slow_factor tick h = ground arith

-- A library that is measured under these limits gives ticks.
abbrev pub Gives : (Limits → Measured) → Limits → Type 0
Gives m l = (i : ℕ) × (p : ℕ) × (c : ℕ) × (m l ≡ ticks i p c)

-- Every library gives ticks under the limits.
abbrev pub AllGive : List (Limits → Measured) → Limits → Type 0
AllGive [] l = Unit
AllGive (m ∷ ms) l = Gives m l × AllGive ms l

set_limits-Limited : (k i p c : ℕ) → Limited (set_limits k no_limits i p c)
unfolding set_limits
set_limits-Limited k i p c = (slow_limit-ne k i, slow_limit-ne k p, slow_limit-ne k c)

set_limits-same : (k : ℕ) (l : Limits) (i p c : ℕ) → Limited l → set_limits k l i p c ≡ l
unfolding set_limits
set_limits-same k l i p c h = rw (==_false l.maxtick_init invalid_tick h.0) refl

code-zero :
    (r : Measured) (rest : ℕ → ℕ → ℕ → ℕ)
    → code r rest ≡ 0
    → (i : ℕ) × (p : ℕ) × (c : ℕ) × (r ≡ ticks i p c) × (rest i p c ≡ 0)
code-zero exception rest h = absurd (omega arith)
code-zero error rest h = absurd (omega arith)
code-zero (ticks i p c) rest h = (i, p, c, refl, h)

evaluate-zero-Limited :
    (k : ℕ) (ms : List (Limits → Measured)) (l : Limits)
    → Limited l
    → evaluate k ms l ≡ 0
    → AllGive ms l
unfolding evaluate
evaluate-zero-Limited k [] l h e = tt
evaluate-zero-Limited k (m ∷ ms) l h e =
    let (i, p, c, q, z) = code-zero (m l) (λ i p c. evaluate k ms (set_limits k l i p c)) e in
    (
      (i, p, c, q),
      evaluate-zero-Limited k ms l h
          (subst (λ j. evaluate k ms j ≡ 0) (set_limits-same k l i p c h) z),
    )

-- `main` answers 0 only if the first library gave ticks when measured without limits, the limits made
-- from them all differ from the tick for no limit, and every other library gave ticks under them.
pub evaluate-zero :
    (k : ℕ) (m : Limits → Measured) (ms : List (Limits → Measured))
    → evaluate k (m ∷ ms) no_limits ≡ 0
    → (i : ℕ) × (p : ℕ) × (c : ℕ) × (m no_limits ≡ ticks i p c)
      × Limited (set_limits k no_limits i p c)
      × AllGive ms (set_limits k no_limits i p c)
unfolding evaluate
evaluate-zero k m ms e =
    let (i, p, c, q, z) =
      code-zero (m no_limits) (λ i p c. evaluate k ms (set_limits k no_limits i p c)) e in
    let lim = set_limits-Limited k i p c in
    (i, p, c, q, lim, evaluate-zero-Limited k ms (set_limits k no_limits i p c) lim z)
