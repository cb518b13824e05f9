-- ===== src/Grading/Chrono.antt =====
-- class Chrono of grading/common.hpp. A tick is a nanosecond, in a word of 64 bits.
use software_transactional_m.Prelude.{
  ℕ, ◌+◌, ◌-◌, ◌*◌, ◌%◌, ◌^◌, Option, none, some, ◌==◌, if◌then◌else◌,
}

-- `Chrono::invalid_tick`
abbrev pub invalid_tick : ℕ
invalid_tick = 0xbadc0de

pub record Chrono : Type 0 where
  pub total : ℕ
  pub local : ℕ

-- The answer of a clock function: `none` is an error, else seconds and nanoseconds.
abbrev pub Reading : Type 0
Reading = Option (ℕ × ℕ)

unfoldable pub convert : Reading → ℕ
convert none = invalid_tick
convert (some (tv_sec, tv_nsec)) =
    let res : ℕ = (tv_nsec + tv_sec * 1000000000) % 2 ^ 64 in
    if res == invalid_tick then invalid_tick + 1 else res

unfoldable pub start : Chrono → Reading → Chrono
start c now = record c { local = convert now }

unfoldable pub delta : Chrono → Reading → ℕ
delta c now = (convert now + 2 ^ 64 - c.local) % 2 ^ 64

unfoldable pub stop : Chrono → Reading → Chrono
stop c now = record c { total = (c.total + delta c now) % 2 ^ 64 }

unfoldable pub reset : Chrono → Chrono
reset c = record c { total = 0 }

unfoldable pub get_tick : Chrono → ℕ
get_tick c = c.total
