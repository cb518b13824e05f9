-- ===== src/Grading/Template.antt =====
-- template/tm.c: the library that a student starts from. Every call fails.
use software_transactional_m.Prelude.{ℕ, suc, ◌≡◌, refl, Bool, false, none, some, List}
use software_transactional_m.Grading.Transaction.{
  Library, abort, Tx, leaves, thrown, transaction_begin, attempt, transactional,
}

-- 0 is `invalid_shared`.
abbrev pub tm_create : (size align : ℕ) → ℕ
tm_create size align = 0

abbrev pub tm_start : (shared : ℕ) → ℕ
tm_start shared = 0

abbrev pub tm_size : (shared : ℕ) → ℕ
tm_size shared = 0

abbrev pub tm_align : (shared : ℕ) → ℕ
tm_align shared = 0

-- `tm_destroy` does nothing; the others leave any state as it is.
abbrev pub template : {S : Type 0} → Library S
template = record {
  tm_begin = λ is_ro s. (none, s);
  tm_end = λ tx s. (false, s);
  tm_read = λ tx source size s. (none, s);
  tm_write = λ tx value size target s. (false, s);
  tm_alloc = λ tx size s. (abort, s);
  tm_free = λ tx target s. (false, s);
}

-- Every transaction over it throws at its begin, at the first attempt and with nothing done.
pub transactional-template :
    {S A : Type 0} (attempts : ℕ) (is_ro : Bool) (func : List ℕ → Tx A) (c : List ℕ) (s : S)
    → transactional template (suc attempts) is_ro func c s
      ≡ some (leaves (thrown transaction_begin), s)
unfolding transactional attempt
transactional-template attempts is_ro func c s = refl
