-- ===== src/Grading/Transaction.antt =====
-- grading/transactional.hpp: the wrapper of a library, a transaction, and its repetition. The library
-- is loaded at run time and an argument.
use software_transactional_m.Prelude.{
  ℕ, zero, suc, Bool, true, false, ◌&&◌, Option, none, some, List, if◌then◌else◌,
}

pub data Exception : Type 0 where
  transaction_read_only transaction_begin transaction_alloc transaction_retry
        transaction_not_last_segment shared_align shared_overflow shared_double_alloc
        shared_double_free :
      Exception

-- `assert_mode` of grading/common.hpp
abbrev pub assert_mode : Bool
assert_mode = false

pub data Alloc : Type 0 where
  success : ℕ → Alloc
  abort nomem : Alloc

-- The functions of a loaded library on the state `S` of its region. A read answers with the value
-- found, `none` where the transaction cannot continue.
pub record Library (S : Type 0) : Type 0 where
  pub tm_begin : Bool → S → Option ℕ × S
  pub tm_end : ℕ → S → Bool × S
  pub tm_read : (tx source size : ℕ) → S → Option ℕ × S
  pub tm_write : (tx value size target : ℕ) → S → Bool × S
  pub tm_alloc : (tx size : ℕ) → S → Alloc × S
  pub tm_free : (tx target : ℕ) → S → Bool × S

-- What a closure does with its transaction: calls of its methods, and a result. `keep` assigns to the
-- variables that it has captured by reference, whose new values a later attempt begins with.
-- `running` is a loop that has used up its fuel.
pub data Tx (A : Type 0) : Type 0 where
  pure : A → Tx A
  throw : Exception → Tx A
  running : Tx A
  read : (source size : ℕ) → (ℕ → Tx A) → Tx A
  write : (value size target : ℕ) → Tx A → Tx A
  alloc : (size : ℕ) → (ℕ → Tx A) → Tx A
  free : (target : ℕ) → Tx A → Tx A
  keep : (captured : List ℕ) → Tx A → Tx A

infixl 5 ◌>>=◌ ◌>>◌
abbrev pub ◌>>=◌ : {A B : Type 0} → Tx A → (A → Tx B) → Tx B
◌>>=◌ (pure a) k = k a
◌>>=◌ (throw e) k = throw e
◌>>=◌ running k = running
◌>>=◌ (read source size f) k = read source size λ v. f v >>= k
◌>>=◌ (write value size target t) k = write value size target (t >>= k)
◌>>=◌ (alloc size f) k = alloc size λ a. f a >>= k
◌>>=◌ (free target t) k = free target (t >>= k)
◌>>=◌ (keep captured t) k = keep captured (t >>= k)

abbrev pub ◌>>◌ : {A B : Type 0} → Tx A → Tx B → Tx B
t >> u = t >>= λ _. u

abbrev pub throw_if : Bool → Exception → Tx (Unit {0})
throw_if c e = if c then throw e else pure tt

-- The object of `class Transaction`.
pub record Transaction : Type 0 where
  pub tx : ℕ
  pub aborted : Bool
  pub is_ro : Bool

pub data Result (A : Type 0) : Type 0 where
  ok : A → Result A
  thrown : Exception → Result A

-- How an object of `class Transaction` goes out of scope: with a result, or in `std::terminate`.
pub data Left (A : Type 0) : Type 0 where
  leaves : Result A → Left A
  terminates : Left A

module _ {S : Type 0} (lib : Library S) where
  unfoldable pub tx_read : Transaction → (source size : ℕ) → S → Result ℕ × Transaction × S
  tx_read t source size s =
      let (answer, s') = lib.tm_read t.tx source size s in
      elim answer [
        | some v ↦ (ok v, t, s')
        | none ↦ (thrown transaction_retry, record t { aborted = true }, s')
      ]

  unfoldable pub tx_write :
      Transaction → (value size target : ℕ) → S → Result (Unit {0}) × Transaction × S
  tx_write t value size target s =
      if assert_mode && t.is_ro
      then (thrown transaction_read_only, t, s)
      else (let (goes_on, s') = lib.tm_write t.tx value size target s in
          elim goes_on [
            | true ↦ (ok tt, t, s')
            | false ↦ (thrown transaction_retry, record t { aborted = true }, s')
          ])

  unfoldable pub tx_alloc : Transaction → ℕ → S → Result ℕ × Transaction × S
  tx_alloc t size s =
      if assert_mode && t.is_ro
      then (thrown transaction_read_only, t, s)
      else (let (answer, s') = lib.tm_alloc t.tx size s in
          elim answer [
            | success target ↦ (ok target, t, s')
            | nomem ↦ (thrown transaction_alloc, t, s')
            | abort ↦ (thrown transaction_retry, record t { aborted = true }, s')
          ])

  unfoldable pub tx_free : Transaction → ℕ → S → Result (Unit {0}) × Transaction × S
  tx_free t target s =
      if assert_mode && t.is_ro
      then (thrown transaction_read_only, t, s)
      else (let (goes_on, s') = lib.tm_free t.tx target s in
          elim goes_on [
            | true ↦ (ok tt, t, s')
            | false ↦ (thrown transaction_retry, record t { aborted = true }, s')
          ])

  -- What follows a call: the closure goes on with its value, or its exception leaves the closure.
  abbrev pub resume :
      {A X : Type 0}
      → (X → Transaction → S → Option (Result A × Transaction × S))
      → Result X × Transaction × S
      → Option (Result A × Transaction × S)
  resume k (ok v, t, s) = k v t s
  resume k (thrown e, t, s) = some (thrown e, t, s)

  -- A closure called with a transaction; `none` is a closure that is still running.
  unfoldable pub execute :
      {A : Type 0} → Tx A → Transaction → S → Option (Result A × Transaction × S)
  unfolding tx_read tx_write tx_alloc tx_free
  execute (pure a) t s = some (ok a, t, s)
  execute (throw e) t s = some (thrown e, t, s)
  execute running t s = none
  execute (read source size k) t s = resume (λ v. execute (k v)) (tx_read t source size s)
  execute (write value size target u) t s = resume (λ _. execute u) (tx_write t value size target s)
  execute (alloc size k) t s = resume (λ a. execute (k a)) (tx_alloc t size s)
  execute (free target u) t s = resume (λ _. execute u) (tx_free t target s)
  execute (keep captured u) t s = execute u t s

  -- What follows a call, for the captured variables: an exception leaves them as they are.
  abbrev pub resume_kept :
      {X : Type 0}
      → (X → Transaction → S → List ℕ → List ℕ)
      → Result X × Transaction × S
      → List ℕ
      → List ℕ
  resume_kept k (ok v, t, s) c = k v t s c
  resume_kept k (thrown e, t, s) c = c

  -- The captured variables of a closure when it is left, if they are `c` when it is called.
  unfoldable pub kept : {A : Type 0} → Tx A → Transaction → S → (c : List ℕ) → List ℕ
  unfolding tx_read tx_write tx_alloc tx_free
  kept (pure a) t s c = c
  kept (throw e) t s c = c
  kept running t s c = c
  kept (read source size k) t s c = resume_kept (λ v. kept (k v)) (tx_read t source size s) c
  kept (write value size target u) t s c =
      resume_kept (λ _. kept u) (tx_write t value size target s) c
  kept (alloc size k) t s c = resume_kept (λ a. kept (k a)) (tx_alloc t size s) c
  kept (free target u) t s c = resume_kept (λ _. kept u) (tx_free t target s) c
  kept (keep captured u) t s c = kept u t s captured

  -- `~Transaction`, after the closure has returned or thrown: the end of a transaction that was not
  -- aborted. An end that fails throws, which terminates the program if an exception is on its way.
  unfoldable pub destroy : {A : Type 0} → Result A → Transaction → S → Left A × S
  destroy r t s =
      if t.aborted
      then (leaves r, s)
      else (let (committed, s') = lib.tm_end t.tx s in
          elim committed [
            | true ↦ (leaves r, s')
            | false ↦
                (elim r [ ok _ ↦ leaves (thrown transaction_retry) | thrown _ ↦ terminates ], s')
          ])

  -- The `try` block of `transactional`.
  unfoldable pub attempt : {A : Type 0} → Bool → Tx A → S → Option (Left A × S)
  unfolding execute destroy
  attempt is_ro func s =
      let (began, s₁) = lib.tm_begin is_ro s in
      elim began [
        | none ↦ some (leaves (thrown transaction_begin), s₁)
        | some tx ↦ elim (execute func (record { tx = tx; aborted = false; is_ro = is_ro }) s₁) [
          | none ↦ none
          | some (r, t, s₂) ↦ some (destroy r t s₂)
        ]
      ]

  -- The captured variables after an attempt.
  unfoldable pub attempt_kept : {A : Type 0} → Bool → Tx A → S → (c : List ℕ) → List ℕ
  unfolding kept
  attempt_kept is_ro func s c =
      let (began, s₁) = lib.tm_begin is_ro s in
      elim began [
        | none ↦ c
        | some tx ↦ kept func (record { tx = tx; aborted = false; is_ro = is_ro }) s₁ c
      ]

  -- `func` gives the calls of the closure for each value `c` of the variables that it captures. The
  -- first argument bounds the number of attempts; `none` when it is used up.
  unfoldable pub transactional :
      {A : Type 0} → ℕ → Bool → (List ℕ → Tx A) → (c : List ℕ) → S → Option (Left A × S)
  unfolding attempt attempt_kept
  transactional zero is_ro func c s = none
  transactional (suc attempts) is_ro func c s = elim (attempt is_ro (func c) s) [
    | none ↦ none
    | some (leaves (thrown transaction_retry), s') ↦
        transactional attempts is_ro func (attempt_kept is_ro (func c) s c) s'
    | some (left, s') ↦ some (left, s')
  ]
