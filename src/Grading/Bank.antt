-- ===== src/Grading/Bank.antt =====
-- class WorkloadBank of grading/workload.hpp: a linked list of segments of accounts in shared memory,
-- and the transactions on it.
use software_transactional_m.Prelude.{
  ℕ, zero, suc, ◌+◌, ◌*◌, ◌-◌, ◌%◌, ◌^◌, Bool, true, false, not, ◌&&◌, Option, none, some, List, [],
  ◌∷◌, ltb, leb, ◌==◌, if◌then◌else◌,
}
use software_transactional_m.Grading.Transaction.{
  Tx, pure, throw, running, read, write, alloc, free, keep, ◌>>=◌, ◌>>◌, throw_if, assert_mode,
  transaction_not_last_segment,
}
use software_transactional_m.Grading.Shared.{bind, get, set, after, cell, alloc_at, free_at}
pub mod Money
pub mod Frame
pub mod Account
pub mod Transfer
pub mod Retried
pub mod Balance
pub mod Splice
pub mod Last
pub mod Tail
pub mod Resize
pub mod Ends
pub mod Alloc
pub mod Changes
pub mod Init
pub mod Serial

-- `size_t` and `Balance` are words of 64 bits; a balance is negative from 2^63.
abbrev pub wrap : ℕ → ℕ
wrap n = n % 2 ^ 64

abbrev pub is_negative : ℕ → Bool
is_negative balance = leb (2 ^ 63) balance

unfoldable pub is_positive : ℕ → Bool
is_positive balance = ltb 0 balance && not (is_negative balance)

-- `AccountSegment`: the addresses of its parts.
pub record AccountSegment : Type 0 where
  pub count : ℕ
  pub next : ℕ
  pub parity : ℕ
  pub accounts : ℕ

abbrev pub size : ℕ → ℕ
size nbaccounts = 24 + nbaccounts * 8

abbrev pub align : ℕ
align = 8

-- The binding constructor.
abbrev pub segment : ℕ → Tx AccountSegment
unfolding bind
segment address = do
  count ← bind align address
  next ← bind align (after count)
  parity ← bind align (after next)
  accounts ← bind align (after parity)
  pure (record { count = count; next = next; parity = parity; accounts = accounts })

-- The accounts from `i` on, added to `sum`; `none` where a balance is negative.
unfoldable pub sum_accounts : (accounts i rounds sum : ℕ) → Tx (Option ℕ)
sum_accounts accounts i zero sum = pure (some sum)
sum_accounts accounts i (suc rounds) sum = do
  balance ← get (cell accounts i)
  if is_negative balance
      then pure none
      else sum_accounts accounts (i + 1) rounds (wrap (sum + balance))

-- A search in one segment: the account's address (0 while it is not found), and its index from there.
unfoldable pub look : (pointer id segment_count accounts : ℕ) → ℕ × ℕ
look pointer id segment_count accounts =
    if pointer == 0
    then (if ltb id segment_count then (cell accounts id, id) else (0, id - segment_count))
    else (pointer, id)

unfoldable pub both_found : ℕ → ℕ → Bool
both_found send_ptr recv_ptr = not (send_ptr == 0) && not (recv_ptr == 0)

-- The transfer of one unit, once the accounts are found.
unfoldable pub transfer : (send_ptr recv_ptr : ℕ) → Tx Bool
unfolding bind
transfer send_ptr recv_ptr = do
  sender ← bind align send_ptr
  recver ← bind align recv_ptr
  send_val ← get sender
  elim (is_positive send_val) [
    | true ↦ do set sender (send_val - 1); recv_val ← get recver; set recver (wrap (recv_val + 1))
    | false ↦ pure tt
  ]
  pure true

-- A bank: its accounts per segment, the initial balance, and the start of the region.
module _ (nbaccounts init_balance start : ℕ) where
  -- The loop of `long_tx`. Its result is what `long_tx` returns, and what it leaves in its argument.
  unfoldable pub long_loop : ℕ → (nb current count sum : ℕ) → Tx (Bool × ℕ)
  unfolding segment sum_accounts
  long_loop zero nb current count sum = running
  long_loop (suc fuel) nb current count sum = elim (current == 0) [
    | true ↦ pure (sum == wrap (init_balance * count), count)
    | false ↦ do
      s ← segment current
      segment_count ← get s.count
      parity ← get s.parity
      sum' ← sum_accounts s.accounts 0 segment_count (wrap (sum + parity))
      elim sum' [
        | none ↦ pure (false, nb)
        | some sum' ↦ do
          current' ← get s.next
          long_loop fuel nb current' (wrap (count + segment_count)) sum'
      ]
  ]

  unfoldable pub long_tx : ℕ → ℕ → Tx (Bool × ℕ)
  unfolding long_loop
  long_tx fuel nb = long_loop fuel nb start 0 0

  -- The removal of the last account of the last segment `s`, which has `segment_count` accounts.
  unfoldable pub remove_account : (prev : ℕ) → AccountSegment → (segment_count : ℕ) → Tx (Unit {0})
  unfolding segment free_at
  remove_account prev s segment_count = do
    let left = wrap (segment_count + (2 ^ 64 - 1))
    parity ← get s.parity
    balance ← get (cell s.accounts left)
    let new_parity = wrap (parity + balance + (2 ^ 64 - init_balance))
    elim (ltb 0 left) [
      | true ↦ do set s.count left; set s.parity new_parity
      | false ↦ do
        throw_if (assert_mode && prev == 0) transaction_not_last_segment
        p ← segment prev
        free_at p.next
        prev_parity ← get p.parity
        set p.parity (wrap (prev_parity + new_parity))
    ]

  -- One account more in the last segment, or in a new one. A size that is not 0 hides the size that
  -- `alloc_at` has otherwise.
  unfoldable pub add_account : AccountSegment → (segment_count : ℕ) → Tx (Unit {0})
  unfolding segment alloc_at
  add_account s segment_count = elim (ltb segment_count nbaccounts) [
    | true ↦ do
      set (cell s.accounts segment_count) init_balance
      set s.count (wrap (segment_count + 1))
    | false ↦ do
      address ← alloc_at 0 s.next (size nbaccounts)
      next ← segment address
      set next.count 1
      set (cell next.accounts 0) init_balance
  ]

  -- The loop of `alloc_tx`.
  unfoldable pub alloc_loop : ℕ → (trigger count prev current : ℕ) → Tx (Unit {0})
  unfolding segment
  alloc_loop zero trigger count prev current = running
  alloc_loop (suc fuel) trigger count prev current = do
    s ← segment current
    segment_count ← get s.count
    let count' = wrap (count + segment_count)
    segment_next ← get s.next
    elim (segment_next == 0) [
      | true ↦
          if ltb trigger count' && ltb 2 count'
          then remove_account prev s segment_count
          else add_account s segment_count
      | false ↦ alloc_loop fuel trigger count' current segment_next
    ]

  unfoldable pub alloc_tx : ℕ → ℕ → Tx (Unit {0})
  unfolding alloc_loop
  alloc_tx fuel trigger = alloc_loop fuel trigger 0 0 start

  -- The loop of `short_tx`; it is left as soon as both accounts are found. The closure captures
  -- `send_id` and `recv_id` by reference and takes off them the accounts of each segment passed.
  unfoldable pub short_loop : ℕ → (current send_id recv_id send_ptr recv_ptr : ℕ) → Tx Bool
  unfolding segment
  short_loop zero current send_id recv_id send_ptr recv_ptr = running
  short_loop (suc fuel) current send_id recv_id send_ptr recv_ptr = do
    s ← segment current
    segment_count ← get s.count
    let (send_ptr', send_id') = look send_ptr send_id segment_count s.accounts
    let (recv_ptr', recv_id') = look recv_ptr recv_id segment_count s.accounts
    keep (send_id' ∷ recv_id' ∷ []) (elim (both_found send_ptr' recv_ptr') [
      | true ↦ transfer send_ptr' recv_ptr'
      | false ↦ do
        current' ← get s.next
        elim (current' == 0) [
          | true ↦ pure false
          | false ↦ short_loop fuel current' send_id' recv_id' send_ptr' recv_ptr'
        ]
    ])

  -- The closure at given values of the two captured variables.
  unfoldable pub short_tx : ℕ → (send_id recv_id : ℕ) → Tx Bool
  unfolding short_loop
  short_tx fuel send_id recv_id = short_loop fuel start send_id recv_id 0 0

  -- The two transactions of `init`.
  unfoldable pub fill : (accounts i rounds : ℕ) → Tx (Unit {0})
  fill accounts i zero = pure tt
  fill accounts i (suc rounds) = do set (cell accounts i) init_balance; fill accounts (i + 1) rounds

  unfoldable pub init_tx : Tx (Unit {0})
  unfolding segment fill
  init_tx = do s ← segment start; set s.count nbaccounts; fill s.accounts 0 nbaccounts

  unfoldable pub init_check : Tx Bool
  unfolding segment
  init_check = do s ← segment start; first ← get (cell s.accounts 0); pure (first == init_balance)
