-- ===== src/Grading/Bank/Transfer.antt =====
-- What a short transaction of the bank (grading/workload.hpp) does.
use software_transactional_m.Prelude.{
  ℕ, zero, suc, ◌+◌, ◌-◌, ◌≤◌, ◌≡◌, ◌≢◌, refl, List, [], ◌∷◌, update, arith, Bool, true, false, ltb,
  ◌==◌, if◌then◌else◌, Option, some, length, ==_false,
}
use software_transactional_m.Grading.Transaction.{Tx, ◌>>=◌, ◌>>◌, pure, Result, ok}
use software_transactional_m.Grading.Shared.{cell, after, get, set}
use software_transactional_m.Grading.Store.{Store, run}
use software_transactional_m.Grading.Bank.{
  wrap, is_positive, look, both_found, transfer, short_loop, short_tx,
}
use software_transactional_m.Grading.Bank.Money.{Linked, accounts_at}

-- The address of the account with this index, 0 if there are not that many.
unfoldable pub locate : Store → List ℕ → ℕ → ℕ
locate m [] id = 0
locate m (b ∷ bs) id = if ltb id (m b) then cell (accounts_at b) id else locate m bs (id - m b)

-- One unit less at `p` and one more at `q`, if there is one at `p`.
unfoldable pub moved : Store → (p q : ℕ) → Store
moved m p q =
    let taken = update m p (m p - 1) in
    if is_positive (m p) then update taken q (wrap (taken q + 1)) else m

-- The result of a transfer between two addresses.
abbrev pub outcome : Store → (p q : ℕ) → Bool × Store
outcome m p q = if both_found p q then (true, moved m p q) else (false, m)

-- A closure that returns with this result and this memory.
abbrev pub returns : Bool × Store → Option (Result Bool × Store)
returns (b, m') = some (ok b, m')

-- An account that is searched for: the address found already, or that of its index from here on.
searched : Store → (pointer id : ℕ) → List ℕ → ℕ
searched m pointer id bs = if pointer == 0 then locate m bs id else pointer

module _ (m : Store) where
  searched-look :
      (pointer id b : ℕ) (bs : List ℕ)
      → searched m pointer id (b ∷ bs)
        ≡ searched m
            (look pointer id (m b) (accounts_at b)).0
            (look pointer id (m b) (accounts_at b)).1
            bs
  unfolding searched locate look
  searched-look pointer id b bs = ground arith

  searched_found : (pointer id : ℕ) (bs : List ℕ) → pointer ≢ 0 → searched m pointer id bs ≡ pointer
  unfolding searched
  searched_found pointer id bs h = rw (==_false pointer 0 h) refl

  searched_end : (pointer id : ℕ) → searched m pointer id [] ≡ pointer
  unfolding searched locate
  searched_end pointer id = ground arith

  moved_lem :
      (answers : List (Option ℕ)) (p q : ℕ) (enough : Bool)
      → run
          ((elim enough as (λ _. Tx (Unit {0})) [
            | true ↦ (set p (m p - 1) >> (get q >>= λ recv_val. set q (wrap (recv_val + 1))))
            | false ↦ pure tt
          ])
            >> pure true)
          answers
          m
        ≡ some (
          ok true,
          if enough then update (update m p (m p - 1)) q (wrap (update m p (m p - 1) q + 1)) else m,
        )
  unfolding run
  moved_lem answers p q true = refl
  moved_lem answers p q false = refl

  run-transfer :
      (answers : List (Option ℕ)) (p q : ℕ)
      → run (transfer p q) answers m ≡ some (ok true, moved m p q)
  unfolding run transfer moved
  run-transfer answers p q = moved_lem answers p q (is_positive (m p))

pub both_found_ne : (p q : ℕ) → both_found p q ≡ true → (p ≢ 0) × (q ≢ 0)
unfolding both_found
both_found_ne p q h = ((λ e. ground arith), (λ e. ground arith))

module _ (nbaccounts init_balance start : ℕ) (m : Store) (answers : List (Option ℕ)) where
  -- What `short_loop` does after it has looked at the segment at `a`.
  abbrev proceed : (fuel a i j p q : ℕ) → Bool → Tx Bool
  proceed fuel a i j p q found = elim found as (λ _. Tx Bool) [
    | true ↦ transfer p q
    | false ↦ get (after a) >>= λ next. elim (next == 0) as (λ _. Tx Bool) [
      | true ↦ pure false
      | false ↦ short_loop nbaccounts init_balance start fuel next i j p q
    ]
  ]

  run-proceed :
      (fuel a i j p q : ℕ) (bs : List ℕ)
      → Linked m (m (after a)) bs
      → (m (after a) ≢ 0
          → run (short_loop nbaccounts init_balance start fuel (m (after a)) i j p q) answers m
            ≡ returns (outcome m (searched m p i bs) (searched m q j bs)))
      → (found : Bool) → both_found p q ≡ found
      → run (proceed fuel a i j p q found) answers m
        ≡ returns (outcome m (searched m p i bs) (searched m q j bs))
  unfolding run
  run-proceed fuel a i j p q bs linked rest true e =
      let here = both_found_ne p q e in
      rw (searched_found m p i bs here.0, searched_found m q j bs here.1, e)
        (run-transfer m answers p q)
  run-proceed fuel a i j p q [] linked rest false e =
      rw (searched_end m p i, searched_end m q j, e, linked, run) refl
  run-proceed fuel a i j p q (b ∷ bs) linked rest false e =
      let ne : m (after a) ≢ 0 = rw linked.0 linked.1 in
      rw (==_false (m (after a)) 0 ne, run) (rest ne)

  -- The loop from a segment on.
  run-short_loop :
      (fuel a send_id recv_id send_ptr recv_ptr : ℕ) (bs : List ℕ)
      → Linked m a bs
      → a ≢ 0
      → length bs ≤ fuel
      → run
          (short_loop nbaccounts init_balance start fuel a send_id recv_id send_ptr recv_ptr)
          answers
          m
        ≡ returns (outcome m (searched m send_ptr send_id bs) (searched m recv_ptr recv_id bs))
  unfolding run short_loop
  run-short_loop fuel a send_id recv_id send_ptr recv_ptr [] linked ne f = absurd (ne linked)
  run-short_loop zero a send_id recv_id send_ptr recv_ptr (b ∷ bs) linked ne f =
      absurd (omega arith)
  run-short_loop (suc fuel) a send_id recv_id send_ptr recv_ptr (b ∷ bs) (e, _, linked) ne f =
      let linked' : Linked m (m (after a)) bs = rw e linked in
      let s = look send_ptr send_id (m a) (accounts_at a) in
      let r = look recv_ptr recv_id (m a) (accounts_at a) in
      rw (← e) (
        rw (searched-look m send_ptr send_id a bs, searched-look m recv_ptr recv_id a bs)
          (run-proceed fuel a s.1 r.1 s.0 r.0 bs linked'
            (λ more.
              run-short_loop fuel (m (after a)) s.1 r.1 s.0 r.0 bs linked' more (omega arith))
            (both_found s.0 r.0) refl))

  -- One run of the closure of short_tx, from values `send_id` and `recv_id` of the variables that it
  -- captures, with nothing in between, on a list of segments that is not empty, with fuel for each
  -- segment, returns. It moves one unit from the account with the index `send_id` to that with the index
  -- `recv_id`, if both exist and the first is positive, and answers whether both exist. A run that
  -- follows an aborted one begins with what that one has left of the two variables.
  pub run-short_tx :
      (fuel send_id recv_id : ℕ) (bs : List ℕ)
      → Linked m start bs
      → start ≢ 0
      → length bs ≤ fuel
      → run (short_tx nbaccounts init_balance start fuel send_id recv_id) answers m
        ≡ returns (outcome m (locate m bs send_id) (locate m bs recv_id))
  unfolding short_tx searched
  run-short_tx fuel send_id recv_id bs linked ne f =
      run-short_loop fuel start send_id recv_id 0 0 bs linked ne f
