-- ===== src/Grading/Bank/Retried.antt =====
-- What becomes of a short transaction of the bank (grading/workload.hpp) that is tried again.
use software_transactional_m.Prelude.{
  ℕ, suc, ◌-◌, ◌≤◌, ◌≡◌, refl, Bool, true, false, none, some, List, [], ◌∷◌, ltb-false, ap, ◌∙◌,
  ◌==◌,
}
use software_transactional_m.Grading.Transaction.{
  Tx, running, Library, transactional, attempt, attempt_kept, kept, execute, tx_read, destroy,
  leaves, ok, keep, pure, ◌>>=◌, resume, resume_kept, thrown, Transaction, transaction_retry,
}
use software_transactional_m.Grading.Shared.{after, get}
use software_transactional_m.Grading.Bank.{short_tx, short_loop, look, both_found, transfer}

module _ (nbaccounts init_balance start fuel : ℕ) where
  -- The closure of short_tx, with the two variables that it captures.
  abbrev pub closure : List ℕ → Tx Bool
  closure (send_id ∷ recv_id ∷ []) =
      short_tx nbaccounts init_balance start (suc fuel) send_id recv_id
  closure _ = running

  read_goes :
      {S : Type 0} (lib : Library S) (t : Transaction) (a n : ℕ) (s s' : S)
      → ((lib.tm_read t.tx a 8 s).0 ≡ some n) × ((lib.tm_read t.tx a 8 s).1 ≡ s')
      → tx_read lib t a 8 s ≡ (ok n, t, s')
  unfolding tx_read
  read_goes lib t a n s s' e = rw (tx_read, e.0, e.1)

  read_stops :
      {S : Type 0} (lib : Library S) (t : Transaction) (a : ℕ) (s s' : S)
      → ((lib.tm_read t.tx a 8 s).0 ≡ none) × ((lib.tm_read t.tx a 8 s).1 ≡ s')
      → tx_read lib t a 8 s ≡ (thrown transaction_retry, record t { aborted = true }, s')
  unfolding tx_read
  read_stops lib t a s s' e = rw (tx_read, e.0, e.1)

  abbrev opened : ℕ → Transaction
  opened tx = record { tx = tx; aborted = false; is_ro = false }

  -- The closure once it has looked for the two accounts in the first segment.
  searched : ℕ × ℕ → ℕ × ℕ → Tx Bool
  searched (p, i) (q, j) = keep (i ∷ j ∷ []) (elim (both_found p q) [
    | true ↦ transfer p q
    | false ↦ get (after start) >>= λ next. elim (next == 0) as (λ _. Tx Bool) [
      | true ↦ pure false
      | false ↦ short_loop nbaccounts init_balance start fuel next i j p q
    ]
  ])

  found_in : (id count : ℕ) → ℕ × ℕ
  found_in id count = look 0 id count (after (after (after start)))

  passed : (send_id recv_id count : ℕ) → Tx Bool
  passed send_id recv_id count = searched (found_in send_id count) (found_in recv_id count)

  found_in-none : (n i : ℕ) → n ≤ i → found_in i n ≡ (0, i - n)
  unfolding found_in look
  found_in-none n i h = rw (found_in, look, ltb-false i n h)

  -- The closure past the first segment.
  onward : (send_id recv_id next : ℕ) → Tx Bool
  onward i j next = elim (next == 0) as (λ _. Tx Bool) [
    | true ↦ pure false
    | false ↦ short_loop nbaccounts init_balance start fuel next i j 0 0
  ]

  passed_lem :
      (n i j : ℕ)
      → n ≤ i
      → n ≤ j
      → passed i j n ≡ keep ((i - n) ∷ (j - n) ∷ []) (get (after start) >>= onward (i - n) (j - n))
  unfolding passed searched onward both_found
  passed_lem n i j hi hj =
      ap (λ p. searched p (found_in j n)) (found_in-none n i hi)
      ∙ ap (λ q. searched (0, i - n) q) (found_in-none n j hj)

  module _ {S : Type 0} (lib : Library S) (tx n i j : ℕ) (s₁ s₂ s₃ : S)
      (count : tx_read lib (opened tx) start 8 s₁ ≡ (ok n, opened tx, s₂))
      (next : tx_read lib (opened tx) (after start) 8 s₂
        ≡ (thrown transaction_retry, record (opened tx) { aborted = true }, s₃))
      (hi : n ≤ i) (hj : n ≤ j) where
    execute_lem :
        execute lib (short_tx nbaccounts init_balance start (suc fuel) i j) (opened tx) s₁
        ≡ some (thrown transaction_retry, record (opened tx) { aborted = true }, s₃)
    unfolding execute short_tx short_loop passed searched found_in
    execute_lem =
        ap (resume lib (λ v. execute lib (passed i j v))) count
        ∙ ap (λ u. execute lib u (opened tx) s₂) (passed_lem n i j hi hj)
        ∙ ap (resume lib (λ v. execute lib (onward (i - n) (j - n) v))) next

    kept_lem :
        kept lib (short_tx nbaccounts init_balance start (suc fuel) i j) (opened tx) s₁ (i ∷ j ∷ [])
        ≡ (i - n) ∷ (j - n) ∷ []
    unfolding kept short_tx short_loop passed searched found_in
    kept_lem =
        ap (λ r. resume_kept lib (λ v. kept lib (passed i j v)) r (i ∷ j ∷ [])) count
        ∙ ap (λ u. kept lib u (opened tx) s₂ (i ∷ j ∷ [])) (passed_lem n i j hi hj)
        ∙ ap
            (λ r.
              resume_kept lib (λ v. kept lib (onward (i - n) (j - n) v)) r ((i - n) ∷ (j - n) ∷ []))
            next

  attempt_lem :
      {S : Type 0} (lib : Library S) (tx n send_id recv_id : ℕ) (s s₁ s₂ s₃ : S)
      → ((lib.tm_begin false s).0 ≡ some tx) × ((lib.tm_begin false s).1 ≡ s₁)
      → ((lib.tm_read tx start 8 s₁).0 ≡ some n) × ((lib.tm_read tx start 8 s₁).1 ≡ s₂)
      → ((lib.tm_read tx (after start) 8 s₂).0 ≡ none)
        × ((lib.tm_read tx (after start) 8 s₂).1 ≡ s₃)
      → n ≤ send_id
      → n ≤ recv_id
      → attempt lib false (closure (send_id ∷ recv_id ∷ [])) s
        ≡ some (leaves (thrown transaction_retry), s₃)
  unfolding attempt destroy
  attempt_lem lib tx n i j s s₁ s₂ s₃ began counted refused hi hj =
      let count = read_goes lib (opened tx) start n s₁ s₂ counted in
      let next = read_stops lib (opened tx) (after start) s₂ s₃ refused in
      rw (attempt, began.0, began.1, execute_lem lib tx n i j s₁ s₂ s₃ count next hi hj)

  attempt_kept_lem :
      {S : Type 0} (lib : Library S) (tx n send_id recv_id : ℕ) (s s₁ s₂ s₃ : S)
      → ((lib.tm_begin false s).0 ≡ some tx) × ((lib.tm_begin false s).1 ≡ s₁)
      → ((lib.tm_read tx start 8 s₁).0 ≡ some n) × ((lib.tm_read tx start 8 s₁).1 ≡ s₂)
      → ((lib.tm_read tx (after start) 8 s₂).0 ≡ none)
        × ((lib.tm_read tx (after start) 8 s₂).1 ≡ s₃)
      → n ≤ send_id
      → n ≤ recv_id
      → attempt_kept lib false (closure (send_id ∷ recv_id ∷ [])) s (send_id ∷ recv_id ∷ [])
        ≡ (send_id - n) ∷ (recv_id - n) ∷ []
  unfolding attempt_kept
  attempt_kept_lem lib tx n i j s s₁ s₂ s₃ began counted refused hi hj =
      let count = read_goes lib (opened tx) start n s₁ s₂ counted in
      let next = read_stops lib (opened tx) (after start) s₂ s₃ refused in
      rw (attempt_kept, began.0, began.1, kept_lem lib tx n i j s₁ s₂ s₃ count next hi hj)

  -- An attempt of short_tx that has found `n` accounts in the first segment, neither of the two among
  -- them, and is given up at its next read, is followed by one for the accounts with the indices less
  -- `n`, counted from the first segment again.
  pub transactional-short_tx :
      {S : Type 0} (lib : Library S) (attempts tx n send_id recv_id : ℕ) (s s₁ s₂ s₃ : S)
      → ((lib.tm_begin false s).0 ≡ some tx) × ((lib.tm_begin false s).1 ≡ s₁)
      → ((lib.tm_read tx start 8 s₁).0 ≡ some n) × ((lib.tm_read tx start 8 s₁).1 ≡ s₂)
      → ((lib.tm_read tx (after start) 8 s₂).0 ≡ none)
        × ((lib.tm_read tx (after start) 8 s₂).1 ≡ s₃)
      → n ≤ send_id
      → n ≤ recv_id
      → transactional lib (suc attempts) false closure (send_id ∷ recv_id ∷ []) s
        ≡ transactional lib attempts false closure ((send_id - n) ∷ (recv_id - n) ∷ []) s₃
  unfolding transactional
  transactional-short_tx lib attempts tx n i j s s₁ s₂ s₃ began counted refused hi hj =
      let stops = attempt_lem lib tx n i j s s₁ s₂ s₃ began counted refused hi hj in
      let leaves_ids = attempt_kept_lem lib tx n i j s s₁ s₂ s₃ began counted refused hi hj in
      rw (transactional, stops, leaves_ids) refl
