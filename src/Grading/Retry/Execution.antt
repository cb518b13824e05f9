-- ===== src/Grading/Retry/Execution.antt =====
-- What one call of a closure comes to, over a library with the contract.
use software_transactional_m.Prelude.{
  ℕ, ◌≡◌, refl, sym, ap, true, false, Option, none, some, List, [], ◌∷◌, ◌⊎◌, inl, inr, update,
  subst,
}
use software_transactional_m.Grading.Transaction.{
  Tx, pure, throw, running, read, write, alloc, free, keep, transaction_alloc, transaction_retry,
  Result, ok, thrown, Library, success, abort, nomem, Transaction, tx_read, tx_write, tx_alloc,
  tx_free, execute, resume,
}
use software_transactional_m.Grading.Store.{Store, cleared, run}
use software_transactional_m.Grading.Retry.Contract.{IsAtomic}

module _ {S : Type 0} (lib : Library S) (atomic : IsAtomic lib) where
  open atomic use {memory, view}

  -- The closure ran to a result, and what it saw last is `m'`, or it was told to try again.
  abbrev pub Ran :
      {A : Type 0} → Tx A → (start m : Store) → Option (Result A × Transaction × S) → Type 0
  Ran func start m none = Unit
  Ran func start m (some (r, t, s)) =
      ((r ≡ thrown transaction_retry) × (t.aborted ≡ true))
      ⊎ ((answers : List (Option ℕ)) × (m' : Store) × (run func answers m ≡ some (r, m'))
          × (view s t.tx ≡ some (start, m'))
          × (t.aborted ≡ false))

  -- One answer more.
  Ran-alloc :
      {A : Type 0} (size : ℕ) (k : ℕ → Tx A) (a : ℕ) (start m : Store)
      (o : Option (Result A × Transaction × S))
      → Ran (k a) start (cleared m a size) o
      → Ran (alloc size k) start m o
  unfolding run
  Ran-alloc size k a start m none h = tt
  Ran-alloc size k a start m (some _) (inl again) = inl again
  Ran-alloc size k a start m (some _) (inr (answers, m', ran, sees, going)) =
      inr (some a ∷ answers, m', ran, sees, going)

  Ran-read :
      {A : Type 0} (a size : ℕ) (k : ℕ → Tx A) (start m : Store)
      (o : Option (Result A × Transaction × S))
      → Ran (k (m a)) start m o
      → Ran (read a size k) start m o
  unfolding run
  Ran-read a size k start m none h = tt
  Ran-read a size k start m (some _) h = h

  Ran-write :
      {A : Type 0} (v size a : ℕ) (u : Tx A) (start m : Store)
      (o : Option (Result A × Transaction × S))
      → Ran u start (update m a v) o
      → Ran (write v size a u) start m o
  unfolding run
  Ran-write v size a u start m none h = tt
  Ran-write v size a u start m (some _) h = h

  Ran-free :
      {A : Type 0} (a : ℕ) (u : Tx A) (start m : Store) (o : Option (Result A × Transaction × S))
      → Ran u start m o
      → Ran (free a u) start m o
  unfolding run
  Ran-free a u start m none h = tt
  Ran-free a u start m (some _) h = h

  Ran-keep :
      {A : Type 0} (c : List ℕ) (u : Tx A) (start m : Store)
      (o : Option (Result A × Transaction × S))
      → Ran u start m o
      → Ran (keep c u) start m o
  unfolding run
  Ran-keep c u start m none h = tt
  Ran-keep c u start m (some _) h = h

  module _ (t : Transaction) (s : S) where
    tx_read-stops :
        (a size : ℕ)
        → (lib.tm_read t.tx a size s).0 ≡ none
        → tx_read lib t a size s
          ≡ (thrown transaction_retry, record t { aborted = true }, (lib.tm_read t.tx a size s).1)
    unfolding tx_read
    tx_read-stops a size e = rw (e, tx_read)

    tx_read-goes :
        (a size v : ℕ)
        → (lib.tm_read t.tx a size s).0 ≡ some v
        → tx_read lib t a size s ≡ (ok v, t, (lib.tm_read t.tx a size s).1)
    unfolding tx_read
    tx_read-goes a size v e = rw (e, tx_read)

    tx_write-stops :
        (v size a : ℕ)
        → (lib.tm_write t.tx v size a s).0 ≡ false
        → tx_write lib t v size a s ≡ (
          thrown transaction_retry,
          record t { aborted = true },
          (lib.tm_write t.tx v size a s).1,
        )
    unfolding tx_write
    tx_write-stops v size a e = rw (e, tx_write)

    tx_write-goes :
        (v size a : ℕ)
        → (lib.tm_write t.tx v size a s).0 ≡ true
        → tx_write lib t v size a s ≡ (ok tt, t, (lib.tm_write t.tx v size a s).1)
    unfolding tx_write
    tx_write-goes v size a e = rw (e, tx_write)

    tx_alloc-stops :
        (size : ℕ)
        → (lib.tm_alloc t.tx size s).0 ≡ abort
        → tx_alloc lib t size s
          ≡ (thrown transaction_retry, record t { aborted = true }, (lib.tm_alloc t.tx size s).1)
    unfolding tx_alloc
    tx_alloc-stops size e = rw (e, tx_alloc)

    tx_alloc-short :
        (size : ℕ)
        → (lib.tm_alloc t.tx size s).0 ≡ nomem
        → tx_alloc lib t size s ≡ (thrown transaction_alloc, t, (lib.tm_alloc t.tx size s).1)
    unfolding tx_alloc
    tx_alloc-short size e = rw (e, tx_alloc)

    tx_alloc-goes :
        (size a : ℕ)
        → (lib.tm_alloc t.tx size s).0 ≡ success a
        → tx_alloc lib t size s ≡ (ok a, t, (lib.tm_alloc t.tx size s).1)
    unfolding tx_alloc
    tx_alloc-goes size a e = rw (e, tx_alloc)

    tx_free-stops :
        (a : ℕ)
        → (lib.tm_free t.tx a s).0 ≡ false
        → tx_free lib t a s
          ≡ (thrown transaction_retry, record t { aborted = true }, (lib.tm_free t.tx a s).1)
    unfolding tx_free
    tx_free-stops a e = rw (e, tx_free)

    tx_free-goes :
        (a : ℕ)
        → (lib.tm_free t.tx a s).0 ≡ true
        → tx_free lib t a s ≡ (ok tt, t, (lib.tm_free t.tx a s).1)
    unfolding tx_free
    tx_free-goes a e = rw (e, tx_free)

  pub execute-Ran :
      {A : Type 0} (func : Tx A) (t : Transaction) (s : S) (start m : Store)
      → t.aborted ≡ false
      → view s t.tx ≡ some (start, m)
      → Ran func start m (execute lib func t s)
  unfolding execute run
  execute-Ran (pure a) t s start m going sees = inr ([], m, refl, sees, going)
  execute-Ran (throw x) t s start m going sees = inr ([], m, refl, sees, going)
  execute-Ran running t s start m going sees = tt
  execute-Ran {A} (read a size k) t s start m going sees =
      let s' = (lib.tm_read t.tx a size s).1 in
      elim (atomic.reads t.tx a size s start m sees) [
        | inl stopped ↦
            let step : execute lib (read a size k) t s
                ≡ some (thrown transaction_retry, record t { aborted = true }, s') =
              ap (resume lib (λ v. execute lib (k v))) (tx_read-stops t s a size stopped) in
            subst (Ran (read a size k) start m) (sym step) (inl (refl, refl))
        | inr (found, still) ↦
            let step : execute lib (read a size k) t s ≡ execute lib (k (m a)) t s' =
              ap (resume lib (λ v. execute lib (k v))) (tx_read-goes t s a size (m a) found) in
            subst (Ran (read a size k) start m) (sym step)
              (Ran-read a size k start m _ (execute-Ran (k (m a)) t s' start m going still))
      ]
  execute-Ran {A} (write v size a u) t s start m going sees =
      let s' = (lib.tm_write t.tx v size a s).1 in
      elim (atomic.writes t.tx v size a s start m sees) [
        | inl stopped ↦
            let step : execute lib (write v size a u) t s
                ≡ some (thrown transaction_retry, record t { aborted = true }, s') =
              ap (resume lib (λ _. execute lib u)) (tx_write-stops t s v size a stopped) in
            subst (Ran (write v size a u) start m) (sym step) (inl (refl, refl))
        | inr (went, still) ↦
            let step : execute lib (write v size a u) t s ≡ execute lib u t s' =
              ap (resume lib (λ _. execute lib u)) (tx_write-goes t s v size a went) in
            subst (Ran (write v size a u) start m) (sym step)
              (Ran-write v size a u start m _ (execute-Ran u t s' start (update m a v) going still))
      ]
  execute-Ran {A} (alloc size k) t s start m going sees =
      let s' = (lib.tm_alloc t.tx size s).1 in
      elim (atomic.allocs t.tx size s start m sees) [
        | inl stopped ↦
            let step : execute lib (alloc size k) t s
                ≡ some (thrown transaction_retry, record t { aborted = true }, s') =
              ap (resume lib (λ a. execute lib (k a))) (tx_alloc-stops t s size stopped) in
            subst (Ran (alloc size k) start m) (sym step) (inl (refl, refl))
        | inr (inl (short, still)) ↦
            let step : execute lib (alloc size k) t s ≡ some (thrown transaction_alloc, t, s') =
              ap (resume lib (λ a. execute lib (k a))) (tx_alloc-short t s size short) in
            subst (Ran (alloc size k) start m) (sym step) (inr (none ∷ [], m, refl, still, going))
        | inr (inr (a, given, still)) ↦
            let step : execute lib (alloc size k) t s ≡ execute lib (k a) t s' =
              ap (resume lib (λ a. execute lib (k a))) (tx_alloc-goes t s size a given) in
            subst (Ran (alloc size k) start m) (sym step) (
              Ran-alloc size k a start m _
                (execute-Ran (k a) t s' start (cleared m a size) going still))
      ]
  execute-Ran {A} (free a u) t s start m going sees =
      let s' = (lib.tm_free t.tx a s).1 in
      elim (atomic.frees t.tx a s start m sees) [
        | inl stopped ↦
            let step : execute lib (free a u) t s
                ≡ some (thrown transaction_retry, record t { aborted = true }, s') =
              ap (resume lib (λ _. execute lib u)) (tx_free-stops t s a stopped) in
            subst (Ran (free a u) start m) (sym step) (inl (refl, refl))
        | inr (went, still) ↦
            let step : execute lib (free a u) t s ≡ execute lib u t s' =
              ap (resume lib (λ _. execute lib u)) (tx_free-goes t s a went) in
            subst (Ran (free a u) start m) (sym step)
              (Ran-free a u start m _ (execute-Ran u t s' start m going still))
      ]
  execute-Ran {A} (keep c u) t s start m going sees =
      Ran-keep c u start m _ (execute-Ran u t s start m going sees)
