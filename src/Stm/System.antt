-- ===== src/Stm/System.antt =====
-- Threads that call the library, one call at a time, in any order. Each live transaction is kept
-- with the world in which it began, which the program does not store.
use software_transactional_m.Prelude.{
  ℕ, ◌+◌, ◌≤◌, ◌<◌, ◌%◌, ◌^◌, ◌≡◌, refl, sym, ap, ◌∙◌, Bool, true, false, Option, none, some, List,
  [], arith, update, is_some, All, ◌==◌, inl, inr, Option-cases, Bool-cases, subst, ◌⊎◌, not,
  if◌then◌else◌,
}
use mathlib.Core.Option
use software_transactional_m.Stm.Types.{World, Transaction, BloomFilter}
use software_transactional_m.Stm.Bloom.{initialise_bloom_filter}
use software_transactional_m.Stm.Bloom.Laws.{IsBytes, initialise-IsBytes}
use software_transactional_m.Stm.Locks.Publish.{Allocated, address_of, IsRead, IsWrite}
use software_transactional_m.Stm.Alloc.{Mallocs, AllocReply, tm_alloc}
use software_transactional_m.Stm.Alloc.Fresh.{IsFresh, tm_alloc-keeps}
use software_transactional_m.Stm.Begin.{tm_begin}
use software_transactional_m.Stm.Read.{ReadReply, tm_read}
use software_transactional_m.Stm.Write.{WriteReply, tm_write}
use software_transactional_m.Stm.Write.Keeps.{FilterBytes, WroteTo, tm_write-WroteTo}
use software_transactional_m.Stm.Commit.{tm_end}
use software_transactional_m.Stm.Commit.Cases.{IsReady}
use software_transactional_m.Stm.Snapshot.{
  IsQuiet, HasRoom, Since, Since-refl, tm_end-keeps, IsReady-Since,
}
use software_transactional_m.Stm.Opacity.{IsRequest}
pub mod Invariant

-- A live transaction, and the world in which it began.
pub record Live : Type 0 where
  pub tx : Transaction
  pub began : World

pub record System : Type 0 where
  pub world : World
  pub live : ℕ → Option Live

-- What a call leaves of thread `i`'s transaction.
abbrev pub continue_with : System → ℕ → World → Option Transaction → System
continue_with s i began tx = record s {
  live = update s.live i (Option.map (λ t. record { tx = t; began = began }) tx);
}

-- One call of thread `i`, as far as it returns and keeps to the contract of `tm.h`: requests for
-- words of one segment, an end per transaction, and no use of a transaction that is gone.
pub data Step (s : System) : System → Type 0 where
  begins :
      (i : ℕ) (filter_fits bits_fit is_ro : Bool) {t : Transaction}
      → s.live i ≡ none
      → tm_begin true filter_fits bits_fit is_ro s.world.region ≡ some t
      → Step s (continue_with s i s.world (some t))
  reads :
      (i : ℕ) (fits : ℕ → Bool) (source size : ℕ) {l : Live} {r : ReadReply}
      → s.live i ≡ some l
      → IsRequest s.world.region source size
      → tm_read fits s.world l.tx source size ≡ some r
      → Step s (continue_with s i l.began r.tx)
  writes :
      (i : ℕ) (node_fits buffer_fits : ℕ → Bool) (source : List ℕ) (size target : ℕ) {l : Live}
      {r : WriteReply}
      → s.live i ≡ some l
      → IsRequest s.world.region target size
      → tm_write node_fits buffer_fits s.world l.tx source size target ≡ some r
      → Step s (continue_with s i l.began r.tx)
  allocates :
      (i : ℕ) (a : Mallocs) (realloc_fits : Bool) (size : ℕ) {l : Live} {r : AllocReply}
      → s.live i ≡ some l
      → IsFresh a size s.world
      → tm_alloc a realloc_fits size s.world ≡ some r
      → Step s (record s { world = r.world })
  ends :
      (i : ℕ) {l : Live} {r : Bool × World}
      → s.live i ≡ some l
      → HasRoom s.world
      → tm_end s.world l.tx ≡ some r
      → Step s (record { world = r.1; live = update s.live i none })

pub data Reach (s : System) : System → Type 0 where
  here : Reach s s
  next : {t u : System} → Reach s t → Step t u → Reach s u

-- What holds of a live transaction.
pub record IsLive (w : World) (l : Live) : Type 0 where
  pub ready : IsReady w l.tx
  pub since : Since l.began w
  pub sampled : l.tx.rv ≡ l.began.region.global_clock
  pub bytes : FilterBytes l.tx

pub record Inv (s : System) : Type 0 where
  pub quiet : IsQuiet s.world
  pub small : s.world.region.global_clock < 2 ^ 32
  pub lives : (i : ℕ) (l : Live) → s.live i ≡ some l → IsLive s.world l
