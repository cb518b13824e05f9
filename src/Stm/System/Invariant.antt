-- ===== src/Stm/System/Invariant.antt =====
-- The invariant of the calls, and what it gives the threads.
use software_transactional_m.Prelude.{
  ℕ, ◌<◌, ◌^◌, ◌≡◌, sym, ◌∙◌, Bool, true, Option, none, some, [], arith, update, All, ◌==◌, inl,
  inr, Option-cases, Bool-cases, subst,
}
use mathlib.Core.Option
use software_transactional_m.Stm.Types.{World, Transaction, BloomFilter}
use software_transactional_m.Stm.Bloom.{initialise_bloom_filter}
use software_transactional_m.Stm.Bloom.Laws.{IsBytes}
use software_transactional_m.Stm.Locks.Publish.{IsRead, IsWrite}
use software_transactional_m.Stm.Alloc.Fresh.{tm_alloc-keeps}
use software_transactional_m.Stm.Begin.{tm_begin}
use software_transactional_m.Stm.Read.Keeps.{ReadFrom, tm_read-ReadFrom}
use software_transactional_m.Stm.Write.Keeps.{WroteTo, tm_write-WroteTo}
use software_transactional_m.Stm.Snapshot.{
  IsQuiet, Since, Since-refl, tm_end-keeps, tm_end-clock, IsReady-Since,
}
use software_transactional_m.Stm.System.{
  Live, System, Step, begins, reads, writes, allocates, ends, Reach, here, next, IsLive, Inv,
}

-- The filter of a new transaction has clean cells, if there is one.
new_filter-IsBytes :
    (filter_fits bits_fit : Bool) (f : BloomFilter)
    → initialise_bloom_filter filter_fits bits_fit 200 4 ≡ some f
    → IsBytes f
unfolding initialise_bloom_filter
new_filter-IsBytes filter_fits bits_fit f e i = ground arith

begin-IsLive :
    (filter_fits bits_fit is_ro : Bool) (w : World) (t : Transaction)
    → IsQuiet w
    → w.region.global_clock < 2 ^ 32
    → tm_begin true filter_fits bits_fit is_ro w.region ≡ some t
    → IsLive w (record { tx = t; began = w })
unfolding tm_begin
begin-IsLive filter_fits bits_fit is_ro w t q small e = record {
  ready = record {
    laid_out = q.laid_out;
    writes = subst (All (IsWrite w.region)) (sym no_writes) tt;
    reads = subst (All (IsRead w.region)) (sym no_reads) tt;
  };
  since = Since-refl w;
  sampled = ground arith;
  bytes = λ f h. new_filter-IsBytes filter_fits bits_fit f (fresh ∙ h);
}
  where
    no_writes : t.write_addresses ≡ []
    no_writes = ground arith

    no_reads : t.read_addresses ≡ []
    no_reads = ground arith

    fresh : initialise_bloom_filter filter_fits bits_fit 200 4 ≡ t.filter
    fresh = ground arith

-- The others are not concerned by what one thread's transaction does.
continue-lives :
    (live : ℕ → Option Live) (i : ℕ) (now : Option Live) (w : World)
    → ((l : Live) → now ≡ some l → IsLive w l)
    → ((j : ℕ) (l : Live) → live j ≡ some l → IsLive w l)
    → (j : ℕ) (l : Live) → update live i now j ≡ some l
    → IsLive w l
continue-lives live i now w mine others j l e = elim (Bool-cases (j == i)) [
  | inl it ↦ mine l (ground arith)
  | inr another ↦ others j l (ground arith)
]

moved-IsLive :
    (w u : World) (l : Live)
    → IsQuiet u
    → ((w₀ : World) → Since w₀ w → Since w₀ u)
    → IsLive w l
    → IsLive u l
moved-IsLive w u l q later h = record {
  ready = IsReady-Since (later w (Since-refl w)) l.tx q h.ready;
  since = later l.began h.since;
  sampled = h.sampled;
  bytes = h.bytes;
}

-- The transaction that a call leaves, if any, with the world in which it began.
mapped :
    (began : World) (tx : Option Transaction) (P : Live → Type 0)
    → ((t : Transaction) → tx ≡ some t → P (record { tx = t; began = began }))
    → (l : Live) → Option.map (λ t. record { tx = t; began = began }) tx ≡ some l
    → P l
mapped began tx P h l e = elim (Option-cases tx) [
  | inl gone ↦ absurd (ground arith)
  | inr (t, got) ↦ subst P (ground arith) (h t got)
]

read-IsLive :
    (w : World) (l : Live) (t : Transaction)
    → IsLive w l
    → ReadFrom w.region l.tx t
    → IsLive w (record { tx = t; began = l.began })
read-IsLive w l t h r =
    subst (λ t. IsLive w (record { tx = t; began = l.began })) (sym r.rest)
      (record {
        ready = record {
          laid_out = h.ready.laid_out;
          writes = h.ready.writes;
          reads = r.all_reads;
        };
        since = h.since;
        sampled = h.sampled;
        bytes = h.bytes;
      })

wrote-IsLive :
    (w : World) (l : Live) (t : Transaction)
    → IsLive w l
    → WroteTo w.region l.tx t
    → IsLive w (record { tx = t; began = l.began })
wrote-IsLive w l t h r =
    subst (λ t. IsLive w (record { tx = t; began = l.began })) (sym r.rest)
      (record {
        ready = record {
          laid_out = h.ready.laid_out;
          writes = r.all_writes;
          reads = h.ready.reads;
        };
        since = h.since;
        sampled = h.sampled;
        bytes = r.filter_bytes;
      })

-- Every call keeps the invariant: a quiet world, a clock below 2 ^ 32, and live transactions whose
-- read and write sets name words of the region and which may still find the world they began in.
pub Step-Inv : {s u : System} → Step s u → Inv s → Inv u
Step-Inv {s} (begins i filter_fits bits_fit is_ro {t} free e) h = record {
  quiet = h.quiet;
  small = h.small;
  lives =
      continue-lives s.live i _ s.world
        (mapped s.world (some t) (IsLive s.world)
          λ t' e'. begin-IsLive filter_fits bits_fit is_ro s.world t' h.quiet h.small (e ∙ e'))
        h.lives;
}
Step-Inv {s} (reads i fits source size {l} {r} has q e) h =
    let mine = h.lives i l has in
    record {
      quiet = h.quiet;
      small = h.small;
      lives =
          continue-lives s.live i _ s.world
            (mapped l.began r.tx (IsLive s.world) λ t got. read-IsLive s.world l t mine (
              tm_read-ReadFrom fits s.world l.tx source size h.quiet.laid_out q mine.ready.reads e
                got))
            h.lives;
    }
Step-Inv {s} (writes i node_fits buffer_fits source size target {l} {r} has q e) h =
    let mine = h.lives i l has in
    record {
      quiet = h.quiet;
      small = h.small;
      lives =
          continue-lives s.live i _ s.world
            (mapped l.began r.tx (IsLive s.world) λ t got. wrote-IsLive s.world l t mine (
              tm_write-WroteTo node_fits buffer_fits s.world l.tx source size target
                h.quiet.laid_out q mine.ready.writes mine.bytes e got))
            h.lives;
    }
Step-Inv {s} (allocates i a realloc_fits size {l} {r} has fresh e) h =
    let (quiet, later, same_clock) = tm_alloc-keeps a realloc_fits size s.world h.quiet fresh e in
    record {
      quiet = quiet;
      small = rw same_clock h.small;
      lives = λ j m e'. moved-IsLive s.world r.world m quiet later (h.lives j m e');
    }
Step-Inv {s} (ends i {l} {r} has room e) h =
    let mine = h.lives i l has in
    let (quiet, later) = tm_end-keeps s.world l.tx h.quiet room mine.ready e in
    record {
      quiet = quiet;
      small = tm_end-clock s.world l.tx room mine.ready e;
      lives =
          continue-lives s.live i none r.1 (λ m e'. absurd cc)
            λ j m e'. moved-IsLive s.world r.1 m quiet later (h.lives j m e');
    }

-- The invariant holds of every system that calls can reach from one in which it holds.
Reach-Inv : {s u : System} → Reach s u → Inv s → Inv u
Reach-Inv here h = h
Reach-Inv (next r st) h = Step-Inv st (Reach-Inv r h)
