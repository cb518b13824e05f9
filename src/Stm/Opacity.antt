-- ===== src/Stm/Opacity.antt =====
-- What a transaction reads is what the memory held when the transaction began.
pub mod ReadOnly
pub mod OwnWrites
pub mod ReadWrite
use software_transactional_m.Prelude.{
  ℕ, zero, suc, ◌+◌, ◌*◌, ◌/◌, ◌%◌, ◌^◌, ◌≤◌, ◌<◌, ◌≡◌, refl, sym, ap, ◌∙◌, Bool, true, false, not,
  ◌&&◌, ◌||◌, Option, none, some, arith, ltb, ◌==◌, if◌then◌else◌, ◌>>=◌, subst,
}
use software_transactional_m.Stm.Memory.{Memory, bytes, load}
use software_transactional_m.Stm.Types.{
  SegmentNode, MemoryRegion, World, Transaction, locks, versions, lock_at, version_at, segment_at,
}
use software_transactional_m.Stm.Locks.{seg_from_word_address}
use software_transactional_m.Stm.Locks.Publish.{Allocated, address_of, IsLaidOut, word-mapped}
use software_transactional_m.Stm.Snapshot.{IsQuiet, Since, Since-Allocated, Since-address}

-- A call names words of one segment: `count` of them from `word` on.
pub record IsRequest (r : MemoryRegion) (source size : ℕ) : Type 0 where
  pub segment : ℕ
  pub word : ℕ
  pub count : ℕ
  pub names : source ≡ segment * 2 ^ 48 + word * r.align
  pub low : word * r.align < 2 ^ 48
  pub sized : size ≡ count * r.align
  pub allocated : Allocated r segment
  pub listed : r.listed ≡ true
  pub within : word + count ≤ (r.segments_list segment).num_words

pub mul-div : (x a : ℕ) → 0 < a → x * a / a ≡ x
mul-div x a h = grind arith

module _ {r : MemoryRegion} {source size : ℕ} (q : IsRequest r source size)
    (pos : 0 < r.align) where
  pub request-segment : seg_from_word_address source ≡ q.segment
  unfolding seg_from_word_address
  request-segment = omega (arith, q.names, q.low)

  pub request-offset : source % 2 ^ 48 ≡ q.word * r.align
  request-offset = omega (arith, q.names, q.low)

  pub request-word : source % 2 ^ 48 / r.align ≡ q.word
  request-word = rw request-offset (mul-div q.word r.align pos)

  pub request-count : size / r.align ≡ q.count
  request-count = rw q.sized (mul-div q.count r.align pos)

  pub request-found : segment_at r (seg_from_word_address source) ≡ some (r.segments_list q.segment)
  unfolding segment_at
  request-found = rw request-segment (ground (arith, q.listed, q.allocated))

-- An access inside a segment does not fault.
pub version_at-some :
    (r : MemoryRegion) (k x : ℕ)
    → x < (r.segments_list k).num_words
    → version_at r k x ≡ some (versions r k x)
unfolding version_at
version_at-some r k x h = ground arith

pub lock_at-some :
    (r : MemoryRegion) (k x : ℕ)
    → x < (r.segments_list k).num_words
    → lock_at r k x ≡ some (locks r k x)
unfolding lock_at
lock_at-some r k x h = ground arith

pub load-some :
    (w : World)
    → IsLaidOut w.memory.limit w.region
    → (k x : ℕ) → Allocated w.region k
    → x < (w.region.segments_list k).num_words
    → load w.memory (address_of w.region k x) w.region.align
      ≡ some (bytes w.memory (address_of w.region k x) w.region.align)
unfolding load
load-some w o k x a h = ground (arith, word-mapped o k x a h)

-- No word of the range is newer than `rv`.
pub all_old : MemoryRegion → (k n cur rv : ℕ) → Bool
all_old r k zero cur rv = true
all_old r k (suc n) cur rv = not (ltb rv (versions r k cur)) && all_old r k n (cur + 1) rv

-- The bytes of an old word are those of the earlier world.
pub old-bytes :
    {w₀ w : World}
    → Since w₀ w
    → (k x : ℕ) → Allocated w₀.region k
    → x < (w₀.region.segments_list k).num_words
    → versions w.region k x ≤ w₀.region.global_clock
    → bytes w.memory (address_of w.region k x) w.region.align
      ≡ bytes w₀.memory (address_of w₀.region k x) w₀.region.align
old-bytes {w₀} {w} s k x a h v = rw (Since-address s k x a, s.same_align) (s.unchanged k x a h v)
