-- ===== src/Stm/Begin.antt =====
-- `tm_begin` and `cleanTransaction` of 353055.
use software_transactional_m.Prelude.{
  ◌%◌, ◌^◌, Bool, not, Option, none, some, [], if◌then◌else◌, assert, is_some,
}
use software_transactional_m.Stm.Types.{MemoryRegion, Transaction}
use software_transactional_m.Stm.Bloom.{initialise_bloom_filter}

-- `none` is `invalid_tx`. The three flags say whether the transaction, the filter and its bits can
-- be allocated. A filter that cannot is NULL, and the transaction begins nevertheless.
unfoldable pub tm_begin :
    (transaction_fits filter_fits bits_fit : Bool) → Bool → MemoryRegion → Option Transaction
unfolding initialise_bloom_filter
tm_begin transaction_fits filter_fits bits_fit is_ro region =
    if not transaction_fits
    then none
    else some (record {
      is_ro = is_ro;
      rv = region.global_clock % 2 ^ 32;
      num_reads = 0;
      num_writes = 0;
      read_addresses = [];
      write_addresses = [];
      filter = initialise_bloom_filter filter_fits bits_fit 200 4;
    })

-- The transaction is gone afterwards. `freeBloomFilter` asserts that there is a filter.
unfoldable pub clean_transaction : Transaction → Option (Unit {0})
clean_transaction t = assert (is_some t.filter)
