-- ===== src/Grading.antt =====
-- The grading program: transactions over a library (grading/transactional.hpp), the bank
-- (grading/workload.hpp), the barrier and the clock (grading/common.hpp), and the driver
-- (grading/grading.cpp); template/tm.c as such a library.
pub mod Transaction
pub mod Shared
pub mod Store
pub mod Retry
pub mod Template
pub mod Bank
pub mod Barrier
pub mod Check
pub mod Chrono
pub mod Driver
pub mod Main
pub mod Tests
