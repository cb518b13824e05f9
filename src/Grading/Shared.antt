-- ===== src/Grading/Shared.antt =====
-- The templates `Shared` of grading/transactional.hpp: typed access to shared addresses, for the types
-- of 8 bytes that the bank uses.
use software_transactional_m.Prelude.{
  ℕ, ◌+◌, ◌*◌, ◌%◌, true, false, not, ltb, ◌==◌, if◌then◌else◌, ◌&&◌,
}
use software_transactional_m.Grading.Transaction.{
  Tx, pure, read, write, alloc, free, ◌>>=◌, ◌>>◌, throw_if, assert_mode, shared_align,
  shared_double_alloc, shared_double_free,
}

-- `sizeof(Type)`: `size_t`, pointers and balances.
abbrev pub word : ℕ
word = 8

-- The test of the constructors, for a region of alignment `align`.
unfoldable pub bind : (align address : ℕ) → Tx ℕ
bind align address = do
  throw_if (assert_mode && not (address % align == 0)) shared_align
  throw_if (assert_mode && not (address % word == 0)) shared_align
  pure address

-- `Shared<Type>::read` and `write`; those of `Shared<Type*>` are the same for a pointer.
abbrev pub get : ℕ → Tx ℕ
get address = read address word pure

abbrev pub set : ℕ → ℕ → Tx (Unit {0})
set address source = write source word address (pure tt)

abbrev pub after : ℕ → ℕ
after address = address + word

-- `Shared<Type*>::alloc`; a size of 0 stands for that of the type pointed to.
unfoldable pub alloc_at : (sizeof_type address size : ℕ) → Tx ℕ
alloc_at sizeof_type address size = do
  elim assert_mode [
    | true ↦ do found ← get address; throw_if (not (found == 0)) shared_double_alloc
    | false ↦ pure tt
  ]
  addr ← alloc (if ltb 0 size then size else sizeof_type) pure
  set address addr
  pure addr

-- `Shared<Type*>::free`
unfoldable pub free_at : ℕ → Tx (Unit {0})
free_at address = do
  elim assert_mode [
    | true ↦ do found ← get address; throw_if (found == 0) shared_double_free
    | false ↦ pure tt
  ]
  addr ← get address
  free addr (pure tt)
  set address 0

-- `Shared<Type[]>::operator[]`
abbrev pub cell : ℕ → ℕ → ℕ
cell address index = address + word * index
