-- ===== src/Blocks/Usage.antt =====
-- `initBlockAllocator`, `queryCurrentBlockUsage` and the numbers that `logCurrentBlockUsage` prints,
-- of runtime/gc/block-allocator.c.
use mpl.Base.{ℕ, ◌+◌, ◌-◌, ◌*◌, ◌%◌, ◌^◌, ◌≡◌, List, [], ◌∷◌, ltb, if◌then◌else◌, arith}
use mpl.Blocks.{Controls, BlockAllocator, Memory, num_fullness_groups, set_allocator}

-- The entries of an array below `n` are set to 0.
abbrev pub cleared : ℕ → (ℕ → ℕ) → ℕ → ℕ
cleared n f i = if ltb i n then 0 else f i

-- `initBlockAllocator`, apart from the lock; `purposes` is NUM_BLOCK_PURPOSES.
pub init_block_allocator : Controls → (purposes : ℕ) → Memory → ℕ → Memory
init_block_allocator c purposes m ball =
    let b = m.allocators ball in
    set_allocator m ball record {
      num_blocks_mapped = 0;
      num_blocks_released = 0;
      num_blocks_allocated = cleared purposes b.num_blocks_allocated;
      num_blocks_freed = cleared purposes b.num_blocks_freed;
      size_class_fullness_group =
          cleared (c.superblock_threshold * num_fullness_groups) b.size_class_fullness_group;
      completely_empty_group = 0;
      first_freed_by_other = 0;
      mega_block_size_class =
          cleared (c.megablock_threshold - c.superblock_threshold) b.mega_block_size_class;
    }

-- What `queryCurrentBlockUsage` writes.
pub record Usage : Type 0 where
  pub mapped : ℕ
  pub global_mapped : ℕ
  pub released : ℕ
  pub global_released : ℕ
  pub allocated : ℕ → ℕ
  pub freed : ℕ → ℕ

abbrev no_usage : Usage
no_usage = record {
  mapped = 0;
  global_mapped = 0;
  released = 0;
  global_released = 0;
  allocated = λ p. 0;
  freed = λ p. 0;
}

abbrev pub add_allocator : BlockAllocator → Usage → Usage
add_allocator b u = record u {
  mapped = (u.mapped + b.num_blocks_mapped) % 2 ^ 64;
  released = (u.released + b.num_blocks_released) % 2 ^ 64;
  allocated = λ p. (u.allocated p + b.num_blocks_allocated p) % 2 ^ 64;
  freed = λ p. (u.freed p + b.num_blocks_freed p) % 2 ^ 64;
}

-- The loop over the processors, whose allocators are given.
add_locals : Memory → List ℕ → Usage → Usage
add_locals m [] u = u
add_locals m (ball ∷ balls) u = add_locals m balls (add_allocator (m.allocators ball) u)

pub query_current_block_usage : Memory → (locals : List ℕ) (global : ℕ) → Usage
query_current_block_usage m locals global =
    let g = m.allocators global in
    record (add_allocator g (add_locals m locals no_usage)) {
      global_mapped = g.num_blocks_mapped;
      global_released = g.num_blocks_released;
    }

-- `inUse[p]`, `count` and `globalCount` of `logCurrentBlockUsage`.
abbrev pub in_use : Usage → ℕ → ℕ
in_use u p = if ltb (u.allocated p) (u.freed p) then 0 else u.allocated p - u.freed p

abbrev pub block_count : Usage → ℕ
block_count u = if ltb u.mapped u.released then 0 else u.mapped - u.released

abbrev pub global_count : Usage → ℕ
global_count u =
    if ltb u.global_mapped u.global_released then 0 else u.global_mapped - u.global_released

-- The sum of a number over all of the allocators.
abbrev pub sum_over : Memory → (BlockAllocator → ℕ) → List ℕ → ℕ
sum_over m f [] = 0
sum_over m f (ball ∷ balls) = f (m.allocators ball) + sum_over m f balls

add_locals-mapped :
    (m : Memory) (balls : List ℕ) (u : Usage)
    → (add_locals m balls u).mapped % 2 ^ 64
      ≡ (u.mapped + sum_over m (λ b. b.num_blocks_mapped) balls) % 2 ^ 64
unfolding add_locals
add_locals-mapped m [] u = omega arith
add_locals-mapped m (ball ∷ balls) u =
    omega (arith, add_locals-mapped m balls (add_allocator (m.allocators ball) u))

add_locals-allocated :
    (m : Memory) (balls : List ℕ) (u : Usage) (p : ℕ)
    → (add_locals m balls u).allocated p % 2 ^ 64
      ≡ (u.allocated p + sum_over m (λ b. b.num_blocks_allocated p) balls) % 2 ^ 64
unfolding add_locals
add_locals-allocated m [] u p = omega arith
add_locals-allocated m (ball ∷ balls) u p =
    omega (arith, add_locals-allocated m balls (add_allocator (m.allocators ball) u) p)

-- The blocks reported as mapped, and as allocated for each purpose, are the sums over the local
-- allocators and the global one, as 64-bit words.
pub query_current_block_usage_lem :
    (m : Memory) (locals : List ℕ) (global p : ℕ)
    → ((query_current_block_usage m locals global).mapped
        ≡ sum_over m (λ b. b.num_blocks_mapped) (global ∷ locals) % 2 ^ 64)
      × ((query_current_block_usage m locals global).allocated p
          ≡ sum_over m (λ b. b.num_blocks_allocated p) (global ∷ locals) % 2 ^ 64)
unfolding query_current_block_usage
query_current_block_usage_lem m locals global p = (
  omega (arith, add_locals-mapped m locals no_usage),
  omega (arith, add_locals-allocated m locals no_usage p),
)
