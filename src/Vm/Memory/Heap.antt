-- ===== src/Vm/Memory/Heap.antt =====
-- `VirtualMemory::allocate` of src/vm/memory.cpp: which blocks it gives out.
use text.Mathlib.Text.{◌==◌ as str_eq}
use mini_tool_chain.Base.{ℕ, ◌+◌, ◌^◌, ◌≤◌, ◌<◌, ◌≡◌, arith, true, some, ok}
use mini_tool_chain.Word.{add64}
use mini_tool_chain.Vm.Memory.{Region, VirtualMemory, region_at, rounded_up, allocate, bump}

-- The heap region as the loader leaves it: found at the next block, below 2^64.
pub record HeapAt (memory : VirtualMemory) (i : ℕ) (heap : Region) : Type 0 where
  pub found : region_at memory.regions memory.heap_next ≡ some (i, heap)
  pub named : str_eq heap.name "heap" ≡ true
  pub below : heap.base + heap.size < 2 ^ 64

module _ (memory : VirtualMemory) (i : ℕ) (heap : Region) (at : HeapAt memory i heap)
    (size : ℕ) where
  bump-within :
      rounded_up size ≤ heap.base + heap.size
      → (block : ℕ) (after : VirtualMemory) → bump memory size (some (i, heap)) ≡ ok (block, after)
      → (block ≡ memory.heap_next)
        × (size ≤ rounded_up size)
        × (block + rounded_up size ≤ heap.base + heap.size)
        × (after.heap_next ≡ block + rounded_up size)
  unfolding bump
  bump-within small block after h = ground (arith, at.below)

  -- With the heap at the next block, a request whose rounded size is at most the heap's end address
  -- gets, if any, the next block: it holds the request, ends inside the heap, and the next one
  -- follows.
  pub allocate-within :
      rounded_up size ≤ heap.base + heap.size
      → (block : ℕ) (after : VirtualMemory) → allocate memory size ≡ ok (block, after)
      → (block ≡ memory.heap_next)
        × (size ≤ rounded_up size)
        × (block + rounded_up size ≤ heap.base + heap.size)
        × (after.heap_next ≡ block + rounded_up size)
  unfolding allocate
  allocate-within small block after h = bump-within small block after (rw (at.found, allocate) at h)

  bump-beyond :
      heap.base + heap.size < rounded_up size
      → size ≤ rounded_up size
      → memory.heap_next + rounded_up size ≤ 2 ^ 64 + heap.base + heap.size
      → bump memory size (some (i, heap))
        ≡ ok (
          memory.heap_next,
          record memory { heap_next = add64 memory.heap_next (rounded_up size) },
        )
  unfolding bump
  bump-beyond large rounds reach = ground (arith, at.below, at.named, large, rounds, reach)

  -- With the heap at the next block, a request whose rounded size exceeds the heap's end address is
  -- granted although no such block is in the heap, as long as the rounding and the wrapped-around
  -- subtraction leave the next block below the limit: the subtraction is not guarded.
  pub allocate-beyond :
      heap.base + heap.size < rounded_up size
      → size ≤ rounded_up size
      → memory.heap_next + rounded_up size ≤ 2 ^ 64 + heap.base + heap.size
      → allocate memory size
        ≡ ok (
          memory.heap_next,
          record memory { heap_next = add64 memory.heap_next (rounded_up size) },
        )
  unfolding allocate
  allocate-beyond large rounds reach = rw (at.found, allocate) (bump-beyond large rounds reach)
