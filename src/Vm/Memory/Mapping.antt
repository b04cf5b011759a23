-- ===== src/Vm/Memory/Mapping.antt =====
-- When `VirtualMemory::addRegion` of src/vm/memory.cpp maps a region.
use mini_tool_chain.Base.{
  ℕ, zero, suc, ◌+◌, ◌-◌, ◌++◌, ◌∙◌, ap, length, replicate, ◌^◌, ◌≤◌, ◌<◌, ◌⊎◌, ◌≡◌, refl, arith,
  true, false, List, [], ◌∷◌, String, All,
}
use mini_tool_chain.Vm.Memory.{
  VirtualMemory, Region, Permission, overlaps, add_region, overwrite, new_region,
}

-- A region that does not wrap around and shares no address with the range.
abbrev pub Clear : ℕ → ℕ → Region → Type 0
Clear base size r = (r.base + r.size < 2 ^ 64) × ((base + size ≤ r.base) ⊎ (r.base + r.size ≤ base))

overlaps-Clear :
    (base size : ℕ) (regions : List Region)
    → base + size < 2 ^ 64
    → All (Clear base size) regions
    → overlaps base size regions ≡ false
unfolding overlaps
overlaps-Clear base size [] room clear = refl
overlaps-Clear base size (r ∷ rest) room clear =
    ground (arith, overlaps-Clear base size rest room clear.1)

-- A range that is not empty, does not wrap around and shares no address with a region is mapped.
pub add_region-Clear :
    (memory : VirtualMemory) (name : String) (base size : ℕ) (permissions : Permission)
    (initial : List ℕ)
    → 0 < size
    → base + size < 2 ^ 64
    → All (Clear base size) memory.regions
    → (add_region memory name base size permissions initial).0 ≡ true
unfolding add_region
add_region-Clear memory name base size permissions initial some room clear =
    ground (arith, overlaps-Clear base size memory.regions room clear)

overwrite-replicate :
    (size : ℕ) (initial : List ℕ)
    → length initial ≤ size
    → overwrite (replicate size 0) initial ≡ initial ++ replicate (size - length initial) 0
unfolding overwrite
overwrite-replicate zero [] h = refl
overwrite-replicate zero (x ∷ initial) h = absurd (omega arith)
overwrite-replicate (suc size) [] h =
    let same : suc size ≡ suc size - 0 = omega arith in ap (λ n. replicate {A = ℕ} n 0) same
overwrite-replicate (suc size) (x ∷ initial) h =
    ap (λ bytes. x ∷ bytes) (overwrite-replicate size initial (omega arith))
    ∙ ap (λ n. x ∷ initial ++ replicate n 0) (omega arith)

-- A new region has the given bytes, where they fit, and zeros behind them.
pub new_region-replicate :
    (name : String) (base size : ℕ) (permissions : Permission) (initial : List ℕ)
    → length initial ≤ size
    → new_region name base size permissions initial ≡ record {
      name = name;
      base = base;
      size = size;
      permissions = permissions;
      contents = initial ++ replicate (size - length initial) 0;
    }
unfolding new_region
new_region-replicate name base size permissions initial h =
    ap
      (λ bytes. record {
        name = name;
        base = base;
        size = size;
        permissions = permissions;
        contents = bytes;
      })
      (overwrite-replicate size initial h)
