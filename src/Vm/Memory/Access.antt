-- ===== src/Vm/Memory/Access.antt =====
-- Reads see what was written, and nothing else of the memory changes.
use mathlib.Core.Option
use mini_tool_chain.Base.{
  ℕ, ◌+◌, ◌-◌, ◌%◌, ◌^◌, ◌≤◌, ◌<◌, ◌≡◌, refl, sym, ap, ◌∙◌, ◌⊎◌, inl, inr, true, Option, none, some,
  List, arith, ◌==◌, ==_iff, some-injective, Bool-cases, ok, ◌>>=◌, >>=-eq-ok, ok-injective, get_or,
  length, All, All-get_elem?,
}
use mini_tool_chain.ByteOrder.{store}
use mini_tool_chain.ByteOrder.Words.{IsBytes, load-store, store_outside}
use mini_tool_chain.Vm.Memory.{
  Region, VirtualMemory, Permission, permission_read, permission_write, MemoryResult,
  has_permission, region_at, check_region, check_access, put_contents, read_byte, read_u64,
  write_u64,
}
use mini_tool_chain.Vm.Memory.Lookup.{
  some_pair, Indexed, region_at-found, region_at-set, replaced, replaced_self, replaced_here,
  replaced_elsewhere, base_le, Granted, check_access-Granted, Granted-check_access,
}

-- A region holds as many bytes as it says.
pub record IsSound (r : Region) : Type 0 where
  pub sized : length r.contents ≡ r.size
  pub bytes : IsBytes r.contents

abbrev pub IsSoundMemory : VirtualMemory → Type 0
IsSoundMemory memory = All IsSound memory.regions

module _ (memory : VirtualMemory) (address size : ℕ) (needed : Permission) (i : ℕ)
    (region : Region) where
  -- Where every region has as many bytes as its size says, a granted access of at least one byte
  -- lies inside the bytes of the region it was granted for, a region of the memory with that
  -- permission.
  pub check_access_in_bounds :
      IsSoundMemory memory
      → check_access memory address size needed ≡ ok (i, region)
      → 0 < size
      → Indexed memory.regions i region
        × (region.base ≤ address)
        × (address - region.base + size ≤ length region.contents)
        × (has_permission region.permissions needed ≡ true)
  check_access_in_bounds sound h pos =
      let g : Granted memory address size needed i region =
        check_access-Granted memory address size needed i region h in
      let (within, at) = region_at-found memory.regions address i region g.found in
      let here : IsSound region = All-get_elem? IsSound memory.regions i region sound at in
      (at, ground (arith, within), ground (arith, within, here.sized, g.fits), g.permitted)

-- A successful 64-bit write, taken apart.
record Wrote (memory : VirtualMemory) (address value : ℕ) (after : VirtualMemory) : Type 0 where
  i : ℕ
  region : Region
  granted : Granted memory address 8 permission_write i region
  at : Indexed memory.regions i region
  base_le : region.base ≤ address
  fits : address - region.base + 8 ≤ length region.contents
  bytes : IsBytes region.contents
  after_eq :
      after ≡ put_contents memory i region (store 8 region.contents (address - region.base) value)

write_u64-Wrote :
    (memory : VirtualMemory) (address value : ℕ) (after : VirtualMemory)
    → IsSoundMemory memory
    → write_u64 memory address value ≡ ok after
    → Wrote memory address value after
unfolding write_u64
write_u64-Wrote memory address value after sound h =
    let ((i, region), access, finished) =
      >>=-eq-ok (check_access memory address 8 permission_write) _ after h in
    let (at, base, fits, _) =
      check_access_in_bounds memory address 8 permission_write i region sound access
        (omega arith) in
    record {
      i = i;
      region = region;
      granted = check_access-Granted memory address 8 permission_write i region access;
      at = at;
      base_le = base;
      fits = fits;
      bytes = (All-get_elem? IsSound memory.regions i region sound at).bytes;
      after_eq = sym (ok-injective _ _ finished);
    }

module _ (memory : VirtualMemory) (address value : ℕ) (after : VirtualMemory)
    (sound : IsSoundMemory memory) (written : write_u64 memory address value ≡ ok after) where
  -- In a memory whose regions hold as many bytes as their sizes say, what a successful 64-bit write
  -- put at an address that was readable before is read back from there, narrowed to 64 bits.
  pub read_u64-write_u64 :
      (old : ℕ) → read_u64 memory address ≡ ok old → read_u64 after address ≡ ok (value % 2 ^ 64)
  unfolding read_u64
  read_u64-write_u64 old readable =
      let w : Wrote memory address value after =
        write_u64-Wrote memory address value after sound written in
      let ((j, q), access, _) =
        >>=-eq-ok (check_access memory address 8 permission_read) _ old readable in
      let g : Granted memory address 8 permission_read j q =
        check_access-Granted memory address 8 permission_read j q access in
      let (ij, rq) = some_pair w.i j w.region q (sym w.granted.found ∙ g.found) in
      let stored : List ℕ = store 8 w.region.contents (address - w.region.base) value in
      let region' : Region = record w.region { contents = stored } in
      let again : Granted after address 8 permission_read w.i region' = record {
        found =
            rw
              (
                w.after_eq,
                region_at-set memory.regions w.i w.region region' address w.at refl refl,
                w.granted.found,
              )
              (ap {B = Option (ℕ × Region)} some (replaced_self w.i region' w.region));
        fits = w.granted.fits;
        permitted = rw rq (g.permitted);
      } in
      rw (Granted-check_access after address 8 permission_read w.i region' again) (
        ap ok (
          load-store 8 w.region.contents (address - w.region.base) value (omega arith) w.fits
            w.bytes))

-- A byte read, over the answer of the lookup.
read_in : ℕ → Option (ℕ × Region) → MemoryResult ℕ
read_in address o = do
  (i, region) ← check_region address 1 permission_read o
  ok (get_or region.contents (address - region.base) 0)

read_in-replaced :
    (address other value i : ℕ) (region : Region) (o : Option (ℕ × Region))
    → region.base ≤ address
    → (other < address) ⊎ (address + 8 ≤ other)
    → ((j : ℕ) (q : Region) → o ≡ some (j, q) → (q.base ≤ other) × (j ≡ i → q ≡ region))
    → read_in other (
        Option.map
          (replaced i
            (record region { contents = store 8 region.contents (address - region.base) value }))
          o)
      ≡ read_in other o
unfolding read_in check_region
read_in-replaced address other value i region none base away same = refl
read_in-replaced address other value i region (some (j, q)) base away same =
    elim (Bool-cases (j == i)) [
      | inl here ↦
          let (low, q_eq) = same j q refl in
          rw (replaced_here j i region' q here, q_eq ((==_iff j i).0 here))
            (ground (
              arith,
              store_outside 8 region.contents (address - region.base) value (other - region.base)
                  (offsets (rw (q_eq ((==_iff j i).0 here)) at low)),
            ))
      | inr elsewhere ↦ rw (replaced_elsewhere j i region' q elsewhere)
    ]
  where
    region' : Region
    region' = record region { contents = store 8 region.contents (address - region.base) value }

    offsets :
        region.base ≤ other
        → (other - region.base < address - region.base)
          ⊎ (address - region.base + 8 ≤ other - region.base)
    offsets low = omega arith

module _ (memory : VirtualMemory) (address value : ℕ) (after : VirtualMemory)
    (sound : IsSoundMemory memory) (written : write_u64 memory address value ≡ ok after) where
  -- In a memory whose regions hold as many bytes as their sizes say, after a successful 64-bit
  -- write a byte outside the eight reads as before, or is refused as before.
  pub read_byte-write_u64 :
      (other : ℕ)
      → (other < address) ⊎ (address + 8 ≤ other)
      → read_byte after other ≡ read_byte memory other
  unfolding read_byte check_access read_in
  read_byte-write_u64 other away =
      let w : Wrote memory address value after =
        write_u64-Wrote memory address value after sound written in
      let stored : List ℕ = store 8 w.region.contents (address - w.region.base) value in
      let region' : Region = record w.region { contents = stored } in
      rw (w.after_eq, region_at-set memory.regions w.i w.region region' other w.at refl refl)
        (read_in-replaced address other value w.i w.region (region_at memory.regions other)
          w.base_le away
          λ j q found.
            let (within, at) = region_at-found memory.regions other j q found in
            (base_le q other within, λ ij. some-injective q w.region (sym at ∙ rw ij (w.at))))
