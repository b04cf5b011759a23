-- ===== src/Vm/Memory/Evolution.antt =====
-- How the address space can change: the regions keep their places, sizes and permissions, and one
-- without write permission keeps its bytes.
use mathlib.Core.Option
use mini_tool_chain.Base.{
  ℕ, zero, suc, ◌-◌, ◌≡◌, refl, sym, ap, ◌∙◌, subst, some-injective, inl, inr, true, false, Option,
  none, some, List, [], ◌∷◌, arith, ◌==◌, Bool-cases, All-get_elem?, ok, ◌>>=◌, set, length,
  length-set, All, >>=-eq-ok, ok-injective,
}
use mini_tool_chain.ByteOrder.{load}
use mini_tool_chain.ByteOrder.Words.{length-store}
use mini_tool_chain.Vm.Memory.{
  Region, VirtualMemory, permission_write, permission_exec, contains, has_permission, region_at,
  check_access, put_contents, write_byte, write_u64, write_bytes, copy_to, allocate,
  fetch_instruction, MemoryResult, check_region, next_index,
}
use mini_tool_chain.Vm.Memory.Lookup.{
  region_at-here, region_at-there, same_range, Indexed, region_at-found, Granted,
  check_access-Granted,
}

pub record Changes (r q : Region) : Type 0 where
  pub same_name : q.name ≡ r.name
  pub same_base : q.base ≡ r.base
  pub same_size : q.size ≡ r.size
  pub same_permissions : q.permissions ≡ r.permissions
  pub same_length : length q.contents ≡ length r.contents
  pub kept : has_permission r.permissions permission_write ≡ false → q.contents ≡ r.contents

Changes-refl : (r : Region) → Changes r r
Changes-refl r = record {
  same_name = refl;
  same_base = refl;
  same_size = refl;
  same_permissions = refl;
  same_length = refl;
  kept = λ _. refl;
}

Changes-trans : (r q p : Region) → Changes r q → Changes q p → Changes r p
Changes-trans r q p f g = record {
  same_name = g.same_name ∙ f.same_name;
  same_base = g.same_base ∙ f.same_base;
  same_size = g.same_size ∙ f.same_size;
  same_permissions = g.same_permissions ∙ f.same_permissions;
  same_length = g.same_length ∙ f.same_length;
  kept = λ h. g.kept (rw (f.same_permissions) h) ∙ f.kept h;
}

abbrev pub Evolves : List Region → List Region → Type 0
Evolves [] [] = Unit {0}
Evolves [] (q ∷ qs) = ⊥
Evolves (r ∷ rs) [] = ⊥
Evolves (r ∷ rs) (q ∷ qs) = Changes r q × Evolves rs qs

pub Evolves-refl : (rs : List Region) → Evolves rs rs
Evolves-refl [] = tt
Evolves-refl (r ∷ rs) = (Changes-refl r, Evolves-refl rs)

pub Evolves-trans : (rs qs ps : List Region) → Evolves rs qs → Evolves qs ps → Evolves rs ps
Evolves-trans [] [] ps f g = g
Evolves-trans [] (q ∷ qs) ps f g = absurd f
Evolves-trans (r ∷ rs) [] ps f g = absurd f
Evolves-trans (r ∷ rs) (q ∷ qs) [] f g = absurd g
Evolves-trans (r ∷ rs) (q ∷ qs) (p ∷ ps) f g =
    (Changes-trans r q p f.0 g.0, Evolves-trans rs qs ps f.1 g.1)

Evolves-set :
    (rs : List Region) (i : ℕ) (r q : Region)
    → Indexed rs i r
    → Changes r q
    → Evolves rs (set rs i q)
Evolves-set [] i r q at f = tt
Evolves-set (x ∷ rs) zero r q at f =
    (subst (λ t. Changes t q) (sym (some-injective x r at)) f, Evolves-refl rs)
Evolves-set (x ∷ rs) (suc i) r q at f = (Changes-refl x, Evolves-set rs i r q at f)

-- A region that takes other bytes under a granted write.
module _ (memory : VirtualMemory) (address size i : ℕ) (region : Region) (bytes : List ℕ) where
  granted-Evolves :
      check_access memory address size permission_write ≡ ok (i, region)
      → length bytes ≡ length region.contents
      → Evolves memory.regions (put_contents memory i region bytes).regions
  granted-Evolves h len =
      let g : Granted memory address size permission_write i region =
        check_access-Granted memory address size permission_write i region h in
      Evolves-set memory.regions i region (record region { contents = bytes })
        (region_at-found memory.regions address i region g.found).1
        (record {
          same_name = refl;
          same_base = refl;
          same_size = refl;
          same_permissions = refl;
          same_length = len;
          kept = λ denied. cc (g.permitted);
        })

length-copy_to :
    (bytes contents : List ℕ) (offset : ℕ)
    → length (copy_to contents offset bytes) ≡ length contents
unfolding copy_to
length-copy_to [] contents offset = refl
length-copy_to (b ∷ bytes) contents offset =
    length-copy_to bytes (set contents offset b) (suc offset) ∙ length-set contents offset b

-- Every write keeps to the regions that allow it.
module _ (memory : VirtualMemory) (address : ℕ) (after : VirtualMemory) where
  pub write_byte-Evolves :
      (value : ℕ)
      → write_byte memory address value ≡ ok after
      → Evolves memory.regions after.regions
  unfolding write_byte
  write_byte-Evolves value h =
      let ((i, region), granted, done) =
        >>=-eq-ok (check_access memory address 1 permission_write) _ after h in
      rw (← ok-injective _ _ done)
        (granted-Evolves memory address 1 i region _ granted (length-set region.contents _ value))

  pub write_u64-Evolves :
      (value : ℕ) → write_u64 memory address value ≡ ok after → Evolves memory.regions after.regions
  unfolding write_u64
  write_u64-Evolves value h =
      let ((i, region), granted, done) =
        >>=-eq-ok (check_access memory address 8 permission_write) _ after h in
      rw (← ok-injective _ _ done) (
        granted-Evolves memory address 8 i region _ granted
          (length-store 8 region.contents _ value))

  pub write_bytes-Evolves :
      (bytes : List ℕ)
      → write_bytes memory address bytes ≡ ok after
      → Evolves memory.regions after.regions
  unfolding write_bytes
  write_bytes-Evolves [] h = rw (← ok-injective _ _ h) (Evolves-refl memory.regions)
  write_bytes-Evolves (b ∷ bytes) h =
      let ((i, region), granted, done) =
        >>=-eq-ok (check_access memory address (length (b ∷ bytes)) permission_write) _ after
          (rw nonempty at h) in
      rw (← ok-injective _ _ done) (
        granted-Evolves memory address _ i region _ granted
          (length-copy_to (b ∷ bytes) region.contents _))
    where
      nonempty : (length (b ∷ bytes) == 0) ≡ false
      nonempty = ground arith

pub allocate-regions :
    (memory : VirtualMemory) (size block : ℕ) (after : VirtualMemory)
    → allocate memory size ≡ ok (block, after)
    → after.regions ≡ memory.regions
unfolding allocate
allocate-regions memory size block after h = ground arith

-- The answers of a lookup before and after.
abbrev Follows : Option (ℕ × Region) → Option (ℕ × Region) → Type 0
Follows none none = Unit {0}
Follows none (some _) = ⊥
Follows (some _) none = ⊥
Follows (some (i, r)) (some (j, q)) = (i ≡ j) × Changes r q

Follows-next :
    (o o' : Option (ℕ × Region))
    → Follows o o'
    → Follows (Option.map next_index o) (Option.map next_index o')
unfolding next_index
Follows-next none none f = tt
Follows-next none (some _) f = f
Follows-next (some _) none f = f
Follows-next (some (i, r)) (some (j, q)) f = (ap suc f.0, f.1)

region_at-Follows :
    (rs qs : List Region) (address : ℕ)
    → Evolves rs qs
    → Follows (region_at rs address) (region_at qs address)
region_at-Follows [] [] address e = unfold region_at in tt
region_at-Follows [] (q ∷ qs) address e = absurd e
region_at-Follows (r ∷ rs) [] address e = absurd e
region_at-Follows (r ∷ rs) (q ∷ qs) address e = elim (Bool-cases (contains r address)) [
  | inl within ↦
      rw (region_at-here r rs address within, region_at-here q qs address (range ∙ within))
        (refl, e.0)
  | inr outside ↦
      rw (region_at-there r rs address outside, region_at-there q qs address (range ∙ outside))
        (Follows-next (region_at rs address) (region_at qs address)
          (region_at-Follows rs qs address e.1))
]
  where
    range : contains q address ≡ contains r address
    range = same_range r q address e.0.same_base e.0.same_size

-- No region is both writable and executable.
abbrev pub IsWriteXorExec : Region → Type 0
IsWriteXorExec r =
    has_permission r.permissions permission_exec ≡ true
    → has_permission r.permissions permission_write ≡ false

fetch_in : ℕ → Option (ℕ × Region) → MemoryResult ℕ
fetch_in address o = do
  (i, region) ← check_region address 8 permission_exec o
  ok (load 8 region.contents (address - region.base))

fetch_in-Follows :
    (address : ℕ) (o o' : Option (ℕ × Region))
    → Follows o o'
    → ((i : ℕ) (r : Region) → o ≡ some (i, r) → IsWriteXorExec r)
    → fetch_in address o' ≡ fetch_in address o
unfolding fetch_in check_region
fetch_in-Follows address none none f wx = refl
fetch_in-Follows address none (some _) f wx = absurd f
fetch_in-Follows address (some _) none f wx = absurd f
fetch_in-Follows address (some (i, r)) (some (j, q)) f wx =
    elim (Bool-cases (has_permission r.permissions permission_exec)) [
      | inl exec ↦
          ground
            (arith, f.1.same_base, f.1.same_size, f.1.same_permissions, f.1.kept (wx i r refl exec))
      | inr plain ↦ ground (arith, f.1.same_base, f.1.same_size, f.1.same_permissions)
    ]

-- Whatever is written, an instruction fetch answers as before: code cannot be changed.
pub fetch_instruction-Evolves :
    (before after : VirtualMemory) (address : ℕ)
    → All IsWriteXorExec before.regions
    → Evolves before.regions after.regions
    → fetch_instruction after address ≡ fetch_instruction before address
unfolding fetch_instruction check_access fetch_in
fetch_instruction-Evolves before after address wx e =
    fetch_in-Follows address (region_at before.regions address) (region_at after.regions address)
      (region_at-Follows before.regions after.regions address e)
      λ i r h.
        All-get_elem? IsWriteXorExec before.regions i r wx
          (region_at-found before.regions address i r h).1
