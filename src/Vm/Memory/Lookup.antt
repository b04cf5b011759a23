-- ===== src/Vm/Memory/Lookup.antt =====
-- What a checked access found, and where a region that was written to is found again.
use mathlib.Core.Option
use mini_tool_chain.Base.{
  ℕ, zero, suc, ◌-◌, ◌≤◌, ◌≡◌, refl, sym, ap, ◌∙◌, inl, inr, Bool-cases, true, false, Option, none,
  some, List, [], ◌∷◌, arith, ◌==◌, ==_iff, if◌then◌else◌, ok, get_elem?, set,
}
use mini_tool_chain.Vm.Memory.{
  Region, VirtualMemory, Permission, contains, has_permission, next_index, region_at, check_region,
  check_access,
}

-- The region with an index, whichever it is.
abbrev pub Indexed : List Region → ℕ → Region → Type 0
Indexed regions i region = get_elem? regions i ≡ some region

next-some :
    (o : Option (ℕ × Region)) (i : ℕ) (region : Region)
    → Option.map next_index o ≡ some (i, region)
    → (j : ℕ) × (i ≡ suc j) × (o ≡ some (j, region))
unfolding next_index
next-some none i region h = cc
next-some (some (j, q)) i region h = (j, ground arith, ground arith)

module _ (r : Region) (rest : List Region) (address : ℕ) where
  pub region_at-here : contains r address ≡ true → region_at (r ∷ rest) address ≡ some (0, r)
  unfolding region_at
  region_at-here h = rw h

  pub region_at-there :
      contains r address ≡ false
      → region_at (r ∷ rest) address ≡ Option.map next_index (region_at rest address)
  unfolding region_at
  region_at-there h = rw h

pub some_pair :
    (i j : ℕ) (r q : Region)
    → ◌≡◌ {A = Option (ℕ × Region)} (some (i, r)) (some (j, q))
    → (i ≡ j) × (r ≡ q)
some_pair i j r q h = (ground arith, ground arith)

head_eq : (r q : Region) (rest : List Region) → Indexed (r ∷ rest) 0 q → r ≡ q
head_eq r q rest h = ground arith

pub region_at-found :
    (regions : List Region) (address i : ℕ) (region : Region)
    → region_at regions address ≡ some (i, region)
    → (contains region address ≡ true) × Indexed regions i region
region_at-found [] address i region h = unfold region_at in cc
region_at-found (r ∷ rest) address i region h = elim (Bool-cases (contains r address)) [
  | inl within ↦
      let (zi, rr) = some_pair 0 i r region (sym (region_at-here r rest address within) ∙ h) in
      rw (← zi, ← rr) (within, refl)
  | inr outside ↦
      let (j, ij, found) =
        next-some (region_at rest address) i region
          (sym (region_at-there r rest address outside) ∙ h) in
      let (within, at) = region_at-found rest address j region found in (within, rw ij at)
]

-- The answer when region `i` has been replaced.
abbrev pub replaced : ℕ → Region → ℕ × Region → ℕ × Region
replaced i region' (j, q) = if j == i then (j, region') else (j, q)

pub replaced_here :
    (j i : ℕ) (region' q : Region) → (j == i) ≡ true → replaced i region' (j, q) ≡ (j, region')
replaced_here j i region' q h = rw h

pub replaced_elsewhere :
    (j i : ℕ) (region' q : Region) → (j == i) ≡ false → replaced i region' (j, q) ≡ (j, q)
replaced_elsewhere j i region' q h = rw h

pub replaced_self : (i : ℕ) (region' q : Region) → replaced i region' (i, q) ≡ (i, region')
replaced_self i region' q = replaced_here i i region' q ((==_iff i i).1 refl)

pub base_le : (r : Region) (address : ℕ) → contains r address ≡ true → r.base ≤ address
base_le r address h = ground arith

pub same_range :
    (r region' : Region) (address : ℕ)
    → region'.base ≡ r.base
    → region'.size ≡ r.size
    → contains region' address ≡ contains r address
same_range r region' address b s = rw (b, s)

replaced_zero :
    (region' : Region) (o : Option (ℕ × Region))
    → Option.map next_index o ≡ Option.map (replaced 0 region') (Option.map next_index o)
unfolding next_index
replaced_zero region' none = refl
replaced_zero region' (some (j, q)) = ground arith

pub replaced_head :
    (i : ℕ) (region' r : Region) → ◌≡◌ {A = ℕ × Region} (0, r) (replaced (suc i) region' (0, r))
replaced_head i region' r = ground arith

replaced-suc :
    (i : ℕ) (region' : Region) (o : Option (ℕ × Region))
    → Option.map next_index (Option.map (replaced i region') o)
      ≡ Option.map (replaced (suc i) region') (Option.map next_index o)
unfolding next_index
replaced-suc i region' none = refl
replaced-suc i region' (some (j, q)) = ground arith

pub region_at-set :
    (regions : List Region) (i : ℕ) (region region' : Region) (address : ℕ)
    → Indexed regions i region
    → region'.base ≡ region.base
    → region'.size ≡ region.size
    → region_at (set regions i region') address
      ≡ Option.map (replaced i region') (region_at regions address)
region_at-set [] i region region' address at b s = unfold region_at in refl
region_at-set (r ∷ rest) zero region region' address at b s =
    elim (Bool-cases (contains r address)) [
      | inl within ↦
          region_at-here region' rest address (range ∙ within)
          ∙ rw (region_at-here r rest address within)
      | inr outside ↦
          region_at-there region' rest address (range ∙ outside)
          ∙ rw (region_at-there r rest address outside)
              (replaced_zero region' (region_at rest address))
    ]
  where
    same : r ≡ region
    same = head_eq r region rest at

    range : contains region' address ≡ contains r address
    range = rw same (same_range region region' address b s)
region_at-set (r ∷ rest) (suc i) region region' address at b s =
    elim (Bool-cases (contains r address)) [
      | inl within ↦
          rw
            (
              region_at-here r (set rest i region') address within,
              region_at-here r rest address within,
            )
            (ap {B = Option (ℕ × Region)} some (replaced_head i region' r))
      | inr outside ↦
          rw
            (
              region_at-there r (set rest i region') address outside,
              region_at-there r rest address outside,
              region_at-set rest i region region' address at b s,
            )
            (replaced-suc i region' (region_at rest address))
    ]

-- What a checked access has established.
pub record Granted (memory : VirtualMemory) (address size : ℕ) (needed : Permission) (i : ℕ)
    (region : Region) : Type 0 where
  pub found : region_at memory.regions address ≡ some (i, region)
  pub fits : size ≤ region.size - (address - region.base)
  pub permitted : has_permission region.permissions needed ≡ true

check_region-ok :
    (address size : ℕ) (needed : Permission) (o : Option (ℕ × Region)) (i : ℕ) (region : Region)
    → check_region address size needed o ≡ ok (i, region)
    → (o ≡ some (i, region))
      × (size ≤ region.size - (address - region.base))
      × (has_permission region.permissions needed ≡ true)
unfolding check_region
check_region-ok address size needed none i region h = cc
check_region-ok address size needed (some (j, q)) i region h = ground arith

pub check_access-Granted :
    (memory : VirtualMemory) (address size : ℕ) (needed : Permission) (i : ℕ) (region : Region)
    → check_access memory address size needed ≡ ok (i, region)
    → Granted memory address size needed i region
unfolding check_access
check_access-Granted memory address size needed i region h =
    let (a, b, c) =
      check_region-ok address size needed (region_at memory.regions address) i region h in
    record { found = a; fits = b; permitted = c }

pub Granted-check_access :
    (memory : VirtualMemory) (address size : ℕ) (needed : Permission) (i : ℕ) (region : Region)
    → Granted memory address size needed i region
    → check_access memory address size needed ≡ ok (i, region)
unfolding check_access check_region
Granted-check_access memory address size needed i region g =
    rw (g.found) (ground (arith, g.fits, g.permitted))
