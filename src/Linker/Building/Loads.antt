-- ===== src/Linker/Building/Loads.antt =====
-- What `link` of src/linker/linker.cpp gives is what the validation accepts and the machine loads.
use mini_tool_chain.Base.{
  ℕ, ◌+◌, ◌≤◌, ◌≡◌, refl, ap, subst, arith, Bool, true, false, List, [], ◌∷◌, Option, none, some,
  All, Expected, ok, err, ok-injective, >>=-eq-ok, ◌==◌, if◌then◌else◌, String,
}
use mini_tool_chain.Word.{IsU64}
use mini_tool_chain.Executable.{
  Executable, Segment, SegmentType, SegmentFlags, validate, ValidationError,
}
use mini_tool_chain.Executable.Valid.{IsValid, validate_iff}
use mini_tool_chain.Vm.Cpu.{VirtualMachine, heap_base}
use mini_tool_chain.Vm.Loader.{load_executable}
use mini_tool_chain.Vm.Loader.Success.{IsLow, load_executable-ok}
use mini_tool_chain.Object.Files.{SectionType, ObjectFile}
use mini_tool_chain.Base.Pointwise.{Pointwise}
use mini_tool_chain.Linker.Merging.{
  LinkOptions, Region, region_size, new_region, init_regions, LaidOut, merge_sections,
}
use mini_tool_chain.Linker.Merging.Growth.{IsRegion, Grows}
use mini_tool_chain.Linker.Merging.Merged.{HasU64Alignments, merge_sections-laid}
use mini_tool_chain.Linker.Resolving.{Definition, Resolution, find_definition, resolve_symbols}
use mini_tool_chain.Linker.Patching.{apply_relocations}
use mini_tool_chain.Linker.Patching.Layout.{AllPatched, apply_relocations-AllPatched}
use mini_tool_chain.Linker.Building.{
  segment_of, build_segments, image_of, validated, build_from, build_executable, link_all, link,
}

-- A region ends where the machine's heap begins, or before.
abbrev pub IsLowRegion : Region → Type 0
IsLowRegion r = (r.size ≤ region_size) × (r.base + region_size ≤ heap_base)

-- The four bases leave room for a region below the heap.
abbrev pub HasLowBases : LinkOptions → Type 0
HasLowBases o = All (λ r. r.base + region_size ≤ heap_base) (init_regions o)

new_region-IsRegion :
    (kind : SectionType) (segment : SegmentType) (flags : SegmentFlags) (name : String) (base : ℕ)
    (zero_filled : Bool)
    → IsRegion (new_region kind segment flags name base zero_filled)
new_region-IsRegion kind segment flags name base true = record {
  bounded = omega arith;
  stored = refl;
}
new_region-IsRegion kind segment flags name base false = record {
  bounded = omega arith;
  stored = refl;
}

pub init_regions-IsRegion : (o : LinkOptions) → All IsRegion (init_regions o)
init_regions-IsRegion o = (
  new_region-IsRegion _ _ _ _ _ false,
  (
    new_region-IsRegion _ _ _ _ _ false,
    (new_region-IsRegion _ _ _ _ _ false, (new_region-IsRegion _ _ _ _ _ true, tt)),
  ),
)

grown_low :
    (rs rs' : List Region)
    → Pointwise Grows rs rs'
    → All IsRegion rs'
    → All (λ r. r.base + region_size ≤ heap_base) rs
    → All IsLowRegion rs'
grown_low [] [] g v low = tt
grown_low [] (y ∷ ys) g v low = absurd g
grown_low (x ∷ xs) [] g v low = absurd g
grown_low (x ∷ xs) (y ∷ ys) g v low =
    ((v.0.bounded, omega (arith, g.0.same_base, low.0)), grown_low xs ys g.1 v.1 low.1)

patched_low : (rs rs' : List Region) → AllPatched rs rs' → All IsLowRegion rs → All IsLowRegion rs'
patched_low [] [] p low = tt
patched_low [] (y ∷ ys) p low = absurd p
patched_low (x ∷ xs) [] p low = absurd p
patched_low (x ∷ xs) (y ∷ ys) p low = (
  (omega (arith, p.0.same_size, low.0.0), omega (arith, p.0.same_base, low.0.1)),
  patched_low xs ys p.1 low.1,
)

-- Every segment is one of the regions.
build_segments-IsLow :
    (rs : List Region)
    → All IsLowRegion rs
    → All (λ s. IsU64 s.virtual_size) (build_segments rs) × All IsLow (build_segments rs)
unfolding build_segments
build_segments-IsLow [] low = (tt, tt)
build_segments-IsLow (r ∷ rest) low =
    kept (r.size == 0) (build_segments rest) (build_segments-IsLow rest low.1)
  where
    kept :
        (b : Bool) (ss : List Segment)
        → All (λ s. IsU64 s.virtual_size) ss × All IsLow ss
        → All (λ s. IsU64 s.virtual_size) (if b then ss else segment_of r ∷ ss)
          × All IsLow (if b then ss else segment_of r ∷ ss)
    kept true ss h = h
    kept false ss h = ((omega (arith, low.0.0), h.0), (omega (arith, low.0.0, low.0.1), h.1))

validated-ok :
    (image exe : Executable) (verdict : Expected ValidationError (Unit {0}))
    → validate image ≡ verdict
    → validated image verdict ≡ ok exe
    → (image ≡ exe) × (validate image ≡ ok tt)
unfolding validated
validated-ok image exe (ok _) e h = (ok-injective image exe h, e)
validated-ok image exe (err v) e h = cc

-- The image of a success, and its validation.
build_from-ok :
    (o : LinkOptions) (regions : List Region) (laid : List LaidOut) (r : Resolution)
    (entry : Option Definition) (exe : Executable)
    → build_from o regions laid r entry ≡ ok exe
    → (d : Definition) × (entry ≡ some d)
      × (image_of o regions laid r d.address ≡ exe)
      × (validate exe ≡ ok tt)
unfolding build_from
build_from-ok o regions laid r none exe h = cc
build_from-ok o regions laid r (some d) exe h =
    let image = image_of o regions laid r d.address in
    let (same, accepted) = validated-ok image exe (validate image) refl h in
    (d, refl, same, subst (λ e. validate e ≡ ok tt) same accepted)

-- The stages of a link that succeeds.
pub record Linked (o : LinkOptions) (objects : List ObjectFile) (exe : Executable) : Type 0 where
  pub regions : List Region
  pub patched : List Region
  pub laid : List LaidOut
  pub resolution : Resolution
  pub entry : Definition
  pub merged : merge_sections (init_regions o) objects ≡ ok (regions, laid)
  pub resolved : resolve_symbols regions laid ≡ ok resolution
  pub relocated : apply_relocations regions resolution.definitions laid ≡ ok patched
  pub entered : find_definition resolution.definitions o.entry ≡ some entry
  pub built : image_of o patched laid resolution entry.address ≡ exe
  pub accepted : validate exe ≡ ok tt

link_all-Linked :
    (o : LinkOptions) (objects : List ObjectFile) (exe : Executable)
    → link_all o objects ≡ ok exe
    → Linked o objects exe
unfolding link_all build_executable
link_all-Linked o objects exe h =
    let ((regions, laid), merged, h1) =
      >>=-eq-ok (merge_sections (init_regions o) objects) _ exe h in
    let (r, resolved, h2) = >>=-eq-ok (resolve_symbols regions laid) _ exe h1 in
    let (regions', relocated, h3) =
      >>=-eq-ok (apply_relocations regions r.definitions laid) _ exe h2 in
    let (d, entered, built, accepted) =
      build_from-ok o regions' laid r (find_definition r.definitions o.entry) exe h3 in
    record {
      regions = regions;
      patched = regions';
      laid = laid;
      resolution = r;
      entry = d;
      merged = merged;
      resolved = resolved;
      relocated = relocated;
      entered = entered;
      built = built;
      accepted = accepted;
    }

pub link-Linked :
    (objects : List ObjectFile) (o : LinkOptions) (exe : Executable)
    → link objects o ≡ ok exe
    → Linked o objects exe
unfolding link
link-Linked [] o exe h = cc
link-Linked (first ∷ rest) o exe h = link_all-Linked o (first ∷ rest) exe h

-- The segments of a linked image.
Linked-segments :
    (objects : List ObjectFile) (o : LinkOptions) (exe : Executable)
    → All HasU64Alignments objects
    → HasLowBases o
    → Linked o objects exe
    → All (λ s. IsU64 s.virtual_size) exe.segments × All IsLow exe.segments
unfolding image_of
Linked-segments objects o exe u low l =
    let ((valid, grew), rows) =
      merge_sections-laid (init_regions o) l.regions objects l.laid (init_regions-IsRegion o) u
        l.merged in
    let merged = grown_low (init_regions o) l.regions grew valid low in
    let patched =
      patched_low l.regions l.patched
        (apply_relocations-AllPatched l.regions l.patched l.resolution.definitions l.laid
          l.relocated)
        merged in
    subst (λ ss. All (λ s. IsU64 s.virtual_size) ss × All IsLow ss) (ap (λ e. e.segments) l.built)
      (build_segments-IsLow l.patched patched)

-- A link that succeeds gives a valid image that any machine loads, where the alignments of the
-- sections are 64-bit numbers and the bases leave room for a region below the heap, as the default
-- ones do.
pub link-loads :
    {P : Type 0} (m : VirtualMachine P) (objects : List ObjectFile) (o : LinkOptions)
    (exe : Executable)
    → All HasU64Alignments objects
    → HasLowBases o
    → link objects o ≡ ok exe
    → IsValid exe × ((load_executable m exe).1 ≡ ok tt)
link-loads m objects o exe u low h =
    let l = link-Linked objects o exe h in
    let (sizes, below) = Linked-segments objects o exe u low l in
    let valid = (validate_iff exe sizes).0 l.accepted in
    (valid, load_executable-ok m exe l.accepted valid below)
