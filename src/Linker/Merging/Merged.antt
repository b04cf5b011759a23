-- ===== src/Linker/Merging/Merged.antt =====
-- `mergeSections` of src/linker/linker.cpp over all sections of all objects.
use mini_tool_chain.Base.{
  ℕ, ◌≡◌, refl, subst, false, List, [], ◌∷◌, some, get_elem?, All, Bool-cases, inl, inr, ok,
  ok-injective, >>=-eq-ok,
}
use mini_tool_chain.Word.{IsU64}
use mini_tool_chain.Object.Files.{Section, ObjectFile, null, same_section_type}
use mini_tool_chain.Base.Pointwise.{Pointwise, Pointwise-get_elem?, Pointwise-map}
use mini_tool_chain.Linker.Merging.{
  Region, Placement, unplaced, LaidOut, region_index_for, place_section, merge_object,
  merge_sections,
}
use mini_tool_chain.Linker.Merging.Growth.{IsRegion}
use mini_tool_chain.Linker.Merging.Places.{
  IsLaid, Lies, Keeps, AllGrow-refl, AllGrow-trans, IsLaid-grown, place_in-IsLaid,
}

-- The alignments are 64-bit numbers.
abbrev pub HasU64Alignment : Section → Type 0
HasU64Alignment s = IsU64 s.alignment

abbrev pub HasU64Alignments : ObjectFile → Type 0
HasU64Alignments o = All HasU64Alignment o.sections

place_section-IsLaid :
    (regions regions' : List Region) (s : Section) (p : Placement)
    → All IsRegion regions
    → IsU64 s.alignment
    → place_section regions s ≡ ok (regions', p)
    → Keeps regions regions' × IsLaid regions' s p
unfolding place_section
place_section-IsLaid regions regions' s p v u h =
    elim (Bool-cases (same_section_type s.kind null)) [
      | inl nothing ↦
          let same = ok-injective (regions, unplaced) (regions', p) (rw nothing at h) in
          subst (λ (q : List Region × Placement). Keeps regions q.0 × IsLaid q.0 s q.1) same
            ((v, AllGrow-refl regions), inl (nothing, refl))
      | inr there ↦
          place_in-IsLaid regions regions' (region_index_for regions s.kind) s p
            (get_elem? regions (region_index_for regions s.kind)) v u refl refl (rw there at h)
    ]

-- Every section of an object is laid.
abbrev pub AllLaid : List Region → List Section → List Placement → Type 0
AllLaid regions = Pointwise (IsLaid regions)

AllLaid-grown :
    (regions regions' : List Region) (ss : List Section) (ps : List Placement)
    → All IsRegion regions
    → Keeps regions regions'
    → AllLaid regions ss ps
    → AllLaid regions' ss ps
AllLaid-grown regions regions' ss ps v k =
    Pointwise-map (IsLaid regions) (IsLaid regions') ss ps
      λ s p. IsLaid-grown regions regions' s p v k.0 k.1

merge_object-laid :
    (regions regions' : List Region) (ss : List Section) (ps : List Placement)
    → All IsRegion regions
    → All HasU64Alignment ss
    → merge_object regions ss ≡ ok (regions', ps)
    → Keeps regions regions' × AllLaid regions' ss ps
unfolding merge_object
merge_object-laid regions regions' [] ps v u h =
    subst (λ (q : List Region × List Placement). Keeps regions q.0 × AllLaid q.0 [] q.1)
      (ok-injective (regions, []) (regions', ps) h) ((v, AllGrow-refl regions), tt)
merge_object-laid regions regions' (s ∷ rest) ps v u h =
    let ((regions1, p), first, next) = >>=-eq-ok (place_section regions s) _ (regions', ps) h in
    let ((regions2, ps2), second, result) =
      >>=-eq-ok (merge_object regions1 rest) _ (regions', ps) next in
    let ((v1, g1), laid) = place_section-IsLaid regions regions1 s p v u.0 first in
    let ((v2, g2), more) = merge_object-laid regions1 regions2 rest ps2 v1 u.1 second in
    subst (λ (q : List Region × List Placement). Keeps regions q.0 × AllLaid q.0 (s ∷ rest) q.1)
      (ok-injective (regions2, p ∷ ps2) (regions', ps) result)
      (
        (v2, AllGrow-trans regions regions1 regions2 g1 g2),
        (IsLaid-grown regions1 regions2 s p v1 v2 g2 laid, more),
      )

-- The object and its placements.
abbrev pub IsLaidOut : List Region → ObjectFile → LaidOut → Type 0
IsLaidOut regions o l = (l.object ≡ o) × AllLaid regions o.sections l.placements

IsLaidOut-grown :
    (regions regions' : List Region) (o : ObjectFile) (l : LaidOut)
    → All IsRegion regions
    → Keeps regions regions'
    → IsLaidOut regions o l
    → IsLaidOut regions' o l
IsLaidOut-grown regions regions' o l v k laid =
    (laid.0, AllLaid-grown regions regions' o.sections l.placements v k laid.1)

pub merge_sections-laid :
    (regions regions' : List Region) (objects : List ObjectFile) (laid : List LaidOut)
    → All IsRegion regions
    → All HasU64Alignments objects
    → merge_sections regions objects ≡ ok (regions', laid)
    → Keeps regions regions' × Pointwise (IsLaidOut regions') objects laid
unfolding merge_sections
merge_sections-laid regions regions' [] laid v u h =
    subst (λ (q : List Region × List LaidOut). Keeps regions q.0 × Pointwise (IsLaidOut q.0) [] q.1)
      (ok-injective (regions, []) (regions', laid) h) ((v, AllGrow-refl regions), tt)
merge_sections-laid regions regions' (o ∷ rest) laid v u h =
    let ((regions1, ps), first, next) =
      >>=-eq-ok (merge_object regions o.sections) _ (regions', laid) h in
    let ((regions2, laid2), second, result) =
      >>=-eq-ok (merge_sections regions1 rest) _ (regions', laid) next in
    let ((v1, g1), here) = merge_object-laid regions regions1 o.sections ps v u.0 first in
    let ((v2, g2), more) = merge_sections-laid regions1 regions2 rest laid2 v1 u.1 second in
    let row : LaidOut = record { object = o; placements = ps } in
    subst
      (λ (q : List Region × List LaidOut).
        Keeps regions q.0 × Pointwise (IsLaidOut q.0) (o ∷ rest) q.1)
      (ok-injective (regions2, row ∷ laid2) (regions', laid) result)
      (
        (v2, AllGrow-trans regions regions1 regions2 g1 g2),
        (IsLaidOut-grown regions1 regions2 o row v1 (v2, g2) (refl, here), more),
      )

-- After a merge of valid regions that succeeds (alignments being 64-bit numbers), every section
-- that is not of type null has a placement: it lies in a region of its type, at an aligned offset,
-- with its end inside the region, and the bytes there are the section's, cut or filled with zeros
-- to its size (none in a region without bytes).
pub merge_sections-Lies :
    (regions regions' : List Region) (objects : List ObjectFile) (laid : List LaidOut)
    → All IsRegion regions
    → All HasU64Alignments objects
    → merge_sections regions objects ≡ ok (regions', laid)
    → (i k : ℕ) (o : ObjectFile) (s : Section) → get_elem? objects i ≡ some o
    → get_elem? o.sections k ≡ some s
    → same_section_type s.kind null ≡ false
    → (l : LaidOut) × (p : Placement) × (get_elem? laid i ≡ some l)
      × (l.object ≡ o)
      × (get_elem? l.placements k ≡ some p)
      × Lies regions' s p
merge_sections-Lies regions regions' objects laid v u h i k o s object section kind =
    let (l, row, (same, ps)) =
      Pointwise-get_elem? (IsLaidOut regions') objects laid i o
        (merge_sections-laid regions regions' objects laid v u h).1 object in
    let (p, at, is_laid) =
      Pointwise-get_elem? (IsLaid regions') o.sections l.placements k s ps section in
    (l, p, row, same, at, lies p is_laid)
  where
    lies : (p : Placement) → IsLaid regions' s p → Lies regions' s p
    lies p (inl n) = cc
    lies p (inr l) = l
