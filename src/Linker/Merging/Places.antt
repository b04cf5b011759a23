-- ===== src/Linker/Merging/Places.antt =====
-- Where the sections of the objects lie after the first stage of src/linker/linker.cpp.
use mini_tool_chain.Base.{
  ℕ, ◌+◌, ◌-◌, ◌%◌, ◌≤◌, max, ◌≡◌, ◌⊎◌, refl, sym, ap, subst, ◌∙◌, arith, Bool, true, List, [], ◌∷◌,
  Option, none, some, some-injective, ltb, ◌||◌, if◌then◌else◌, get_elem?, set, take, drop, All,
  All-get_elem?, All-set, Bool-cases, inl, inr, Expected, ok, reject_if, ok-injective,
}
use mini_tool_chain.Word.{IsU64}
use mini_tool_chain.Object.Files.{Section, SectionType, null, same_section_type}
use mini_tool_chain.Base.Pointwise.{
  Pointwise, Pointwise-get_elem?, Pointwise-refl, Pointwise-trans, Pointwise-set,
  get_elem?-set_self,
}
use mini_tool_chain.Linker.Merging.{
  LinkError, Region, region_size, align_up, resize, grown, grows_past, Placement, unplaced,
  region_index_for, place_in,
}
use mini_tool_chain.Linker.Merging.Bytes.{
  align_up_lem, take-drop-append, take-drop-nil, no_elements,
}
use mini_tool_chain.Linker.Merging.Growth.{
  IsRegion, Grows, Grows-refl, Grows-trans, grown-IsRegion, grown-Grows, grown-bytes, grown-inside,
}

-- A section lies in a region of its type: at an aligned offset, inside, its bytes (cut or filled
-- with zeros to its size) in their place, if the region stores bytes.
pub record Lies (regions : List Region) (s : Section) (p : Placement) : Type 0 where
  pub placed : p.placed ≡ true
  pub region : Region
  pub there : get_elem? regions p.region ≡ some region
  pub same_type : same_section_type region.kind s.kind ≡ true
  pub aligned : p.offset % max 1 s.alignment ≡ 0
  pub inside : p.offset + s.size ≤ region.size
  pub bytes :
      take s.size (drop p.offset region.contents)
      ≡ (if region.zero_filled then [] else resize s.contents s.size)

-- A section of type null has no place.
abbrev pub IsLaid : List Region → Section → Placement → Type 0
IsLaid regions s p = ((same_section_type s.kind null ≡ true) × (p ≡ unplaced)) ⊎ Lies regions s p

abbrev pub AllGrow : List Region → List Region → Type 0
AllGrow = Pointwise Grows

pub AllGrow-refl : (rs : List Region) → AllGrow rs rs
AllGrow-refl rs = Pointwise-refl Grows Grows-refl rs

pub AllGrow-trans : (qs rs ss : List Region) → AllGrow qs rs → AllGrow rs ss → AllGrow qs ss
AllGrow-trans qs rs ss g h = Pointwise-trans Grows Grows-trans qs rs ss g h

-- The bytes of a part that lies in a region are still there when the region has grown.
grown_part :
    (r r' : Region) (offset size : ℕ) (bs : List ℕ)
    → IsRegion r
    → IsRegion r'
    → Grows r r'
    → offset + size ≤ r.size
    → take size (drop offset r.contents) ≡ (if r.zero_filled then [] else bs)
    → take size (drop offset r'.contents) ≡ (if r'.zero_filled then [] else bs)
grown_part r r' offset size bs v v' g inside at = elim (Bool-cases r.zero_filled) [
  | inl h ↦
      let none_there = v'.stored ∙ ap (λ b. if b then 0 else r'.size) (g.same_fill ∙ h) in
      ap (λ xs. take size (drop offset xs)) (no_elements r'.contents none_there)
      ∙ take-drop-nil offset size
      ∙ ap (λ b. if b then [] else bs) (sym (g.same_fill ∙ h))
  | inr h ↦
      let long = v.stored ∙ ap (λ b. if b then 0 else r.size) h in
      ap (λ xs. take size (drop offset xs)) g.extended
      ∙ take-drop-append r.contents g.behind offset size (omega (arith, long))
      ∙ at
      ∙ ap (λ b. if b then [] else bs) (sym g.same_fill)
]

Lies-grown :
    (regions regions' : List Region) (s : Section) (p : Placement)
    → All IsRegion regions
    → All IsRegion regions'
    → AllGrow regions regions'
    → Lies regions s p
    → Lies regions' s p
Lies-grown regions regions' s p v v' g l =
    let (r', there, grew) =
      Pointwise-get_elem? Grows regions regions' p.region l.region g l.there in
    record {
      placed = l.placed;
      region = r';
      there = there;
      same_type = ap (λ k. same_section_type k s.kind) grew.same_kind ∙ l.same_type;
      aligned = l.aligned;
      inside = omega (arith, l.inside, grew.larger);
      bytes =
          grown_part l.region r' p.offset s.size _
            (All-get_elem? IsRegion regions p.region l.region v l.there)
            (All-get_elem? IsRegion regions' p.region r' v' there) grew l.inside l.bytes;
    }

pub IsLaid-grown :
    (regions regions' : List Region) (s : Section) (p : Placement)
    → All IsRegion regions
    → All IsRegion regions'
    → AllGrow regions regions'
    → IsLaid regions s p
    → IsLaid regions' s p
IsLaid-grown regions regions' s p v v' g (inl n) = inl n
IsLaid-grown regions regions' s p v v' g (inr l) = inr (Lies-grown regions regions' s p v v' g l)

region_index_for-found :
    (regions : List Region) (kind : SectionType) (r : Region)
    → get_elem? regions (region_index_for regions kind) ≡ some r
    → same_section_type r.kind kind ≡ true
unfolding region_index_for
region_index_for-found [] kind r h = cc
region_index_for-found (x ∷ rest) kind r h = elim (Bool-cases (same_section_type x.kind kind)) [
  | inl here ↦
      let at : some x ≡ some r = rw here at h in
      let same : x ≡ r = some-injective x r at in
      subst (λ y. same_section_type y.kind kind ≡ true) same here
  | inr other ↦ region_index_for-found rest kind r (rw other at h)
]

-- What a step of the merge leaves of valid regions.
abbrev pub Keeps : List Region → List Region → Type 0
Keeps rs rs' = All IsRegion rs' × AllGrow rs rs'

-- The region that grew takes the place of the old one.
grown_at :
    (regions : List Region) (at : ℕ) (s : Section) (r : Region) (offset : ℕ)
    → All IsRegion regions
    → same_section_type r.kind s.kind ≡ true
    → get_elem? regions at ≡ some r
    → r.size ≤ offset
    → offset % max 1 s.alignment ≡ 0
    → offset + s.size ≤ region_size
    → let regions' = set regions at (grown r s offset) in
      Keeps regions regions'
      × IsLaid regions' s (record { placed = true; region = at; offset = offset })
grown_at regions at s r offset v same_type there behind aligned room =
    let valid = All-get_elem? IsRegion regions at r v there in
    let grew = grown-Grows r s offset valid behind room in
    (
      (
        All-set IsRegion regions at (grown r s offset) v
            (grown-IsRegion r s offset valid behind room),
        Pointwise-set Grows Grows-refl regions at r (grown r s offset) there grew,
      ),
      inr (record {
        placed = refl;
        region = grown r s offset;
        there = get_elem?-set_self regions at r (grown r s offset) there;
        same_type = ap (λ k. same_section_type k s.kind) grew.same_kind ∙ same_type;
        aligned = aligned;
        inside = grown-inside r s offset valid behind room;
        bytes =
            grown-bytes r s offset valid behind room
            ∙ ap (λ b. if b then [] else resize s.contents s.size) (sym grew.same_fill);
      }),
    )

pub place_in-IsLaid :
    (regions regions' : List Region) (at : ℕ) (s : Section) (p : Placement) (found : Option Region)
    → All IsRegion regions
    → IsU64 s.alignment
    → at ≡ region_index_for regions s.kind
    → get_elem? regions at ≡ found
    → place_in regions at s found ≡ ok (regions', p)
    → Keeps regions regions' × IsLaid regions' s p
unfolding place_in
place_in-IsLaid regions regions' at s p none v u index there h = cc
place_in-IsLaid regions regions' at s p (some r) v u index there h = elim (Bool-cases test) [
  | inl past ↦ cc (rw past at h)
  | inr fits ↦
      let result = sym (ap (λ b. reject_if b (grows_past r.name) placed) fits) ∙ h in
      let same = ok-injective (set regions at (grown r s offset), at_offset) (regions', p) result in
      let (behind, aligned) =
        align_up_lem r.size s.alignment (All-get_elem? IsRegion regions at r v there).bounded u in
      let room : offset + s.size ≤ region_size = ground (arith, fits) in
      subst (λ (q : List Region × Placement). Keeps regions q.0 × IsLaid q.0 s q.1) same
        (grown_at regions at s r offset v
          (region_index_for-found regions s.kind r (ap (get_elem? regions) (sym index) ∙ there))
          there behind aligned room)
]
  where
    offset : ℕ
    offset = align_up r.size s.alignment

    test : Bool
    test = ltb region_size offset || ltb (region_size - offset) s.size

    at_offset : Placement
    at_offset = record { placed = true; region = at; offset = offset }

    placed : Expected LinkError (List Region × Placement)
    placed = ok (set regions at (grown r s offset), at_offset)
