-- ===== src/Ir/Sections.antt =====
-- `sectionFor` and `findSection` of src/ir/ir.cpp.
use mini_tool_chain.Base.{
  ℕ, suc, ◌+◌, ◌≡◌, refl, ap, arith, true, false, List, [], ◌∷◌, some, get_elem?, Bool-cases, inl,
  inr,
}
use mini_tool_chain.Ir.{
  SectionKind, text_section, rodata_section, data_section, bss_section, kind_value, same_kind,
  Section, Module, new_section, section_in, section_for, find_in, find_section, count_items,
  count_sections, instruction_count,
}

same_kind_refl : (kind : SectionKind) → same_kind kind kind ≡ true
unfolding same_kind kind_value
same_kind_refl text_section = refl
same_kind_refl rodata_section = refl
same_kind_refl data_section = refl
same_kind_refl bss_section = refl

-- What is `at` places behind some others is at that index less their number.
section_in-found :
    (at : ℕ) (ss : List Section) (kind : SectionKind)
    → let r = section_in at ss kind in
      (k : ℕ) × (r.0 ≡ at + k)
      × (get_elem? r.1 k ≡ find_in r.1 kind)
      × ((s : Section) × (find_in r.1 kind ≡ some s))
unfolding section_in find_in new_section
section_in-found at [] kind = (
  0,
  omega arith,
  rw (same_kind_refl kind) refl,
  (new_section kind, rw (same_kind_refl kind) refl),
)
section_in-found at (s ∷ rest) kind = elim (Bool-cases (same_kind s.kind kind)) [
  | inl here ↦ (0, rw here (omega arith), rw (here, here) refl, (s, rw (here, here) refl))
  | inr other ↦
      let (k, index, found, there) = section_in-found (suc at) rest kind in
      (suc k, rw other (omega (arith, index)), rw (other, other) found, rw (other, other) there)
]

section_in-others :
    (at : ℕ) (ss : List Section) (kind other : SectionKind)
    → same_kind kind other ≡ false
    → find_in (section_in at ss kind).1 other ≡ find_in ss other
unfolding section_in find_in new_section
section_in-others at [] kind other h = rw h refl
section_in-others at (s ∷ rest) kind other h = elim (Bool-cases (same_kind s.kind kind)) [
  | inl here ↦ rw here refl
  | inr apart ↦ elim (Bool-cases (same_kind s.kind other)) [
    | inl found ↦ rw (apart, found) refl
    | inr passed ↦ rw (apart, passed) (section_in-others (suc at) rest kind other h)
  ]
]

section_in-count :
    (at : ℕ) (ss : List Section) (kind : SectionKind)
    → count_sections (section_in at ss kind).1 ≡ count_sections ss
unfolding section_in new_section count_sections count_items
section_in-count at [] kind = refl
section_in-count at (s ∷ rest) kind = elim (Bool-cases (same_kind s.kind kind)) [
  | inl here ↦ rw here refl
  | inr other ↦ rw other (ap (λ n. count_items s.items + n) (section_in-count (suc at) rest kind))
]

-- The index that `sectionFor` gives is that of the section that `findSection` then finds for the
-- kind, which there is; what it finds for any other kind, and the number of instructions, are as
-- before.
pub section_for-finds :
    (m : Module) (kind : SectionKind)
    → let r = section_for m kind in
      (get_elem? r.1.sections r.0 ≡ find_section r.1 kind)
      × ((s : Section) × (find_section r.1 kind ≡ some s))
      × ((other : SectionKind)
          → same_kind kind other ≡ false
          → find_section r.1 other ≡ find_section m other)
      × (instruction_count r.1 ≡ instruction_count m)
unfolding section_for find_section instruction_count
section_for-finds m kind =
    let (k, index, found, there) = section_in-found 0 m.sections kind in
    let place : (section_for m kind).0 ≡ k = omega (arith, index) in
    (
      rw place found,
      there,
      λ other h. section_in-others 0 m.sections kind other h,
      section_in-count 0 m.sections kind,
    )
