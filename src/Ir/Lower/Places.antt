-- ===== src/Ir/Lower/Places.antt =====
-- Where the lowering puts its items: instructions only into .text, and no bytes into .bss.
use mini_tool_chain.Base.{
  ℕ, suc, ◌≡◌, refl, sym, ap, ◌∙◌, subst, Bool, true, false, List, [], ◌∷◌, ◌++◌, Option, none,
  some, some-injective, ◌==◌, All, All-append, Bool-cases, inl, inr,
}
use mini_tool_chain.Base.Int.{pos}
use mini_tool_chain.Word.{to_u64}
use mini_tool_chain.Ast.{Operand, data_directive_width, DirectiveNode}
use mini_tool_chain.Ir.{
  SectionKind, text_section, rodata_section, data_section, bss_section, kind_value, same_kind,
  SourceLocation, Item, instruction, label, bytes, symbol_value, space, align, Section, Module,
  SymbolRef, Label, new_section, section_in, section_for,
}
use mini_tool_chain.Ir.Lower.{
  invalid_section_reference, Lowerer, report, append_item, emit, if_initialisable, flush,
  value_bytes, is_symbol, data_loop, lower_data, enter_section, lower_space, with_first,
}

-- What may stand in a section of a kind.
unfoldable pub is_allowed : SectionKind → Item → Bool
is_allowed text_section item = true
is_allowed bss_section (bytes _ _) = false
is_allowed bss_section (symbol_value _ _ _) = false
is_allowed bss_section (space size fill _) = fill == 0
is_allowed kind (instruction _) = false
is_allowed kind item = true

abbrev pub IsPlaced : Section → Type 0
IsPlaced s = All (λ item. is_allowed s.kind item ≡ true) s.items

same_kind-eq : (a b : SectionKind) → same_kind a b ≡ true → a ≡ b
unfolding same_kind kind_value
same_kind-eq text_section text_section h = refl
same_kind-eq rodata_section rodata_section h = refl
same_kind-eq data_section data_section h = refl
same_kind-eq bss_section bss_section h = refl
same_kind-eq _ _ h = cc h

section_in-suc :
    (at : ℕ) (ss : List Section) (kind : SectionKind)
    → (suc (section_in at ss kind).0 ≡ (section_in (suc at) ss kind).0)
      × ((section_in at ss kind).1 ≡ (section_in (suc at) ss kind).1)
unfolding section_in
section_in-suc at [] kind = (refl, refl)
section_in-suc at (s ∷ rest) kind =
    let later = section_in-suc (suc at) rest kind in
    elim (Bool-cases (same_kind s.kind kind)) [
      | inl here ↦ rw here (refl, refl)
      | inr other ↦ rw other (later.0, ap (λ ss. s ∷ ss) later.1)
    ]

section_in-IsPlaced :
    (at : ℕ) (ss : List Section) (kind : SectionKind)
    → All IsPlaced ss
    → All IsPlaced (section_in at ss kind).1
unfolding section_in new_section
section_in-IsPlaced at [] kind h = (tt, tt)
section_in-IsPlaced at (s ∷ rest) kind h = elim (Bool-cases (same_kind s.kind kind)) [
  | inl here ↦ rw here h
  | inr other ↦ rw other (h.0, section_in-IsPlaced (suc at) rest kind h.1)
]

-- An item that its kind allows, behind the items of the section of that kind.
append_item-IsPlaced :
    (item : Item) (ss : List Section) (kind : SectionKind)
    → is_allowed kind item ≡ true
    → All IsPlaced ss
    → All IsPlaced (append_item (section_in 0 ss kind).0 item (section_in 0 ss kind).1)
unfolding section_in append_item new_section
append_item-IsPlaced item [] kind ok_here h = ((ok_here, tt), tt)
append_item-IsPlaced item (s ∷ rest) kind ok_here h = elim (Bool-cases (same_kind s.kind kind)) [
  | inl here ↦ rw here (
    All-append (λ i. is_allowed s.kind i ≡ true) s.items (item ∷ []) h.0
        (subst (λ k. is_allowed k item ≡ true) (sym (same_kind-eq s.kind kind here)) ok_here, tt),
    h.1,
  )
  | inr other ↦
      let shift = section_in-suc 0 rest kind in
      rw (other, ← shift.0, ← shift.1) (h.0, append_item-IsPlaced item rest kind ok_here h.1)
]

abbrev pub ArePlaced : Lowerer → Type 0
ArePlaced l = All IsPlaced l.module_.sections

pub emit-ArePlaced :
    (item : Item) (l : Lowerer)
    → is_allowed l.current_kind item ≡ true
    → ArePlaced l
    → ArePlaced (emit item l)
unfolding emit section_for
emit-ArePlaced item l ok_here h =
    append_item-IsPlaced item l.module_.sections l.current_kind ok_here h

emit-current_kind : (item : Item) (l : Lowerer) → (emit item l).current_kind ≡ l.current_kind
unfolding emit
emit-current_kind item l = refl

report-ArePlaced :
    (l : Lowerer) (at : SourceLocation)
    → ArePlaced l
    → ArePlaced (report l at invalid_section_reference)
unfolding report
report-ArePlaced l at h = h

-- Data is allowed anywhere but in .bss.
pub data_allowed :
    (kind : SectionKind) (bs : List ℕ) (width : ℕ) (symbol : SymbolRef) (at : SourceLocation)
    → same_kind kind bss_section ≡ false
    → (is_allowed kind (bytes bs at) ≡ true)
      × (is_allowed kind (symbol_value width symbol at) ≡ true)
unfolding is_allowed same_kind kind_value
data_allowed bss_section bs width symbol at h = cc h
data_allowed _ bs width symbol at h = (refl, refl)

pub label_allowed : (kind : SectionKind) (l : Label) → is_allowed kind (label l) ≡ true
unfolding is_allowed
label_allowed text_section l = refl
label_allowed rodata_section l = refl
label_allowed data_section l = refl
label_allowed bss_section l = refl

pub align_allowed :
    (kind : SectionKind) (n : ℕ) (at : SourceLocation) → is_allowed kind (align n at) ≡ true
unfolding is_allowed
align_allowed text_section n at = refl
align_allowed rodata_section n at = refl
align_allowed data_section n at = refl
align_allowed bss_section n at = refl

-- Space of zeros is allowed everywhere, and any outside .bss.
zeros_allowed :
    (kind : SectionKind) (size fill : ℕ) (at : SourceLocation)
    → (fill == 0) ≡ true
    → is_allowed kind (space size fill at) ≡ true
unfolding is_allowed
zeros_allowed bss_section size fill at h = h
zeros_allowed text_section size fill at h = refl
zeros_allowed rodata_section size fill at h = refl
zeros_allowed data_section size fill at h = refl

fill_allowed :
    (kind : SectionKind) (size fill : ℕ) (at : SourceLocation)
    → same_kind kind bss_section ≡ false
    → is_allowed kind (space size fill at) ≡ true
unfolding is_allowed same_kind kind_value
fill_allowed bss_section size fill at h = cc h
fill_allowed _ size fill at h = refl

flush-ArePlaced :
    (at : SourceLocation) (pending : List ℕ) (l : Lowerer)
    → same_kind l.current_kind bss_section ≡ false
    → ArePlaced l
    → ArePlaced (flush at pending l) × ((flush at pending l).current_kind ≡ l.current_kind)
unfolding flush emit
flush-ArePlaced at [] l kind h = (h, refl)
flush-ArePlaced at (b ∷ rest) l kind h = (
  emit-ArePlaced (bytes (b ∷ rest) at) l
      (data_allowed l.current_kind (b ∷ rest) 0 (record { name = ""; addend = pos 0 }) at kind).0 h,
  refl,
)

data_loop-ArePlaced :
    (os : List Operand) (width : ℕ) (at : SourceLocation) (pending : List ℕ) (l : Lowerer)
    → same_kind l.current_kind bss_section ≡ false
    → ArePlaced l
    → ArePlaced (data_loop os width at pending l)
unfolding data_loop
data_loop-ArePlaced [] width at pending l kind h = (flush-ArePlaced at pending l kind h).0
data_loop-ArePlaced (o ∷ rest) width at pending l kind h = elim (Bool-cases (is_symbol o.type)) [
  | inr literal ↦
      rw (literal, data_loop)
        (data_loop-ArePlaced rest width at (pending ++ value_bytes width 0 (to_u64 o.immediate)) l
          kind h)
  | inl symbolic ↦
      let flushed = flush-ArePlaced at pending l kind h in
      let reference : SymbolRef = record { name = o.symbol; addend = o.immediate } in
      let item : Item = symbol_value width reference o.location in
      let kind' : same_kind (flush at pending l).current_kind bss_section ≡ false =
        ap (λ k. same_kind k bss_section) flushed.1 ∙ kind in
      rw (symbolic, data_loop)
        (data_loop-ArePlaced rest width at [] (emit item (flush at pending l))
          (ap (λ k. same_kind k bss_section) (emit-current_kind item (flush at pending l)) ∙ kind')
          (emit-ArePlaced item (flush at pending l)
            (data_allowed (flush at pending l).current_kind [] width reference o.location kind').1
            flushed.0))
]

-- What is done only where bytes may be.
if_initialisable-ArePlaced :
    (l : Lowerer) (at : SourceLocation) (done : Lowerer)
    → ArePlaced l
    → (same_kind l.current_kind bss_section ≡ false → ArePlaced done)
    → ArePlaced (if_initialisable l at done)
if_initialisable-ArePlaced l at done h f =
    elim (Bool-cases (same_kind l.current_kind bss_section)) [
      | inl bss ↦ rw bss (report-ArePlaced l at h)
      | inr other ↦ rw other (f other)
    ]

pub lower_data-ArePlaced :
    (d : DirectiveNode) (l : Lowerer) → ArePlaced l → ArePlaced (lower_data d l)
unfolding lower_data
lower_data-ArePlaced d l h =
    if_initialisable-ArePlaced l d.location _ h
      (λ kind. data_loop-ArePlaced d.operands (data_directive_width d.type) d.location [] l kind h)

pub lower_space-ArePlaced :
    (d : DirectiveNode) (size fill : ℕ) (l : Lowerer)
    → ArePlaced l
    → ArePlaced (lower_space d size fill l)
unfolding lower_space
lower_space-ArePlaced d size fill l h = elim (Bool-cases (fill == 0)) [
  | inl zeros ↦ rw zeros (
      emit-ArePlaced (space size fill d.location) l
        (zeros_allowed l.current_kind size fill d.location zeros) h)
  | inr filled ↦ rw filled (
      if_initialisable-ArePlaced l d.location _ h (λ kind.
        emit-ArePlaced (space size fill d.location) l
          (fill_allowed l.current_kind size fill d.location kind) h))
]

pub enter_section-ArePlaced :
    (d : DirectiveNode) (kind : Option SectionKind) (l : Lowerer)
    → ArePlaced l
    → ArePlaced (enter_section d kind l)
unfolding enter_section section_for report
enter_section-ArePlaced d none l h = h
enter_section-ArePlaced d (some kind) l h = section_in-IsPlaced 0 l.module_.sections kind h

pub with_first-ArePlaced :
    (os : List Operand) (f : Operand → Lowerer) (l' : Lowerer)
    → ((o : Operand) → ArePlaced (f o))
    → with_first os f ≡ some l'
    → ArePlaced l'
unfolding with_first
with_first-ArePlaced [] f l' h made = cc made
with_first-ArePlaced (o ∷ rest) f l' h made = subst ArePlaced (some-injective (f o) l' made) (h o)

pub section_for-ArePlaced :
    (m : Module) (kind : SectionKind)
    → All IsPlaced m.sections
    → All IsPlaced (section_for m kind).1.sections
unfolding section_for
section_for-ArePlaced m kind h = section_in-IsPlaced 0 m.sections kind h
