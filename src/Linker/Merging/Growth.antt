-- ===== src/Linker/Merging/Growth.antt =====
-- A region grows by a section behind its bytes: `resize` and `insert` of src/linker/linker.cpp.
use mini_tool_chain.Base.{
  ℕ, ◌+◌, ◌-◌, ◌≤◌, ◌≡◌, refl, sym, ap, ◌∙◌, arith, true, false, List, [], ◌++◌, if◌then◌else◌,
  length, take, drop, replicate, length-append, length-replicate, ++-nil, ++-assoc, Bool-cases, inl,
  inr,
}
use mini_tool_chain.Word.{add64}
use mini_tool_chain.Linker.Merging.Bytes.{
  length-resize, resize_longer, resize-append, take-drop-prefix, take-drop-nil, no_elements,
}
use mini_tool_chain.Object.Files.{Section}
use mini_tool_chain.Linker.Merging.{Region, region_size, resize, grown}

-- A region within its limits, whose bytes are as many as its size says, or none in .bss.
pub record IsRegion (r : Region) : Type 0 where
  pub bounded : r.size ≤ region_size
  pub stored : length r.contents ≡ (if r.zero_filled then 0 else r.size)

-- A later state of a region has the bytes of the earlier one in front.
pub record Grows (r r' : Region) : Type 0 where
  pub same_kind : r'.kind ≡ r.kind
  pub same_segment : r'.segment ≡ r.segment
  pub same_flags : r'.flags ≡ r.flags
  pub same_name : r'.name ≡ r.name
  pub same_base : r'.base ≡ r.base
  pub same_fill : r'.zero_filled ≡ r.zero_filled
  pub larger : r.size ≤ r'.size
  pub behind : List ℕ
  pub extended : r'.contents ≡ r.contents ++ behind

pub Grows-refl : (r : Region) → Grows r r
Grows-refl r = record {
  same_kind = refl;
  same_segment = refl;
  same_flags = refl;
  same_name = refl;
  same_base = refl;
  same_fill = refl;
  larger = omega arith;
  behind = [];
  extended = sym (++-nil r.contents);
}

pub Grows-trans : (q r s : Region) → Grows q r → Grows r s → Grows q s
Grows-trans q r s g h = record {
  same_kind = h.same_kind ∙ g.same_kind;
  same_segment = h.same_segment ∙ g.same_segment;
  same_flags = h.same_flags ∙ g.same_flags;
  same_name = h.same_name ∙ g.same_name;
  same_base = h.same_base ∙ g.same_base;
  same_fill = h.same_fill ∙ g.same_fill;
  larger = omega arith;
  behind = g.behind ++ h.behind;
  extended =
      h.extended ∙ ap (λ bs. bs ++ h.behind) g.extended ∙ ++-assoc q.contents g.behind h.behind;
}

-- A region that grew by a section at an offset behind its bytes.
module _ (r : Region) (s : Section) (offset : ℕ) (valid : IsRegion r) (at : r.size ≤ offset)
    (fits : offset + s.size ≤ region_size) where
  no_wrap : add64 offset s.size ≡ offset + s.size
  no_wrap = omega arith

  padding : List ℕ
  padding = replicate (offset - r.size) 0

  -- The bytes where they are stored: those before, zeros up to the offset, and the section's.
  stored_bytes :
      r.zero_filled ≡ false
      → (length r.contents ≡ r.size)
        × ((grown r s offset).contents ≡ r.contents ++ (padding ++ resize s.contents s.size))
        × (length (r.contents ++ padding) ≡ offset)
  unfolding grown padding
  stored_bytes h = (long, contents, full)
    where
      long : length r.contents ≡ r.size
      long = valid.stored ∙ ap (λ b. if b then 0 else r.size) h

      full : length (r.contents ++ replicate (offset - r.size) 0) ≡ offset
      full = omega (
        arith,
        long,
        length-append r.contents (replicate (offset - r.size) 0),
        length-replicate {A = ℕ} (offset - r.size) 0,
      )

      padded : resize r.contents offset ≡ r.contents ++ replicate (offset - r.size) 0
      padded =
          resize_longer r.contents offset (omega (arith, long))
          ∙ ap (λ k. r.contents ++ replicate (offset - k) 0) long

      contents :
          (grown r s offset).contents
          ≡ r.contents ++ (replicate (offset - r.size) 0 ++ resize s.contents s.size)
      contents =
          ap
            (λ b.
              if b
              then r.contents
              else resize (resize r.contents offset ++ s.contents) (add64 offset s.size))
            h
          ∙ ap (λ bs. resize (bs ++ s.contents) (add64 offset s.size)) padded
          ∙ resize-append (r.contents ++ replicate (offset - r.size) 0) s.contents
              (add64 offset s.size) s.size (omega (arith, full))
          ∙ ++-assoc r.contents (replicate (offset - r.size) 0) (resize s.contents s.size)

  no_bytes :
      r.zero_filled ≡ true → ((grown r s offset).contents ≡ r.contents) × (length r.contents ≡ 0)
  unfolding grown
  no_bytes h = (
    ap
        (λ b.
          if b
          then r.contents
          else resize (resize r.contents offset ++ s.contents) (add64 offset s.size))
        h,
    valid.stored ∙ ap (λ b. if b then 0 else r.size) h,
  )

  length-grown :
      length (grown r s offset).contents ≡ (if r.zero_filled then 0 else (grown r s offset).size)
  unfolding grown padding
  length-grown = elim (Bool-cases r.zero_filled) [
    | inl h ↦
        let (same, none_there) = no_bytes h in
        ap length same ∙ none_there ∙ ap (λ b. if b then 0 else add64 offset s.size) (sym h)
    | inr h ↦
        let (long, contents, full) = stored_bytes h in
        let total : length
              (r.contents ++ (replicate (offset - r.size) 0 ++ resize s.contents s.size))
            ≡ add64 offset s.size =
          omega (
            arith,
            ap length
                (++-assoc r.contents (replicate (offset - r.size) 0) (resize s.contents s.size)),
            length-append (r.contents ++ replicate (offset - r.size) 0) (resize s.contents s.size),
            full,
            length-resize s.contents s.size,
          ) in
        ap length contents ∙ total ∙ ap (λ b. if b then 0 else add64 offset s.size) (sym h)
  ]

  pub grown-IsRegion : IsRegion (grown r s offset)
  unfolding grown
  grown-IsRegion = record { bounded = omega arith; stored = length-grown }

  extension : (bs : List ℕ) × ((grown r s offset).contents ≡ r.contents ++ bs)
  extension = elim (Bool-cases r.zero_filled) [
    | inl h ↦ ([], (no_bytes h).0 ∙ sym (++-nil r.contents))
    | inr h ↦ (padding ++ resize s.contents s.size, (stored_bytes h).1)
  ]

  pub grown-Grows : Grows r (grown r s offset)
  unfolding grown
  grown-Grows = record {
    same_kind = refl;
    same_segment = refl;
    same_flags = refl;
    same_name = refl;
    same_base = refl;
    same_fill = refl;
    larger = omega arith;
    behind = extension.0;
    extended = extension.1;
  }

  -- The section's bytes stand at the offset.
  pub grown-bytes :
      take s.size (drop offset (grown r s offset).contents)
      ≡ (if r.zero_filled then [] else resize s.contents s.size)
  grown-bytes = elim (Bool-cases r.zero_filled) [
    | inl h ↦
        let (same, none_there) = no_bytes h in
        ap (λ bs. take s.size (drop offset bs)) (same ∙ no_elements r.contents none_there)
        ∙ take-drop-nil offset s.size
        ∙ ap (λ b. if b then [] else resize s.contents s.size) (sym h)
    | inr h ↦
        let (long, contents, full) = stored_bytes h in
        ap (λ bs. take s.size (drop offset bs))
          (contents
            ∙ sym (++-assoc r.contents padding (resize s.contents s.size))
            ∙ ap (λ bs. (r.contents ++ padding) ++ bs) (sym (++-nil (resize s.contents s.size))))
        ∙ take-drop-prefix (r.contents ++ padding) (resize s.contents s.size) [] offset s.size
            (sym full) (sym (length-resize s.contents s.size))
        ∙ ap (λ b. if b then [] else resize s.contents s.size) (sym h)
  ]

  pub grown-inside : offset + s.size ≤ (grown r s offset).size
  unfolding grown
  grown-inside = omega arith
