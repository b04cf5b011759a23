-- ===== src/Linker/Patching/Layout.antt =====
-- The relocations of src/linker/linker.cpp change bytes only: no region moves or changes its size.
use mini_tool_chain.Base.{
  ℕ, ◌+◌, ◌≡◌, refl, subst, ◌∙◌, arith, Bool, true, false, not, ◌||◌, leb, List, [], ◌∷◌, length,
  get_or, inr, Expected, ok, err, ok-injective, >>=-eq-ok, ◌>>=◌, reject_if, String,
}
use mini_tool_chain.Word.{add64}
use mini_tool_chain.Object.Symbols.{new_symbol}
use mini_tool_chain.Object.Relocation.{
  Relocation, RelocationError, apply_relocation, relocation_width,
}
use mini_tool_chain.Object.Relocation.Laws.{apply_relocation-local}
use mini_tool_chain.Base.Pointwise.{Pointwise, Pointwise-refl, Pointwise-trans, Pointwise-set_or}
use mini_tool_chain.Linker.Merging.{
  LinkError, dangling_relocation, relocation_not_laid_out, no_relocations_in, Region, Placement,
  unplaced, LaidOut,
}
use mini_tool_chain.Linker.Resolving.{Definitions, default_region}
use mini_tool_chain.Linker.Patching.{
  patched_region, relocate_placed, relocate, relocate_object, apply_relocations, reference_address,
}

pub record Patched (r r' : Region) : Type 0 where
  pub same_kind : r'.kind ≡ r.kind
  pub same_segment : r'.segment ≡ r.segment
  pub same_flags : r'.flags ≡ r.flags
  pub same_name : r'.name ≡ r.name
  pub same_base : r'.base ≡ r.base
  pub same_size : r'.size ≡ r.size
  pub same_fill : r'.zero_filled ≡ r.zero_filled
  pub same_length : length r'.contents ≡ length r.contents

Patched-refl : (r : Region) → Patched r r
Patched-refl r = record {
  same_kind = refl;
  same_segment = refl;
  same_flags = refl;
  same_name = refl;
  same_base = refl;
  same_size = refl;
  same_fill = refl;
  same_length = refl;
}

Patched-trans : (q r s : Region) → Patched q r → Patched r s → Patched q s
Patched-trans q r s g h = record {
  same_kind = h.same_kind ∙ g.same_kind;
  same_segment = h.same_segment ∙ g.same_segment;
  same_flags = h.same_flags ∙ g.same_flags;
  same_name = h.same_name ∙ g.same_name;
  same_base = h.same_base ∙ g.same_base;
  same_size = h.same_size ∙ g.same_size;
  same_fill = h.same_fill ∙ g.same_fill;
  same_length = h.same_length ∙ g.same_length;
}

abbrev pub AllPatched : List Region → List Region → Type 0
AllPatched = Pointwise Patched

AllPatched-refl : (rs : List Region) → AllPatched rs rs
AllPatched-refl rs = Pointwise-refl Patched Patched-refl rs

AllPatched-trans : (qs rs ss : List Region) → AllPatched qs rs → AllPatched rs ss → AllPatched qs ss
AllPatched-trans qs rs ss g h = Pointwise-trans Patched Patched-trans qs rs ss g h

-- A test that did not reject.
accepted :
    {E A : Type 0} (test : Bool) (e : E) (rest : Expected E A) (y : A)
    → reject_if test e rest ≡ ok y
    → rest ≡ ok y
accepted true e rest y h = cc
accepted false e rest y h = h

module _ (regions regions' : List Region) where
  patched_region-AllPatched :
      (at : ℕ) (merged : Relocation) (name : String) (address : ℕ)
      (result : Expected RelocationError (List ℕ))
      → let region = get_or regions at default_region in
        apply_relocation region.contents region.base merged address ≡ result
        → patched_region regions at region merged name result ≡ ok regions'
        → AllPatched regions regions'
  unfolding patched_region
  patched_region-AllPatched at merged name address (err e) applied h = cc
  patched_region-AllPatched at merged name address (ok bytes) applied h =
      let region = get_or regions at default_region in
      let (inside, long, bytes_kept) =
        apply_relocation-local region.contents bytes region.base merged address
          (merged.offset + relocation_width merged.kind) applied (inr (omega arith)) in
      let patched : Patched region (record region { contents = bytes }) = record {
        same_kind = refl;
        same_segment = refl;
        same_flags = refl;
        same_name = refl;
        same_base = refl;
        same_size = refl;
        same_fill = refl;
        same_length = long;
      } in
      subst (AllPatched regions) (ok-injective _ regions' h)
        (Pointwise-set_or Patched Patched-refl regions at default_region _ patched)

  relocate_placed-AllPatched :
      (ds : Definitions) (laid : LaidOut) (r : Relocation) (p : Placement)
      → relocate_placed regions ds laid r p (get_or regions p.region default_region) ≡ ok regions'
      → AllPatched regions regions'
  unfolding relocate_placed
  relocate_placed-AllPatched ds laid r p h =
      let region = get_or regions p.region default_region in
      let symbol = get_or laid.object.symbols.symbols r.symbol (new_symbol "") in
      let merged = record r { offset = add64 p.offset r.offset } in
      let patch : ℕ → Expected LinkError (List Region) = λ address.
        patched_region regions p.region region merged symbol.name
          (apply_relocation region.contents region.base merged address) in
      let reached = reference_address regions ds laid symbol >>= patch in
      let stored =
        accepted (not p.placed) relocation_not_laid_out
          (reject_if region.zero_filled (no_relocations_in region.name) reached) regions' h in
      let known =
        accepted region.zero_filled (no_relocations_in region.name) reached regions' stored in
      let (address, found, done) =
        >>=-eq-ok (reference_address regions ds laid symbol) patch regions' known in
      patched_region-AllPatched p.region merged symbol.name address _ refl done

  relocate-AllPatched :
      (ds : Definitions) (laid : LaidOut) (r : Relocation)
      → relocate regions ds laid r ≡ ok regions'
      → AllPatched regions regions'
  unfolding relocate
  relocate-AllPatched ds laid r h =
      let p = get_or laid.placements r.section unplaced in
      relocate_placed-AllPatched ds laid r p (
        accepted
          (leb (length laid.object.sections) r.section
            || leb (length laid.object.symbols.symbols) r.symbol)
          dangling_relocation
          (relocate_placed regions ds laid r p (get_or regions p.region default_region)) regions' h)

relocate_object-AllPatched :
    (regions regions' : List Region) (ds : Definitions) (laid : LaidOut) (rs : List Relocation)
    → relocate_object regions ds laid rs ≡ ok regions'
    → AllPatched regions regions'
unfolding relocate_object
relocate_object-AllPatched regions regions' ds laid [] h =
    subst (AllPatched regions) (ok-injective regions regions' h) (AllPatched-refl regions)
relocate_object-AllPatched regions regions' ds laid (r ∷ rest) h =
    let (regions1, first, next) = >>=-eq-ok (relocate regions ds laid r) _ regions' h in
    AllPatched-trans regions regions1 regions'
      (relocate-AllPatched regions regions1 ds laid r first)
      (relocate_object-AllPatched regions1 regions' ds laid rest next)

pub apply_relocations-AllPatched :
    (regions regions' : List Region) (ds : Definitions) (laid : List LaidOut)
    → apply_relocations regions ds laid ≡ ok regions'
    → AllPatched regions regions'
unfolding apply_relocations
apply_relocations-AllPatched regions regions' ds [] h =
    subst (AllPatched regions) (ok-injective regions regions' h) (AllPatched-refl regions)
apply_relocations-AllPatched regions regions' ds (laid ∷ rest) h =
    let (regions1, first, next) =
      >>=-eq-ok (relocate_object regions ds laid laid.object.relocations) _ regions' h in
    AllPatched-trans regions regions1 regions'
      (relocate_object-AllPatched regions regions1 ds laid laid.object.relocations first)
      (apply_relocations-AllPatched regions1 regions' ds rest next)
