-- ===== src/Linker/Resolving/References.antt =====
-- What every name stands for after `resolveSymbols` of src/linker/linker.cpp, references included.
use package.text.Mathlib.Text.{◌==◌ as str_eq}
use package.text.Mathlib.TextEquality.{eq_iff}
use mini_tool_chain.Base.{
  ℕ, suc, ◌≡◌, refl, sym, ap, ◌∙◌, Bool, true, false, not, ◌&&◌, Option, none, some, List, [], ◌∷◌,
  String, ok, ok-injective, >>=-eq-ok, if◌then◌else◌, Bool-cases, inl, inr,
}
use mini_tool_chain.Object.Symbols.{Symbol}
use mini_tool_chain.Linker.Merging.{Region, LaidOut}
use mini_tool_chain.Linker.Resolving.{
  Definition, Definitions, Resolution, no_resolution, find_definition, is_weak, weak_reference,
  require, require_symbol, require_symbols, require_objects, define_objects, resolve_symbols,
}
use mini_tool_chain.Linker.Resolving.Maps.{find_definition-emplace}
use mini_tool_chain.Linker.Resolving.Chosen.{chosen, candidates}
use mini_tool_chain.Linker.Resolving.Chosen.Defined.{define_objects-chosen}

pub or_else : Option Definition → Option Definition → Option Definition
or_else none other = other
or_else (some d) other = some d

or_else_assoc : (a b c : Option Definition) → or_else (or_else a b) c ≡ or_else a (or_else b c)
unfolding or_else
or_else_assoc none b c = refl
or_else_assoc (some d) b c = refl

or_else-none : (a : Option Definition) → or_else a none ≡ a
unfolding or_else
or_else-none none = refl
or_else-none (some d) = refl

-- The definition of address 0 for a reference to the name by this symbol.
reference_of : ℕ → String → Symbol → Option Definition
reference_of object name s =
    if not s.defined && str_eq s.name name then some (weak_reference s object) else none

-- For the first reference to the name.
references_of : ℕ → String → List Symbol → Option Definition
references_of object name [] = none
references_of object name (s ∷ rest) =
    or_else (reference_of object name s) (references_of object name rest)

pub references : ℕ → String → List LaidOut → Option Definition
references object name [] = none
references object name (laid ∷ rest) =
    or_else (references_of object name laid.object.symbols.symbols)
      (references (suc object) name rest)

require-find :
    (ds ds' : Definitions) (s : Symbol) (object : ℕ) (name : String) (found : Option Definition)
    → find_definition ds s.name ≡ found
    → require ds s object found ≡ ok ds'
    → find_definition ds' name
      ≡ or_else
          (find_definition ds name)
          (if str_eq s.name name then some (weak_reference s object) else none)
unfolding require or_else
require-find ds ds' s object name (some d) at h =
    ap (λ q. find_definition q name) (sym (ok-injective ds ds' h))
    ∙ elim (Bool-cases (str_eq s.name name)) [
      | inl same ↦
          let here = ap (find_definition ds) (sym ((eq_iff s.name name).0 same)) ∙ at in
          rw here refl
      | inr apart ↦ rw apart (sym (or_else-none (find_definition ds name)))
    ]
require-find ds ds' s object name none at h = elim (Bool-cases (is_weak s.binding)) [
  | inl weak_one ↦
      let result = rw weak_one at h in
      ap (λ q. find_definition q name) (sym (ok-injective _ ds' result))
      ∙ find_definition-emplace ds s.name name (weak_reference s object) at
      ∙ elim (Bool-cases (str_eq s.name name)) [
        | inl same ↦
            let here = ap (find_definition ds) (sym ((eq_iff s.name name).0 same)) ∙ at in
            rw (same, here) refl
        | inr apart ↦ rw apart (sym (or_else-none (find_definition ds name)))
      ]
  | inr strong ↦ cc (rw strong at h)
]

require_symbol-find :
    (ds ds' : Definitions) (s : Symbol) (object : ℕ) (name : String)
    → require_symbol ds s object ≡ ok ds'
    → find_definition ds' name ≡ or_else (find_definition ds name) (reference_of object name s)
unfolding require_symbol reference_of
require_symbol-find ds ds' s object name h = by_defined s.defined refl
  where
    by_defined :
        (b : Bool)
        → s.defined ≡ b
        → find_definition ds' name
          ≡ or_else
              (find_definition ds name)
              (if not b && str_eq s.name name then some (weak_reference s object) else none)
    by_defined true e =
        let result : ok ds ≡ ok ds' =
          ap (λ b. if b then ok ds else require ds s object (find_definition ds s.name)) (sym e)
          ∙ h in
        ap (λ q. find_definition q name) (sym (ok-injective ds ds' result))
        ∙ sym (or_else-none (find_definition ds name))
    by_defined false e =
        require-find ds ds' s object name (find_definition ds s.name) refl (
          ap (λ b. if b then ok ds else require ds s object (find_definition ds s.name)) (sym e)
          ∙ h)

require_symbols-find :
    (ds ds' : Definitions) (ss : List Symbol) (object : ℕ) (name : String)
    → require_symbols ds ss object ≡ ok ds'
    → find_definition ds' name ≡ or_else (find_definition ds name) (references_of object name ss)
unfolding require_symbols references_of
require_symbols-find ds ds' [] object name h =
    ap (λ q. find_definition q name) (sym (ok-injective ds ds' h))
    ∙ sym (or_else-none (find_definition ds name))
require_symbols-find ds ds' (s ∷ rest) object name h =
    let (ds1, first, more) = >>=-eq-ok (require_symbol ds s object) _ ds' h in
    require_symbols-find ds1 ds' rest object name more
    ∙ ap (λ o. or_else o (references_of object name rest))
        (require_symbol-find ds ds1 s object name first)
    ∙ or_else_assoc (find_definition ds name) (reference_of object name s)
        (references_of object name rest)

require_objects-find :
    (ds ds' : Definitions) (object : ℕ) (laid : List LaidOut) (name : String)
    → require_objects ds object laid ≡ ok ds'
    → find_definition ds' name ≡ or_else (find_definition ds name) (references object name laid)
unfolding require_objects references
require_objects-find ds ds' object [] name h =
    ap (λ q. find_definition q name) (sym (ok-injective ds ds' h))
    ∙ sym (or_else-none (find_definition ds name))
require_objects-find ds ds' object (l ∷ rest) name h =
    let symbols = l.object.symbols.symbols in
    let (ds1, first, more) = >>=-eq-ok (require_symbols ds symbols object) _ ds' h in
    require_objects-find ds1 ds' (suc object) rest name more
    ∙ ap (λ o. or_else o (references (suc object) name rest))
        (require_symbols-find ds ds1 symbols object name first)
    ∙ or_else_assoc (find_definition ds name) (references_of object name symbols)
        (references (suc object) name rest)

-- After a resolution that succeeds every name stands for its first strong definition if the first
-- one is weak, for the first one otherwise; where nothing defines it, for address 0 if an object
-- refers to it; and for nothing if none does. Addresses are those of the sections' placements.
pub resolve_symbols-chosen :
    (regions : List Region) (laid : List LaidOut) (r : Resolution) (name : String)
    → resolve_symbols regions laid ≡ ok r
    → find_definition r.definitions name
      ≡ or_else (chosen (candidates regions 0 name laid)) (references 0 name laid)
unfolding resolve_symbols
resolve_symbols-chosen regions laid r name h =
    let (r1, first, h1) = >>=-eq-ok (define_objects regions 0 no_resolution laid) _ r h in
    let (ds, second, result) = >>=-eq-ok (require_objects r1.definitions 0 laid) _ r h1 in
    ap (λ (q : Resolution). find_definition q.definitions name) (sym (ok-injective _ r result))
    ∙ require_objects-find r1.definitions ds 0 laid name second
    ∙ ap (λ o. or_else o (references 0 name laid))
        (define_objects-chosen regions name laid r1 first)
