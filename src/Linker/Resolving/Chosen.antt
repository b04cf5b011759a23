-- ===== src/Linker/Resolving/Chosen.antt =====
-- Which definition a name stands for after `resolveSymbols` of src/linker/linker.cpp.
pub mod Defined
use package.text.Mathlib.Text.{◌==◌ as str_eq}
use mini_tool_chain.Base.{
  ℕ, suc, ◌≡◌, refl, ap, true, false, not, ◌&&◌, Option, none, some, List, [], ◌∷◌, ◌++◌, String,
  get_or, if◌then◌else◌, Bool-cases, inl, inr,
}
use mini_tool_chain.Object.Symbols.{Symbol, SymbolBinding, local, global, weak, extern}
use mini_tool_chain.Linker.Merging.{Region, unplaced, LaidOut}
use mini_tool_chain.Linker.Resolving.{
  Definition, is_local, is_global, is_weak, placed_address, definition_of,
}

-- The definitions of a name, in order.
pub candidates_of : List Region → LaidOut → ℕ → String → List Symbol → List Definition
candidates_of regions laid object name [] = []
candidates_of regions laid object name (s ∷ rest) =
    let d =
      definition_of s (placed_address regions (get_or laid.placements s.section unplaced) s.value)
        object in
    (if s.defined && (not (is_local s.binding) && str_eq s.name name) then d ∷ [] else [])
    ++ candidates_of regions laid object name rest

pub candidates : List Region → ℕ → String → List LaidOut → List Definition
candidates regions object name [] = []
candidates regions object name (laid ∷ rest) =
    candidates_of regions laid object name laid.object.symbols.symbols
    ++ candidates regions (suc object) name rest

-- The first strong definition.
first_global : List Definition → Option Definition
first_global [] = none
first_global (d ∷ rest) = if is_global d.binding then some d else first_global rest

or_weak : Option Definition → Definition → Definition
or_weak none d = d
or_weak (some strong) d = strong

-- The first definition, or the first strong one if the first is weak.
pub chosen : List Definition → Option Definition
chosen [] = none
chosen (d ∷ rest) = some (if is_weak d.binding then or_weak (first_global rest) d else d)

global-not_weak : (b : SymbolBinding) → is_global b ≡ true → is_weak b ≡ false
global-not_weak local h = cc
global-not_weak global h = refl
global-not_weak weak h = cc
global-not_weak extern h = cc

-- What the code leaves under a name when one more definition comes.
next : Option Definition → Definition → Definition
next none d = d
next (some e) d = if is_weak e.binding && is_global d.binding then d else e

first_global-next :
    (p : Definition) (ps : List Definition) (d : Definition)
    → is_weak p.binding ≡ true
    → or_weak (first_global (ps ++ (d ∷ []))) p ≡ next (some (or_weak (first_global ps) p)) d
unfolding first_global or_weak next
first_global-next p [] d h = elim (Bool-cases (is_global d.binding)) [
  | inl strong ↦ rw (strong, h) refl
  | inr other ↦ rw (other, h) refl
]
first_global-next p (x ∷ ps) d h = elim (Bool-cases (is_global x.binding)) [
  | inl strong ↦ rw (strong, global-not_weak x.binding strong) refl
  | inr other ↦ rw other (first_global-next p ps d h)
]

chosen-next :
    (past : List Definition) (d : Definition)
    → chosen (past ++ (d ∷ [])) ≡ some (next (chosen past) d)
unfolding chosen next
chosen-next [] d = elim (Bool-cases (is_weak d.binding)) [
  | inl h ↦ unfold first_global or_weak in rw h refl
  | inr h ↦ rw h refl
]
chosen-next (p ∷ ps) d = elim (Bool-cases (is_weak p.binding)) [
  | inl h ↦ rw h (ap some (first_global-next p ps d h))
  | inr h ↦ rw (h, h) refl
]
