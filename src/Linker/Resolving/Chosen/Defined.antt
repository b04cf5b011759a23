-- ===== src/Linker/Resolving/Chosen/Defined.antt =====
-- The first loop of `resolveSymbols` of src/linker/linker.cpp leaves under every name what is
-- chosen.
use package.text.Mathlib.Text.{◌==◌ as str_eq}
use package.text.Mathlib.TextEquality.{eq_iff}
use mini_tool_chain.Base.{
  ℕ, suc, ◌≡◌, refl, sym, ap, subst, ◌∙◌, arith, Bool, true, false, not, ◌&&◌, Option, none, some,
  List, [], ◌∷◌, ◌++◌, ++-nil, ++-assoc, String, leb, length, get_or, ok, ok-injective, >>=-eq-ok,
  if◌then◌else◌, Bool-cases, inl, inr,
}
use mini_tool_chain.Object.Symbols.{Symbol}
use mini_tool_chain.Linker.Merging.{Region, unplaced, LaidOut}
use mini_tool_chain.Linker.Resolving.{
  Definition, Resolution, no_resolution, find_definition, replace, is_local, is_global, is_weak,
  placed_address, address_of, definition_of, define_global, define, define_symbol, define_symbols,
  define_objects,
}
use mini_tool_chain.Linker.Resolving.Maps.{find_definition-emplace, find_definition-replace}
use mini_tool_chain.Linker.Resolving.Chosen.{candidates_of, candidates, chosen, next, chosen-next}

-- The names of the map stand for what is chosen of the definitions so far.
Stands : String → Resolution → List Definition → Type 0
Stands name r past = find_definition r.definitions name ≡ chosen past

define_global-find :
    (name key : String) (r r' : Resolution) (d : Definition) (found : Option Definition)
    → find_definition r.definitions key ≡ found
    → define_global r key d found ≡ ok r'
    → find_definition r'.definitions name
      ≡ (if str_eq key name then some (next found d) else find_definition r.definitions name)
unfolding define_global next
define_global-find name key r r' d none at e =
    ap (λ (q : Resolution). find_definition q.definitions name) (sym (ok-injective _ r' e))
    ∙ find_definition-emplace r.definitions key name d at
define_global-find name key r r' d (some x) at e =
    elim (Bool-cases (is_global x.binding && is_global d.binding)) [
      | inl both ↦ cc (rw both at e)
      | inr one ↦
          let result = rw one at e in
          ap (λ (q : Resolution). find_definition q.definitions name)
            (sym (ok-injective _ r' result))
          ∙ kept (is_weak x.binding && is_global d.binding)
    ]
  where
    kept :
        (stronger : Bool)
        → find_definition
            (if stronger
              then record r { definitions = replace r.definitions key d }
              else r).definitions
            name
          ≡ (if str_eq key name
              then some (if stronger then d else x)
              else find_definition r.definitions name)
    kept true = find_definition-replace r.definitions key name d x at
    kept false = ground (arith, eq_iff key name)

define-Stands :
    (name key : String) (r r' : Resolution) (past : List Definition) (d : Definition)
    → Stands name r past
    → define r key d ≡ ok r'
    → Stands name r' (past ++ (if not (is_local d.binding) && str_eq key name then d ∷ [] else []))
unfolding Stands define
define-Stands name key r r' past d h e = elim (Bool-cases (is_local d.binding)) [
  | inl hidden ↦
      let result = rw hidden at e in
      rw hidden (
        ap (λ (q : Resolution). find_definition q.definitions name) (sym (ok-injective _ r' result))
        ∙ h
        ∙ ap chosen (sym (++-nil past)))
  | inr shown ↦
      let result = rw shown at e in
      let found =
        define_global-find name key r r' d (find_definition r.definitions key) refl result in
      elim (Bool-cases (str_eq key name)) [
        | inl same ↦
            let here : find_definition r.definitions key ≡ chosen past =
              ap (find_definition r.definitions) ((eq_iff key name).0 same) ∙ h in
            let stood : find_definition r'.definitions name
                ≡ some (next (find_definition r.definitions key) d) =
              found
              ∙ ap
                  (λ b.
                    if b
                    then some (next (find_definition r.definitions key) d)
                    else find_definition r.definitions name)
                  same in
            rw (shown, same) (stood ∙ ap (λ o. some (next o d)) here ∙ sym (chosen-next past d))
        | inr apart ↦
            let stood : find_definition r'.definitions name ≡ find_definition r.definitions name =
              found
              ∙ ap
                  (λ b.
                    if b
                    then some (next (find_definition r.definitions key) d)
                    else find_definition r.definitions name)
                  apart in
            rw (shown, apart) (stood ∙ h ∙ ap chosen (sym (++-nil past)))
      ]
]

-- The address of a success is that of the placement.
address_of-ok :
    (regions : List Region) (laid : LaidOut) (s : Symbol) (address : ℕ)
    → address_of regions laid s ≡ ok address
    → placed_address regions (get_or laid.placements s.section unplaced) s.value ≡ address
unfolding address_of
address_of-ok regions laid s address h =
    elim (Bool-cases (leb (length laid.object.sections) s.section)) [
      | inl out ↦ cc (rw out at h)
      | inr within ↦ elim (Bool-cases (not (get_or laid.placements s.section unplaced).placed)) [
        | inl missing ↦ cc (rw (within, missing) at h)
        | inr there ↦ ok-injective _ address (rw (within, there) at h)
      ]
    ]

define_symbol-Stands :
    (regions : List Region) (laid : LaidOut) (object : ℕ) (name : String) (s : Symbol)
    (r r' : Resolution) (past : List Definition)
    → Stands name r past
    → define_symbol regions laid object r s ≡ ok r'
    → Stands name r' (past ++ candidates_of regions laid object name (s ∷ []))
unfolding define_symbol candidates_of address_of
define_symbol-Stands regions laid object name s r r' past h e = elim (Bool-cases s.defined) [
  | inl defined ↦
      let stored = rw defined at e in
      let (address, at, done) = >>=-eq-ok (address_of regions laid s) _ r' stored in
      let same = address_of-ok regions laid s address at in
      let stands = define-Stands name s.name r r' past (definition_of s address object) h done in
      simp (defined, same, ++-nil) stands
  | inr undefined ↦
      let result = rw undefined at e in
      simp (undefined, ++-nil) (subst (λ q. Stands name q past) (ok-injective r r' result) h)
]

define_symbols-Stands :
    (regions : List Region) (laid : LaidOut) (object : ℕ) (name : String) (ss : List Symbol)
    (r r' : Resolution) (past : List Definition)
    → Stands name r past
    → define_symbols regions laid object r ss ≡ ok r'
    → Stands name r' (past ++ candidates_of regions laid object name ss)
unfolding define_symbols candidates_of
define_symbols-Stands regions laid object name [] r r' past h e =
    subst (λ ds. Stands name r' ds) (sym (++-nil past))
      (subst (λ q. Stands name q past) (ok-injective r r' e) h)
define_symbols-Stands regions laid object name (s ∷ rest) r r' past h e =
    let (r1, first, more) = >>=-eq-ok (define_symbol regions laid object r s) _ r' e in
    let here = define_symbol-Stands regions laid object name s r r1 past h first in
    let all = define_symbols-Stands regions laid object name rest r1 r' _ here more in
    subst (λ ds. Stands name r' ds) (regrouped past s rest) all
  where
    regrouped :
        (past : List Definition) (s : Symbol) (rest : List Symbol)
        → (past ++ candidates_of regions laid object name (s ∷ []))
            ++ candidates_of regions laid object name rest
          ≡ past ++ candidates_of regions laid object name (s ∷ rest)
    regrouped past s rest = simp (++-assoc, ++-nil) refl

define_objects-Stands :
    (regions : List Region) (object : ℕ) (name : String) (laid : List LaidOut) (r r' : Resolution)
    (past : List Definition)
    → Stands name r past
    → define_objects regions object r laid ≡ ok r'
    → Stands name r' (past ++ candidates regions object name laid)
unfolding define_objects candidates
define_objects-Stands regions object name [] r r' past h e =
    subst (λ ds. Stands name r' ds) (sym (++-nil past))
      (subst (λ q. Stands name q past) (ok-injective r r' e) h)
define_objects-Stands regions object name (laid ∷ rest) r r' past h e =
    let (r1, first, more) =
      >>=-eq-ok (define_symbols regions laid object r laid.object.symbols.symbols) _ r' e in
    let here =
      define_symbols-Stands regions laid object name laid.object.symbols.symbols r r1 past h
        first in
    let all = define_objects-Stands regions (suc object) name rest r1 r' _ here more in
    subst (λ ds. Stands name r' ds)
      (++-assoc past (candidates_of regions laid object name laid.object.symbols.symbols)
        (candidates regions (suc object) name rest))
      all

-- After the first loop over the objects.
pub define_objects-chosen :
    (regions : List Region) (name : String) (laid : List LaidOut) (r : Resolution)
    → define_objects regions 0 no_resolution laid ≡ ok r
    → find_definition r.definitions name ≡ chosen (candidates regions 0 name laid)
unfolding Stands
define_objects-chosen regions name laid r e =
    define_objects-Stands regions 0 name laid no_resolution r [] empty e
  where
    empty : find_definition [] name ≡ chosen []
    empty = unfold find_definition chosen in refl
