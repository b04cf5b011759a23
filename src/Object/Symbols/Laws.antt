-- ===== src/Object/Symbols/Laws.antt =====
-- The index of a symbol table is a search through its symbols, and an addition renumbers none of
-- them.
use package.text.Mathlib.Text.{◌==◌ as str_eq}
use package.text.Mathlib.TextEquality.{eq_iff}
use package.text.Mathlib.TextPositions.{eq_refl}
use mini_tool_chain.Base.{
  ℕ, zero, suc, ◌+◌, ◌%◌, ◌^◌, ◌<◌, ◌≡◌, refl, sym, ap, ◌∙◌, arith, true, Option, none, some, List,
  [], ◌∷◌, ◌++◌, String, length, get_elem?, set, if◌then◌else◌, Bool-cases, Option-cases, inl, inr,
}
use mini_tool_chain.Object.Symbols.{
  Symbol, SymbolTable, empty_table, index_of, added, add_symbol, symbol_at, find_symbol,
}

-- The first position, counted from `start`, of a symbol of this name.
pub position_from : ℕ → List Symbol → String → Option ℕ
position_from start [] name = none
position_from start (s ∷ rest) name =
    if str_eq s.name name then some start else position_from (suc start) rest name

-- The index answers as a search through the symbols does.
abbrev pub IsIndexed : SymbolTable → Type 0
IsIndexed t = (name : String) → index_of t.index name ≡ position_from 0 t.symbols name

pub empty_table-IsIndexed : IsIndexed empty_table
unfolding index_of position_from
empty_table-IsIndexed name = refl

-- What is found stands at its position and has the name.
position_from-found :
    (start : ℕ) (ss : List Symbol) (name : String) (position : ℕ)
    → position_from start ss name ≡ some position
    → (k : ℕ) × (position ≡ start + k)
      × (s : Symbol) × (get_elem? ss k ≡ some s)
      × (str_eq s.name name ≡ true)
unfolding position_from
position_from-found start [] name position h = cc
position_from-found start (s ∷ rest) name position h = elim (Bool-cases (str_eq s.name name)) [
  | inl here ↦ (0, ground arith, s, refl, here)
  | inr apart ↦
      let later : position_from (suc start) rest name ≡ some position = rw apart at h in
      let (k, e, x, there, same) = position_from-found (suc start) rest name position later in
      (suc k, omega (arith, e), x, there, same)
]

position_from-set :
    (start : ℕ) (ss : List Symbol) (k : ℕ) (old s : Symbol) (name : String)
    → get_elem? ss k ≡ some old
    → old.name ≡ s.name
    → position_from start (set ss k s) name ≡ position_from start ss name
unfolding position_from
position_from-set start [] k old s name h same = cc
position_from-set start (x ∷ rest) zero old s name h same =
    let e : x.name ≡ s.name = cc in
    ap (λ n. if str_eq n name then some start else position_from (suc start) rest name) (sym e)
position_from-set start (x ∷ rest) (suc k) old s name h same =
    ap (λ r. if str_eq x.name name then some start else r)
      (position_from-set (suc start) rest k old s name h same)

position_from-append :
    (start : ℕ) (ss : List Symbol) (s : Symbol) (name : String)
    → position_from start ss s.name ≡ none
    → position_from start (ss ++ (s ∷ [])) name
      ≡ (if str_eq s.name name then some (start + length ss) else position_from start ss name)
unfolding position_from
position_from-append start [] s name h = ground arith
position_from-append start (x ∷ rest) s name h = ground (
  arith,
  eq_iff s.name name,
  eq_iff x.name name,
  eq_iff x.name s.name,
  position_from-append (suc start) rest s name,
)

pub found_symbol :
    (t : SymbolTable) (name : String) (position : ℕ)
    → IsIndexed t
    → index_of t.index name ≡ some position
    → (old : Symbol) × (get_elem? t.symbols position ≡ some old) × (old.name ≡ name)
found_symbol t name position indexed known =
    let (k, e, old, there, same) =
      position_from-found 0 t.symbols name position (sym (indexed name) ∙ known) in
    let at : position ≡ k = omega (arith, e) in
    (old, ap (get_elem? t.symbols) at ∙ there, (eq_iff old.name name).0 same)

get_elem?-set_self :
    (ss : List Symbol) (k : ℕ) (old s : Symbol)
    → get_elem? ss k ≡ some old
    → get_elem? (set ss k s) k ≡ some s
get_elem?-set_self [] k old s h = cc
get_elem?-set_self (x ∷ rest) zero old s h = refl
get_elem?-set_self (x ∷ rest) (suc k) old s h = get_elem?-set_self rest k old s h

get_elem?-append_last :
    (ss : List Symbol) (s : Symbol) → get_elem? (ss ++ (s ∷ [])) (length ss) ≡ some s
get_elem?-append_last [] s = refl
get_elem?-append_last (x ∷ rest) s = get_elem?-append_last rest s

pub or_else : Option ℕ → Option ℕ → Option ℕ
or_else (some position) other = some position
or_else none other = other

-- What an addition leaves: an indexed table, with the symbol found, at its old position if it had
-- one.
abbrev pub IsAdded : SymbolTable → Symbol → SymbolTable × ℕ → Type 0
IsAdded t s r =
    IsIndexed r.0
    × (find_symbol r.0 s.name ≡ some s)
    × (get_elem? r.0.symbols r.1 ≡ some s)
    × ((name : String)
        → index_of r.0.index name
          ≡ or_else (index_of t.index name) (if str_eq s.name name then some r.1 else none))

-- The index of a table with a known symbol is as it was, and a new name gets the new position.
kept_index :
    (t : SymbolTable) (s : Symbol) (position : ℕ) (name : String)
    → index_of t.index s.name ≡ some position
    → index_of t.index name
      ≡ or_else (index_of t.index name) (if str_eq s.name name then some position else none)
unfolding or_else
kept_index t s position name known = elim (Option-cases (index_of t.index name)) [
  | inl missing ↦ rw missing (ground (arith, eq_iff s.name name))
  | inr (p, found) ↦ rw found refl
]

new_index :
    (t : SymbolTable) (s : Symbol) (position : ℕ) (name : String)
    → index_of t.index s.name ≡ none
    → (if str_eq s.name name then some position else index_of t.index name)
      ≡ or_else (index_of t.index name) (if str_eq s.name name then some position else none)
unfolding or_else
new_index t s position name known = elim (Option-cases (index_of t.index name)) [
  | inl missing ↦ rw missing refl
  | inr (p, found) ↦ rw found (ground (arith, eq_iff s.name name))
]

added-IsAdded :
    (t : SymbolTable) (s : Symbol) (known : Option ℕ)
    → length t.symbols < 2 ^ 32
    → IsIndexed t
    → index_of t.index s.name ≡ known
    → IsAdded t s (added t s known)
unfolding added find_symbol symbol_at index_of or_else
added-IsAdded t s (some position) room indexed known =
    let (old, there, same) = found_symbol t s.name position indexed known in
    let stored = get_elem?-set_self t.symbols position old s there in
    (
      λ name. indexed name ∙ sym (position_from-set 0 t.symbols position old s name there same),
      rw known stored,
      stored,
      λ name. kept_index t s position name known,
    )
added-IsAdded t s none room indexed known =
    let at : length t.symbols % 2 ^ 32 ≡ length t.symbols = omega arith in
    let last = get_elem?-append_last t.symbols s in
    (
      λ name.
          ap (λ p. if str_eq s.name name then some p else index_of t.index name) at
          ∙ ap (λ r. if str_eq s.name name then some (length t.symbols) else r) (indexed name)
          ∙ ground (arith, position_from-append 0 t.symbols s name, indexed s.name),
      rw (eq_refl s.name, at) last,
      rw at last,
      λ name. new_index t s (length t.symbols % 2 ^ 32) name known,
    )

-- A symbol put into an indexed table whose number of symbols fits 32 bits is found under its name
-- and at the returned index, every name known before keeps its index, and the table stays indexed.
pub add_symbol-IsAdded :
    (t : SymbolTable) (s : Symbol)
    → length t.symbols < 2 ^ 32
    → IsIndexed t
    → IsAdded t s (add_symbol t s)
unfolding add_symbol
add_symbol-IsAdded t s room indexed = added-IsAdded t s (index_of t.index s.name) room indexed refl
