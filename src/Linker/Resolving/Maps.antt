-- ===== src/Linker/Resolving/Maps.antt =====
-- The ordered map of definitions that src/linker/linker.cpp keeps.
use package.text.Mathlib.Text.{◌==◌ as str_eq}
use package.text.Mathlib.TextEquality.{eq_iff}
use mini_tool_chain.Base.{
  ◌≡◌, refl, arith, [], ◌∷◌, none, some, String, if◌then◌else◌, Bool-cases, inl, inr,
}
use mini_tool_chain.Linker.Resolving.{
  Definition, Definitions, str_ltb, find_definition, emplace, replace,
}

pub find_definition-emplace :
    (ds : Definitions) (key name : String) (d : Definition)
    → find_definition ds key ≡ none
    → find_definition (emplace ds key d) name
      ≡ (if str_eq key name then some d else find_definition ds name)
unfolding find_definition emplace
find_definition-emplace [] key name d h = refl
find_definition-emplace ((k, e) ∷ rest) key name d h = elim (Bool-cases (str_ltb key k)) [
  | inl before ↦ rw before refl
  | inr behind ↦ rw behind (
      ground (
        arith,
        eq_iff key name,
        eq_iff k name,
        eq_iff k key,
        find_definition-emplace rest key name d,
      ))
]

pub find_definition-replace :
    (ds : Definitions) (key name : String) (d e : Definition)
    → find_definition ds key ≡ some e
    → find_definition (replace ds key d) name
      ≡ (if str_eq key name then some d else find_definition ds name)
unfolding find_definition replace
find_definition-replace [] key name d e h = cc
find_definition-replace ((k, x) ∷ rest) key name d e h =
    ground (
      arith,
      eq_iff key name,
      eq_iff k name,
      eq_iff k key,
      find_definition-replace rest key name d e,
    )
