-- ===== src/Optimizer/Peephole/Balance.antt =====
-- What the passes over a whole section keep.
use mini_tool_chain.Base.{
  ℕ, ◌≡◌, refl, ap, ◌∙◌, arith, Bool, true, false, ◌&&◌, List, [], ◌∷◌, Option, none, some,
  some-injective, ◌==◌, Bool-cases, Option-cases, inl, inr,
}
use mini_tool_chain.Ir.{Item, Instruction, instruction, label}
use mini_tool_chain.Optimizer.Cells.{
  Tally, Cell, count_unreachable, count_peepholes, kept, dropped, present,
}
use mini_tool_chain.Optimizer.Cells.Steps.{
  Kept, Kept-trans, Kept-between, Kept-behind, present-IsPresent, Kept-same, Kept-front, IsPresent,
  Kept-dropped, Kept-replaced,
}
use mini_tool_chain.Optimizer.Peephole.{
  mark_unreachable, both_present, is_push, is_pop, push_pop, consumed, move_through, peephole,
  jumps_to_next, drop_jumps,
}

abbrev pub cells_of : List Item → List Cell
cells_of [] = []
cells_of (item ∷ rest) = kept item ∷ cells_of rest

pub mark_unreachable-Kept :
    (reachable : Bool) (items : List Item) (t : Tally)
    → let m = mark_unreachable reachable items t in Kept (cells_of items) t m.0 m.1
unfolding mark_unreachable
mark_unreachable-Kept reachable [] t = Kept-same [] t
mark_unreachable-Kept reachable (label l ∷ rest) t =
    Kept-front (Kept-same _ t) (mark_unreachable-Kept true rest t)
mark_unreachable-Kept true (instruction i ∷ rest) t =
    Kept-front (Kept-same _ t) (mark_unreachable-Kept _ rest t)
mark_unreachable-Kept false (instruction i ∷ rest) t =
    Kept-front
      (Kept-dropped (kept (instruction i)) i t (count_unreachable t)
        (record { stays = refl; holds = refl }) refl refl (omega arith))
      (mark_unreachable-Kept false rest (count_unreachable t))
mark_unreachable-Kept reachable (item ∷ rest) t =
    Kept-front (Kept-same _ t) (mark_unreachable-Kept reachable rest t)

both_present-IsPresent :
    (first second : Cell) (a b : Instruction)
    → both_present first second ≡ some (a, b)
    → IsPresent a first × IsPresent b second
unfolding both_present
both_present-IsPresent first second a b h = elim (Option-cases (present first)) [
  | inl missing ↦ cc (rw (missing, both_present) at h)
  | inr (x, found) ↦ elim (Option-cases (present second)) [
    | inl missing ↦ cc (rw (found, missing, both_present) at h)
    | inr (y, found') ↦
        let pairs : (x, y) ≡ (a, b) =
          some-injective (x, y) (a, b) (rw (found, found', both_present) at h) in
        (
          present-IsPresent first a (found ∙ ap (λ p. some p.0) pairs),
          present-IsPresent second b (found' ∙ ap (λ p. some p.1) pairs),
        )
  ]
]

push_pop-IsPresent :
    (first second : Cell) (a b : Instruction)
    → push_pop first second ≡ some (a, b)
    → IsPresent a first × IsPresent b second
unfolding push_pop
push_pop-IsPresent first second a b h = elim (Option-cases (both_present first second)) [
  | inl missing ↦ cc (rw (missing, push_pop) at h)
  | inr ((x, y), found) ↦ elim (Bool-cases (is_push x.machine.opcode && is_pop y.machine.opcode)) [
    | inl matches ↦
        both_present-IsPresent first second a b (found ∙ rw (found, matches, push_pop) at h)
    | inr other ↦ cc (rw (found, other, push_pop) at h)
  ]
]

-- What the loop makes of a pair.
consumed-Kept :
    (first second first' : Cell) (n : ℕ) (t : Tally)
    → consumed first second ≡ some (first', n)
    → Kept (first ∷ second ∷ []) t (first' ∷ dropped second ∷ []) (count_peepholes n t)
unfolding consumed
consumed-Kept first second first' n t h = elim (Option-cases (push_pop first second)) [
  | inl missing ↦ cc (rw (missing, consumed) at h)
  | inr ((a, b), found) ↦
      let both = push_pop-IsPresent first second a b found in
      elim (Bool-cases (a.machine.dst == b.machine.dst)) [
        | inl equal ↦
            let made : (dropped first, 2) ≡ (first', n) =
              some-injective _ (first', n) (rw (found, equal, consumed) at h) in
            rw (← ap (λ p. p.0) made, ← ap (λ p. p.1) made)
              (Kept-front
                (Kept-dropped first a t (count_peepholes 1 t) both.0 refl refl (omega arith))
                (Kept-dropped second b (count_peepholes 1 t) (count_peepholes 2 t) both.1 refl refl
                  (omega arith)))
        | inr different ↦
            let moved : Cell = record first { item = instruction (move_through a b) } in
            let made : (moved, 1) ≡ (first', n) =
              some-injective _ (first', n) (rw (found, different, consumed) at h) in
            rw (← ap (λ p. p.0) made, ← ap (λ p. p.1) made)
              (Kept-front
                (Kept-replaced first moved a (move_through a b) t (record t { changed = true })
                  both.0 (record { stays = both.0.stays; holds = refl }) refl refl refl)
                (Kept-dropped second b (record t { changed = true }) (count_peepholes 1 t) both.1
                  refl refl (omega arith)))
      ]
]

abbrev pub held : Option Cell → List Cell → List Cell
held none cells = cells
held (some first) cells = first ∷ cells

pub peephole-Kept :
    (hold : Option Cell) (cells : List Cell) (t : Tally)
    → let m = peephole hold cells t in Kept (held hold cells) t m.0 m.1
unfolding peephole
peephole-Kept none [] t = Kept-same [] t
peephole-Kept (some first) [] t = Kept-same (first ∷ []) t
peephole-Kept none (second ∷ rest) t = peephole-Kept (some second) rest t
peephole-Kept (some first) (second ∷ rest) t = elim (Option-cases (consumed first second)) [
  | inl no_pair ↦
      rw (no_pair, peephole)
        (Kept-front (Kept-same (first ∷ []) t) (peephole-Kept (some second) rest t))
  | inr ((first', n), found) ↦
      rw (found, peephole)
        (Kept-trans (Kept-between [] rest (consumed-Kept first second first' n t found)) (
          Kept-behind (first' ∷ dropped second ∷ [])
            (peephole-Kept none rest (count_peepholes n t))))
]

jumps_to_next-IsPresent :
    (c : Cell) (rest : List Cell) → jumps_to_next c rest ≡ true → (i : Instruction) × IsPresent i c
unfolding jumps_to_next
jumps_to_next-IsPresent c rest h = elim (Option-cases (present c)) [
  | inl missing ↦ cc (rw (missing, jumps_to_next) at h)
  | inr (i, found) ↦ (i, present-IsPresent c i found)
]

pub drop_jumps-Kept :
    (cells : List Cell) (t : Tally) → let m = drop_jumps cells t in Kept cells t m.0 m.1
unfolding drop_jumps
drop_jumps-Kept [] t = Kept-same [] t
drop_jumps-Kept (c ∷ rest) t = elim (Bool-cases (jumps_to_next c rest)) [
  | inl gone ↦
      let (i, p) = jumps_to_next-IsPresent c rest gone in
      rw (gone, drop_jumps)
        (Kept-front (Kept-dropped c i t (count_peepholes 1 t) p refl refl (omega arith))
          (drop_jumps-Kept rest (count_peepholes 1 t)))
  | inr stays ↦ rw (stays, drop_jumps) (Kept-front (Kept-same (c ∷ []) t) (drop_jumps-Kept rest t))
]
