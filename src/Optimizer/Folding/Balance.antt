-- ===== src/Optimizer/Folding/Balance.antt =====
-- What the loop of constant folding keeps.
use mini_tool_chain.Base.{refl, Bool, List, [], ◌∷◌, Option, none, some, Option-cases, inl, inr}
use mini_tool_chain.Isa.Encoding as Isa
use mini_tool_chain.Ir.{Instruction}
use mini_tool_chain.Optimizer.Cells.{Tally, Cell, present, count_folded}
use mini_tool_chain.Optimizer.Cells.Steps.{
  Kept, Kept-same, Kept-front, IsPresent, present-IsPresent, Kept-replaced,
}
use mini_tool_chain.Optimizer.Folding.{
  ConstantMap, flags_dead_after, fold_instruction, refold, count_fold, fold_block,
}

refold-Kept :
    (c : Cell) (i : Instruction) (replaced : Option Isa.Instruction) (t : Tally)
    → IsPresent i c
    → Kept (c ∷ []) t (refold c i replaced ∷ []) (count_fold replaced t)
unfolding refold count_fold
refold-Kept c i none t p = Kept-same (c ∷ []) t
refold-Kept c i (some machine) t p =
    Kept-replaced c (refold c i (some machine)) i (record i { machine = machine }) t
      (count_folded t) p (record { stays = p.stays; holds = refl }) refl refl refl

pub fold_block-Kept :
    (live_out : Bool) (c : ConstantMap) (cells : List Cell) (t : Tally)
    → let m = fold_block live_out c cells t in Kept cells t m.0 m.1
unfolding fold_block
fold_block-Kept live_out c [] t = Kept-same [] t
fold_block-Kept live_out c (cell ∷ rest) t = elim (Option-cases (present cell)) [
  | inl skipped ↦
      rw (skipped, fold_block)
        (Kept-front (Kept-same (cell ∷ []) t) (fold_block-Kept live_out c rest t))
  | inr (i, found) ↦
      let folded = fold_instruction (flags_dead_after rest live_out) i c in
      rw (found, fold_block)
        (Kept-front (refold-Kept cell i folded.0 t (present-IsPresent cell i found))
          (fold_block-Kept live_out folded.1 rest (count_fold folded.0 t)))
]
