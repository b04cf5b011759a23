-- ===== src/Optimizer/Passes/Layout.antt =====
-- `Optimizer::run` on a whole module: what it counts is what it removes, and it removes only
-- instructions.
use mini_tool_chain.Base.{
  ◌+◌, ◌%◌, ◌^◌, ◌≡◌, refl, sym, ap, ◌∙◌, arith, List, [], ◌∷◌, Option, none, some, some-injective,
  Bool-cases, Option-cases, inl, inr,
}
use mini_tool_chain.Ir.{
  Section, Module, same_kind, text_section, count_items, count_sections, instruction_count,
}
use mini_tool_chain.Optimizer.Cells.{OptLevel, o0, o1, OptStats}
use mini_tool_chain.Optimizer.Cells.Steps.{fixed_items, removals}
use mini_tool_chain.Optimizer.Passes.{
  iterate, optimize_section, visit_section, optimize_sections, counted, started, run,
}
use mini_tool_chain.Optimizer.Passes.Removal.{iterate-Conserved}

-- A section without its instructions.
abbrev pub outline : Section → Section
outline s = record s { items = fixed_items s.items }

abbrev pub outlines : List Section → List Section
outlines [] = []
outlines (s ∷ rest) = outline s ∷ outlines rest

record IsKept (s : Section) (stats : OptStats) (s' : Section) (stats' : OptStats) : Type 0 where
  outlined : outline s' ≡ outline s
  balanced :
      (count_items s'.items + removals stats') % 4294967296
      ≡ (count_items s.items + removals stats) % 4294967296
  before : stats'.instructions_before ≡ stats.instructions_before

optimize_section-IsKept :
    (s : Section) (stats : OptStats) (s' : Section) (stats' : OptStats)
    → optimize_section s stats ≡ some (s', stats')
    → IsKept s stats s' stats'
unfolding optimize_section
optimize_section-IsKept s stats s' stats' h = elim (Option-cases (iterate 8 s.items stats)) [
  | inl failed ↦ cc (rw (failed, optimize_section) at h)
  | inr ((items', stats₁), found) ↦
      let c = iterate-Conserved 8 s.items stats items' stats₁ found in
      let made : (record s { items = items' }, stats₁) ≡ (s', stats') =
        some-injective _ (s', stats') (rw (found, optimize_section) at h) in
      rw (← ap (λ p. p.0) made, ← ap (λ p. p.1) made)
        (record {
          outlined = ap (λ xs. record s { items = xs }) c.fixed;
          balanced = c.balanced;
          before = c.before;
        })
]

visit_section-IsKept :
    (s : Section) (stats : OptStats) (s' : Section) (stats' : OptStats)
    → visit_section s stats ≡ some (s', stats')
    → IsKept s stats s' stats'
unfolding visit_section
visit_section-IsKept s stats s' stats' h = elim (Bool-cases (same_kind s.kind text_section)) [
  | inl code ↦ optimize_section-IsKept s stats s' stats' (rw (code, visit_section) at h)
  | inr other ↦
      let made : (s, stats) ≡ (s', stats') =
        some-injective _ (s', stats') (rw (other, visit_section) at h) in
      record {
        outlined = ap (λ p. outline p.0) (sym made);
        balanced = ap (λ p. (count_items p.0.items + removals p.1) % 4294967296) (sym made);
        before = ap (λ p. p.1.instructions_before) (sym made);
      }
]

record AreKept (ss : List Section) (stats : OptStats) (ss' : List Section) (stats' : OptStats)
    : Type 0 where
  outlined : outlines ss' ≡ outlines ss
  balanced :
      (count_sections ss' + removals stats') % 4294967296
      ≡ (count_sections ss + removals stats) % 4294967296
  before : stats'.instructions_before ≡ stats.instructions_before

optimize_sections-AreKept :
    (ss : List Section) (stats : OptStats) (ss' : List Section) (stats' : OptStats)
    → optimize_sections ss stats ≡ some (ss', stats')
    → AreKept ss stats ss' stats'
unfolding optimize_sections count_sections
optimize_sections-AreKept [] stats ss' stats' h =
    let made : ([], stats) ≡ (ss', stats') = some-injective _ (ss', stats') h in
    record {
      outlined = ap (λ p. outlines p.0) (sym made);
      balanced = ap (λ p. (count_sections p.0 + removals p.1) % 4294967296) (sym made);
      before = ap (λ p. p.1.instructions_before) (sym made);
    }
optimize_sections-AreKept (s ∷ rest) stats ss' stats' h =
    elim (Option-cases (visit_section s stats)) [
      | inl failed ↦ cc (rw (failed, optimize_sections) at h)
      | inr ((s₁, stats₁), found) ↦ elim (Option-cases (optimize_sections rest stats₁)) [
        | inl failed ↦ cc (rw (found, failed, optimize_sections) at h)
        | inr ((rest', stats₂), found') ↦
            let made : (s₁ ∷ rest', stats₂) ≡ (ss', stats') =
              some-injective _ (ss', stats') (rw (found, found', optimize_sections) at h) in
            let one = visit_section-IsKept s stats s₁ stats₁ found in
            let others = optimize_sections-AreKept rest stats₁ rest' stats₂ found' in
            rw (← ap (λ p. p.0) made, ← ap (λ p. p.1) made)
              (record {
                outlined =
                    ap (λ t. t ∷ outlines rest') one.outlined
                    ∙ ap (λ ts. outline s ∷ ts) others.outlined;
                balanced = omega (arith, one.balanced, others.balanced);
                before = others.before ∙ one.before;
              })
      ]
    ]

-- What `run` comes to.
record Reported (m m' : Module) (stats : OptStats) : Type 0 where
  outlined : outlines m'.sections ≡ outlines m.sections
  before : stats.instructions_before ≡ instruction_count m
  after : stats.instructions_after ≡ instruction_count m'
  balanced :
      (stats.instructions_after + removals stats) % 4294967296
      ≡ stats.instructions_before % 4294967296

counted-Reported :
    (m m' : Module) (stats stats' : OptStats) (done : Option (List Section × OptStats))
    → ((ss' : List Section) (stats₁ : OptStats)
        → done ≡ some (ss', stats₁)
        → AreKept m.sections stats ss' stats₁)
    → stats.instructions_before ≡ instruction_count m
    → removals stats ≡ 0
    → counted m done ≡ some (m', stats')
    → Reported m m' stats'
unfolding counted instruction_count
counted-Reported m m' stats stats' none keeps start zeros h = cc h
counted-Reported m m' stats stats' (some (ss', stats₁)) keeps start zeros h =
    let made = some-injective _ (m', stats') h in
    let k = keeps ss' stats₁ refl in
    rw (← ap (λ p. p.0) made, ← ap (λ p. p.1) made)
      (record {
        outlined = k.outlined;
        before = k.before ∙ start;
        after = refl;
        balanced = omega (arith, k.balanced, k.before, start, zeros);
      })

run-Reported :
    (level : OptLevel) (m m' : Module) (stats : OptStats)
    → run level m ≡ some (m', stats)
    → Reported m m' stats
unfolding run
run-Reported o0 m m' stats h =
    counted-Reported m m' (started m) stats (some (m.sections, started m))
      (λ ss' stats₁ e.
        let made = some-injective (m.sections, started m) (ss', stats₁) e in
        record {
          outlined = ap (λ p. outlines p.0) (sym made);
          balanced = ap (λ p. (count_sections p.0 + removals p.1) % 4294967296) (sym made);
          before = ap (λ p. p.1.instructions_before) (sym made);
        })
      refl refl h
run-Reported o1 m m' stats h =
    counted-Reported m m' (started m) stats (optimize_sections m.sections (started m))
      (optimize_sections-AreKept m.sections (started m)) refl refl h

-- The instructions that are left and those that the four counters of removals report are together,
-- as a u32, those that there were; both are the counts of the module before and after.
pub run-instruction_count :
    (level : OptLevel) (m m' : Module) (stats : OptStats)
    → run level m ≡ some (m', stats)
    → (stats.instructions_before ≡ instruction_count m)
      × (stats.instructions_after ≡ instruction_count m')
      × ((stats.instructions_after + removals stats) % 2 ^ 32 ≡ stats.instructions_before % 2 ^ 32)
run-instruction_count level m m' stats h =
    let r = run-Reported level m m' stats h in (r.before, r.after, r.balanced)

-- Without their instructions, the sections of the module are what they were: every label and every
-- piece of data is there, in its order.
pub run-outlines :
    (level : OptLevel) (m m' : Module) (stats : OptStats)
    → run level m ≡ some (m', stats)
    → outlines m'.sections ≡ outlines m.sections
run-outlines level m m' stats h = (run-Reported level m m' stats h).outlined
