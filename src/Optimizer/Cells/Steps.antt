-- ===== src/Optimizer/Cells/Steps.antt =====
-- What every pass over cells keeps: the items that are no instructions, and the balance of what is
-- counted and what is removed.
use mini_tool_chain.Base.{
  ℕ, ◌+◌, ◌%◌, ◌≡◌, refl, sym, ap, ◌∙◌, arith, true, false, List, [], ◌∷◌, ◌++◌, if◌then◌else◌,
  some, some-injective, Bool-cases, inl, inr, ++-nil,
}
use mini_tool_chain.Ir.{Item, Instruction, instruction, is_instruction, count_items}
use mini_tool_chain.Optimizer.Cells.{
  OptStats, Tally, Cell, dropped, kept_items, instruction_of, present,
}

-- The items that are no instructions.
pub fixed_items : List Item → List Item
unfolding is_instruction
fixed_items [] = []
fixed_items (item ∷ rest) =
    if is_instruction item then fixed_items rest else item ∷ fixed_items rest

-- The instructions that the counters say were removed.
abbrev pub removals : OptStats → ℕ
removals s =
    s.identities_eliminated + s.dead_stores_removed + s.unreachable_removed + s.peepholes_applied

-- Instructions that are left and counted, as a u32.
abbrev pub balance : List Item → OptStats → ℕ
balance items s = (count_items items + removals s) % 4294967296

pub record Kept (cells : List Cell) (t : Tally) (cells' : List Cell) (t' : Tally) : Type 0 where
  pub fixed : fixed_items (kept_items cells') ≡ fixed_items (kept_items cells)
  pub balanced : balance (kept_items cells') t'.stats ≡ balance (kept_items cells) t.stats
  pub before : t'.stats.instructions_before ≡ t.stats.instructions_before
  pub still : t'.changed ≡ false → (t.changed ≡ false) × (cells' ≡ cells)

pub Kept-same : (cells : List Cell) (t : Tally) → Kept cells t cells t
Kept-same cells t = record { fixed = refl; balanced = refl; before = refl; still = λ e. (e, refl) }

pub Kept-trans :
    {cells cells' cells'' : List Cell} {t t' t'' : Tally}
    → Kept cells t cells' t'
    → Kept cells' t' cells'' t''
    → Kept cells t cells'' t''
Kept-trans a b = record {
  fixed = b.fixed ∙ a.fixed;
  balanced = b.balanced ∙ a.balanced;
  before = b.before ∙ a.before;
  still =
      λ e. let later = b.still e in let before = a.still later.0 in (before.0, later.1 ∙ before.1);
}

pub fixed-append : (xs ys : List Item) → fixed_items (xs ++ ys) ≡ fixed_items xs ++ fixed_items ys
unfolding fixed_items is_instruction
fixed-append [] ys = refl
fixed-append (x ∷ xs) ys = elim (Bool-cases (is_instruction x)) [
  | inl yes_it ↦ rw yes_it (fixed-append xs ys)
  | inr no_it ↦ rw no_it (ap (λ zs. x ∷ zs) (fixed-append xs ys))
]

pub count-append : (xs ys : List Item) → count_items (xs ++ ys) ≡ count_items xs + count_items ys
unfolding count_items is_instruction
count-append [] ys = omega arith
count-append (x ∷ xs) ys = omega (arith, count-append xs ys)

pub kept-append : (xs ys : List Cell) → kept_items (xs ++ ys) ≡ kept_items xs ++ kept_items ys
kept-append [] ys = refl
kept-append (x ∷ xs) ys = elim (Bool-cases x.removed) [
  | inl gone ↦ rw gone (kept-append xs ys)
  | inr stays ↦ rw stays (ap (λ zs. x.item ∷ zs) (kept-append xs ys))
]

-- A change of some cells, with others before and behind them.
pub Kept-between :
    (before behind : List Cell) {cells cells' : List Cell} {t t' : Tally}
    → Kept cells t cells' t'
    → Kept (before ++ (cells ++ behind)) t (before ++ (cells' ++ behind)) t'
Kept-between before behind {cells} {cells'} {t} {t'} k = record {
  fixed =
      fixed_around cells' ∙ ap (λ zs. outer ++ (zs ++ inner)) k.fixed ∙ sym (fixed_around cells);
  balanced = omega (arith, count_around cells, count_around cells', k.balanced);
  before = k.before;
  still = λ e. let same = k.still e in (same.0, ap (λ zs. before ++ (zs ++ behind)) same.1);
}
  where
    outer : List Item
    outer = fixed_items (kept_items before)

    inner : List Item
    inner = fixed_items (kept_items behind)

    fixed_around :
        (zs : List Cell)
        → fixed_items (kept_items (before ++ (zs ++ behind)))
          ≡ outer ++ (fixed_items (kept_items zs) ++ inner)
    fixed_around zs =
        rw
          (
            kept-append before (zs ++ behind),
            kept-append zs behind,
            fixed-append (kept_items before) (kept_items zs ++ kept_items behind),
            fixed-append (kept_items zs) (kept_items behind),
          )
          refl

    count_around :
        (zs : List Cell)
        → count_items (kept_items (before ++ (zs ++ behind)))
          ≡ count_items (kept_items before)
            + (count_items (kept_items zs) + count_items (kept_items behind))
    count_around zs =
        rw
          (
            kept-append before (zs ++ behind),
            kept-append zs behind,
            count-append (kept_items before) (kept_items zs ++ kept_items behind),
            count-append (kept_items zs) (kept_items behind),
          )
          refl

pub Kept-behind :
    (before : List Cell) {cells cells' : List Cell} {t t' : Tally}
    → Kept cells t cells' t'
    → Kept (before ++ cells) t (before ++ cells') t'
Kept-behind before {cells} {cells'} k =
    rw (++-nil cells, ++-nil cells') at (Kept-between before [] k)

-- A cell that a pass looks at, and the rest.
pub Kept-front :
    {c c' : Cell} {cells cells' : List Cell} {t t₁ t' : Tally}
    → Kept (c ∷ []) t (c' ∷ []) t₁
    → Kept cells t₁ cells' t'
    → Kept (c ∷ cells) t (c' ∷ cells') t'
Kept-front {c} {c'} {cells} {cells'} here later =
    Kept-trans (Kept-between [] cells here) (Kept-behind (c' ∷ []) later)

-- A cell of an instruction that no pass has removed.
pub record IsPresent (i : Instruction) (c : Cell) : Type 0 where
  pub stays : c.removed ≡ false
  pub holds : c.item ≡ instruction i

instruction_of-eq :
    (item : Item) (i : Instruction) → instruction_of item ≡ some i → item ≡ instruction i
instruction_of-eq (instruction j) i h = ap instruction (some-injective j i h)
instruction_of-eq _ i h = cc h

pub present-IsPresent : (c : Cell) (i : Instruction) → present c ≡ some i → IsPresent i c
present-IsPresent c i h = elim (Bool-cases c.removed) [
  | inl gone ↦ cc (rw gone at h)
  | inr stays ↦ record { stays = stays; holds = instruction_of-eq c.item i (rw stays at h) }
]

kept_one : (c : Cell) (i : Instruction) → IsPresent i c → kept_items (c ∷ []) ≡ instruction i ∷ []
kept_one c i p = rw (p.stays, p.holds) refl

-- Its removal, which is counted.
pub Kept-dropped :
    (c : Cell) (i : Instruction) (t t₁ : Tally)
    → IsPresent i c
    → t₁.changed ≡ true
    → t₁.stats.instructions_before ≡ t.stats.instructions_before
    → removals t₁.stats % 4294967296 ≡ (1 + removals t.stats) % 4294967296
    → Kept (c ∷ []) t (dropped c ∷ []) t₁
unfolding count_items fixed_items is_instruction
Kept-dropped c i t t₁ p changed before counted = record {
  fixed = rw (kept_one c i p) refl;
  balanced = rw (kept_one c i p) (omega (arith, counted));
  before = before;
  still = λ e. cc (changed, e);
}

-- Its replacement by another instruction, which no counter of removals sees.
pub Kept-replaced :
    (c c' : Cell) (i i' : Instruction) (t t₁ : Tally)
    → IsPresent i c
    → IsPresent i' c'
    → t₁.changed ≡ true
    → t₁.stats.instructions_before ≡ t.stats.instructions_before
    → removals t₁.stats ≡ removals t.stats
    → Kept (c ∷ []) t (c' ∷ []) t₁
unfolding count_items fixed_items is_instruction
Kept-replaced c c' i i' t t₁ p p' changed before counted = record {
  fixed = rw (kept_one c i p, kept_one c' i' p') refl;
  balanced = rw (kept_one c i p, kept_one c' i' p') (omega (arith, counted));
  before = before;
  still = λ e. cc (changed, e);
}
