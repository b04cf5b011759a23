-- ===== src/Assembler/Emission/Sizes.antt =====
-- The two passes of src/assembler/assembler.cpp agree: a section gets as many bytes as its size
-- says.
use mini_tool_chain.Base.{
  ℕ, ◌+◌, ◌^◌, ◌<◌, ◌≡◌, refl, sym, ap, ◌∙◌, arith, List, [], ◌∷◌, length, replicate, length-append,
  length-replicate, Expected, ok, err, ok-injective, >>=-eq-ok,
}
use mini_tool_chain.ByteOrder.{store}
use mini_tool_chain.ByteOrder.Words.{length-store}
use mini_tool_chain.Isa.Encoding.{EncodeError, encode, encode_into, instruction_size}
use mini_tool_chain.Isa.Encoding as Isa
use mini_tool_chain.Ir.{
  SourceLocation, Item, instruction, label, bytes, symbol_value, space, align, Instruction,
}
use mini_tool_chain.Linker.Merging.Bytes.{length-resize}
use mini_tool_chain.Assembler.Layout.{Assembly, align_up, Placed, place_item, place_items}
use mini_tool_chain.Assembler.Emission.{Emitted, encoded, emit_instruction, emit_item, emit_items}

-- No buffer on the way has 2^64 bytes.
abbrev pub IsBounded : ℕ → List Item → Emitted → Type 0
IsBounded section [] e = Unit {0}
IsBounded section (item ∷ rest) e =
    (length (emit_item section item e).contents < 2 ^ 64)
    × IsBounded section rest (emit_item section item e)

length-encode_into :
    (room written : List ℕ) (offset : ℕ) (i : Isa.Instruction)
    → encode_into room offset instruction_size i ≡ ok written
    → length written ≡ length room
unfolding encode_into
length-encode_into room written offset i h =
    let (word, stored, result) = >>=-eq-ok (encode i) (λ w. ok (store 8 room offset w)) written h in
    ap length (sym (ok-injective _ written result)) ∙ length-store 8 room offset word

length-encoded :
    (section offset : ℕ) (at : SourceLocation) (room : List ℕ) (a : Assembly) (i : Isa.Instruction)
    (result : Expected EncodeError (List ℕ))
    → encode_into room offset instruction_size i ≡ result
    → length (encoded section offset at room a result).contents ≡ length room
unfolding encoded
length-encoded section offset at room a i (err e) h = refl
length-encoded section offset at room a i (ok written) h =
    length-encode_into room written offset i h

length-emit_instruction :
    (section : ℕ) (i : Instruction) (e : Emitted)
    → length (emit_instruction section i e).contents ≡ length e.contents + instruction_size
unfolding emit_instruction
length-emit_instruction section i e =
    length-encoded section (length e.contents) i.location _ _ _ _ refl
    ∙ length-append e.contents (replicate instruction_size 0)

-- One item.
place_item-emit_item :
    (section index : ℕ) (item : Item) (p : Placed) (e : Emitted)
    → p.offset ≡ length e.contents
    → length (emit_item section item e).contents < 2 ^ 64
    → (place_item index item p).offset ≡ length (emit_item section item e).contents
unfolding place_item emit_item
place_item-emit_item section index (label l) p e at room = at
place_item-emit_item section index (instruction i) p e at room =
    omega (arith, at, room, length-emit_instruction section i e)
place_item-emit_item section index (bytes b l) p e at room =
    omega (arith, at, room, length-append e.contents b)
place_item-emit_item section index (symbol_value width s l) p e at room = omega (
  arith,
  at,
  room,
  length-append e.contents (replicate width 0),
  length-replicate {A = ℕ} width 0,
)
place_item-emit_item section index (space size fill l) p e at room = omega (
  arith,
  at,
  room,
  length-append e.contents (replicate size fill),
  length-replicate {A = ℕ} size fill,
)
place_item-emit_item section index (align alignment l) p e at room =
    ap (λ n. align_up n alignment) at ∙ sym (length-resize e.contents _)

-- The offset that the first pass reaches behind the items of a section is the number of bytes that
-- the second pass emits for them, whether or not the instructions are encoded, where no buffer
-- reaches 2^64 bytes.
pub place_items-emit_items :
    (section index : ℕ) (items : List Item) (p : Placed) (e : Emitted)
    → p.offset ≡ length e.contents
    → IsBounded section items e
    → (place_items index items p).offset ≡ length (emit_items section items e).contents
unfolding place_items emit_items
place_items-emit_items section index [] p e at room = at
place_items-emit_items section index (item ∷ rest) p e at room =
    place_items-emit_items section index rest (place_item index item p) (emit_item section item e)
      (place_item-emit_item section index item p e at room.0) room.1
