-- ===== src/Object/Relocation/Laws.antt =====
-- What applying a relocation does to the bytes of its section.
use mini_tool_chain.Base.{
  ℕ, ◌+◌, ◌-◌, ◌%◌, ◌≤◌, ◌<◌, ◌≡◌, ◌⊎◌, refl, sym, ap, ◌∙◌, arith, Bool, true, false, not, ◌||◌,
  List, Expected, ok, err, reject_if, length, get_or, ok-injective, >>=-eq-ok, ltb, ◌==◌,
}
use mini_tool_chain.Base.Int.{ℤ}
use mini_tool_chain.Word.{add64, to_u64}
use mini_tool_chain.ByteOrder.{store, fits_signed, fits_unsigned}
use mini_tool_chain.ByteOrder.Words.{length-store, store_outside}
use mini_tool_chain.Isa.Encoding.{
  Instruction, EncodeError, DecodeError, encode, decode_from, encode_into,
}
use mini_tool_chain.Object.Relocation.{
  RelocationType, abs32, abs64, pcrel32, imm48, pcrel48, Relocation, relocation_width,
  relocated_value, encoded_again, patched, patch_instruction, apply_value, apply_relocation,
}

-- A test that a success has passed.
reject_if-ok :
    {E A : Type 0} (b : Bool) (e : E) (rest : Expected E A) (a : A)
    → reject_if b e rest ≡ ok a
    → (b ≡ false) × (rest ≡ ok a)
reject_if-ok true e rest a h = cc h
reject_if-ok false e rest a h = (refl, h)

-- What a patched instruction word is.
pub record IsPatched (bytes : List ℕ) (offset : ℕ) (value : ℤ) (after : List ℕ) (i : Instruction)
    : Type 0 where
  pub decoded : decode_from bytes offset 8 ≡ ok i
  pub word : ℕ
  pub encoded : encode (record i { imm = value }) ≡ ok word
  pub written : after ≡ store 8 bytes offset word

encode_into-ok :
    (bytes : List ℕ) (offset : ℕ) (i : Instruction) (after : List ℕ)
    → encode_into bytes offset 8 i ≡ ok after
    → (w : ℕ) × (encode i ≡ ok w) × (after ≡ store 8 bytes offset w)
unfolding encode_into
encode_into-ok bytes offset i after h =
    let (w, encoded, written) = >>=-eq-ok (encode i) _ after h in
    (w, encoded, sym (ok-injective _ _ written))

encoded_again-ok :
    (r : Expected EncodeError (List ℕ)) (after : List ℕ) → encoded_again r ≡ ok after → r ≡ ok after
unfolding encoded_again
encoded_again-ok (ok bytes) after h = ap ok (ok-injective _ _ h)
encoded_again-ok (err e) after h = cc h

patched-ok :
    (bytes after : List ℕ) (offset : ℕ) (value : ℤ) (r : Expected DecodeError Instruction)
    → decode_from bytes offset 8 ≡ r
    → patched bytes offset 8 value r ≡ ok after
    → (i : Instruction) × IsPatched bytes offset value after i
unfolding patched
patched-ok bytes after offset value (err e) at h = cc h
patched-ok bytes after offset value (ok i) at h =
    let (w, encoded, written) =
      encode_into-ok bytes offset (record i { imm = value }) after (encoded_again-ok _ after h) in
    (i, record { decoded = at; word = w; encoded = encoded; written = written })

pub patch_instruction-ok :
    (bytes after : List ℕ) (offset : ℕ) (value : ℤ)
    → patch_instruction bytes offset 8 value ≡ ok after
    → (i : Instruction) × IsPatched bytes offset value after i
unfolding patch_instruction
patch_instruction-ok bytes after offset value h =
    patched-ok bytes after offset value (decode_from bytes offset 8) refl
      (reject_if-ok (not (fits_signed value 48)) _ _ after
        (reject_if-ok (not (offset % 8 == 0)) _ _ after h).1).1

-- Every success is one store into the field.
pub record IsStored (width : ℕ) (bytes : List ℕ) (offset : ℕ) (after : List ℕ) : Type 0 where
  pub stored : ℕ
  pub written : after ≡ store width bytes offset stored

patch_instruction-IsStored :
    (bytes after : List ℕ) (offset : ℕ) (value : ℤ)
    → patch_instruction bytes offset 8 value ≡ ok after
    → IsStored 8 bytes offset after
patch_instruction-IsStored bytes after offset value h =
    let p = (patch_instruction-ok bytes after offset value h).1 in
    record { stored = p.word; written = p.written }

apply_value-IsStored :
    (kind : RelocationType) (bytes after : List ℕ) (offset : ℕ) (value : ℤ)
    → apply_value kind bytes offset (relocation_width kind) value ≡ ok after
    → IsStored (relocation_width kind) bytes offset after
unfolding apply_value relocation_width
apply_value-IsStored abs32 bytes after offset value h = record {
  stored = _;
  written =
      sym (ok-injective _ _ (reject_if-ok (not (fits_unsigned (to_u64 value) 32)) _ _ after h).1);
}
apply_value-IsStored abs64 bytes after offset value h = record {
  stored = _;
  written = sym (ok-injective _ _ h);
}
apply_value-IsStored pcrel32 bytes after offset value h = record {
  stored = _;
  written = sym (ok-injective _ _ (reject_if-ok (not (fits_signed value 32)) _ _ after h).1);
}
apply_value-IsStored imm48 bytes after offset value h =
    patch_instruction-IsStored bytes after offset value h
apply_value-IsStored pcrel48 bytes after offset value h =
    patch_instruction-IsStored bytes after offset value h

-- The parts of a success, of any type.
module _ (bytes after : List ℕ) (base : ℕ) (r : Relocation) (symbol_address : ℕ) where
  pub apply_relocation-ok :
      apply_relocation bytes base r symbol_address ≡ ok after
      → (r.offset + relocation_width r.kind ≤ length bytes)
        × (apply_value r.kind bytes r.offset
              (relocation_width r.kind)
              (relocated_value r.kind symbol_address r.addend (add64 base r.offset))
            ≡ ok after)
  unfolding apply_relocation
  apply_relocation-ok h =
      let both =
        reject_if-ok
          (ltb (length bytes) r.offset || ltb (length bytes - r.offset) (relocation_width r.kind)) _
          _ after h in
      (ground (arith, both.0), both.1)

  -- A relocation that succeeds has its field inside the section, and leaves the section's length
  -- and every byte outside the field at its offset.
  pub apply_relocation-local :
      (j : ℕ)
      → apply_relocation bytes base r symbol_address ≡ ok after
      → (j < r.offset) ⊎ (r.offset + relocation_width r.kind ≤ j)
      → (r.offset + relocation_width r.kind ≤ length bytes)
        × (length after ≡ length bytes)
        × (get_or after j 0 ≡ get_or bytes j 0)
  apply_relocation-local j h outside =
      let parts = apply_relocation-ok h in
      let field = apply_value-IsStored r.kind bytes after r.offset _ parts.1 in
      (
        parts.0,
        ap length field.written
            ∙ length-store (relocation_width r.kind) bytes r.offset field.stored,
        ap (λ b. get_or b j 0) field.written
            ∙ store_outside (relocation_width r.kind) bytes r.offset field.stored j outside,
      )
