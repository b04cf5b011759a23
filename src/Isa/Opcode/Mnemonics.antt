-- ===== src/Isa/Opcode/Mnemonics.antt =====
-- A mnemonic that `findMnemonic` of src/isa/opcode.cpp finds is that of a row that `findOpcode`
-- finds.
use mini_tool_chain.Base.{
  ℕ, ◌≡◌, refl, subst, ◌&&◌, List, [], ◌∷◌, some, some-injective, All, Bool-cases, inl, inr, length,
  ◌==◌,
}
use mini_tool_chain.Isa.Opcode.{
  OpcodeInfo, all_opcodes, find_opcode, equal_upper, mnemonic_in, find_mnemonic,
}

-- The row is found under its own opcode.
abbrev IsRow : OpcodeInfo → Type 0
IsRow info = find_opcode info.opcode ≡ some info

all_opcodes-IsRow : All IsRow all_opcodes
unfolding find_opcode all_opcodes
all_opcodes-IsRow = (
  refl,
  (
    refl,
    (
      refl,
      (
        refl,
        (
          refl,
          (
            refl,
            (
              refl,
              (
                refl,
                (
                  refl,
                  (
                    refl,
                    (
                      refl,
                      (
                        refl,
                        (
                          refl,
                          (
                            refl,
                            (
                              refl,
                              (
                                refl,
                                (
                                  refl,
                                  (
                                    refl,
                                    (
                                      refl,
                                      (
                                        refl,
                                        (
                                          refl,
                                          (
                                            refl,
                                            (
                                              refl,
                                              (
                                                refl,
                                                (
                                                  refl,
                                                  (
                                                    refl,
                                                    (
                                                      refl,
                                                      (
                                                        refl,
                                                        (
                                                          refl,
                                                          (
                                                            refl,
                                                            (
                                                            refl,
                                                            (
                                                            refl,
                                                            (refl, (refl, (refl, (refl, tt)))),
                                                            ),
                                                            ),
                                                          ),
                                                        ),
                                                      ),
                                                    ),
                                                  ),
                                                ),
                                              ),
                                            ),
                                          ),
                                        ),
                                      ),
                                    ),
                                  ),
                                ),
                              ),
                            ),
                          ),
                        ),
                      ),
                    ),
                  ),
                ),
              ),
            ),
          ),
        ),
      ),
    ),
  ),
)

module _ (to_upper : ℕ → ℕ) where
  mnemonic_in-IsRow :
      (infos : List OpcodeInfo) (text : List ℕ) (info : OpcodeInfo)
      → All IsRow infos
      → mnemonic_in to_upper infos text ≡ some info
      → IsRow info
  unfolding mnemonic_in
  mnemonic_in-IsRow [] text info rows h = cc
  mnemonic_in-IsRow (x ∷ rest) text info rows h =
      elim (Bool-cases (length x.mnemonic == length text && equal_upper to_upper text x.mnemonic)) [
        | inl here ↦
            let same : x ≡ info = some-injective x info (rw here at h) in subst IsRow same rows.0
        | inr other ↦ mnemonic_in-IsRow rest text info rows.1 (rw other at h)
      ]

  pub find_mnemonic-IsRow :
      (text : List ℕ) (info : OpcodeInfo)
      → find_mnemonic to_upper text ≡ some info
      → find_opcode info.opcode ≡ some info
  unfolding find_mnemonic
  find_mnemonic-IsRow text info h = mnemonic_in-IsRow all_opcodes text info all_opcodes-IsRow h
