-- ===== src/Executable/Valid.antt =====
-- What `validate` of src/executable/executable.cpp accepts.
use mini_tool_chain.Base.{
  ℕ, ◌+◌, ◌%◌, ◌^◌, ◌≤◌, ◌<◌, ◌≡◌, ◌⊎◌, refl, arith, Bool, true, false, List, [], ◌∷◌, Option,
  Expected, ok, err, ◌↔◌, All, length, reject_if, ◌&&◌, ◌-◌, leb, ltb, inl, inr, Bool-cases, ◌>>◌,
  ◌==◌, not,
}
use mini_tool_chain.Word.{IsU64}
use mini_tool_chain.Executable
use mini_tool_chain.Executable.{
  Executable, Segment, DebugEntry, SegmentType, text, rodata, data_segment, bss, flag_write,
  flag_exec, find_segment, ValidationError, validate, check_segment, check_segments, check_against,
  check_overlaps, check_entry_segment, check_debug, is_bss, is_empty,
}

-- A segment by itself.
pub record IsValidSegment (s : Segment) : Type 0 where
  pub not_empty : 0 < s.virtual_size
  pub enough : length s.contents ≤ s.virtual_size
  pub no_wrap : s.virtual_address + s.virtual_size < 2 ^ 64
  pub bss_empty : s.kind ≡ bss → length s.contents ≡ 0
  pub write_xor_exec :
      Executable.has_flag s.flags flag_exec ≡ true → Executable.has_flag s.flags flag_write ≡ false

-- Two segments share no address.
abbrev pub Apart : Segment → Segment → Type 0
Apart a b =
    (a.virtual_address + a.virtual_size ≤ b.virtual_address)
    ⊎ (b.virtual_address + b.virtual_size ≤ a.virtual_address)

abbrev pub AllApart : List Segment → Type 0
AllApart [] = Unit {0}
AllApart (s ∷ rest) = All (Apart s) rest × AllApart rest

-- A test passed, and what comes after it.
reject_if_iff :
    {E : Type 0} (b : Bool) (e : E) (rest : Expected E (Unit {0}))
    → (reject_if b e rest ≡ ok tt) ↔ ((b ≡ false) × (rest ≡ ok tt))
reject_if_iff true e rest = (λ h. cc h, λ h. cc (h.0))
reject_if_iff false e rest = (λ h. (refl, h), λ h. h.1)

then_iff :
    {E : Type 0} (first rest : Expected E (Unit {0}))
    → ((first >> rest) ≡ ok tt) ↔ ((first ≡ ok tt) × (rest ≡ ok tt))
then_iff (ok _) rest = (λ h. (refl, h), λ h. h.1)
then_iff (err e) rest = (λ h. cc h, λ h. cc (h.0))

is_bss-bss : (k : SegmentType) → is_bss k ≡ true → k ≡ bss
unfolding is_bss
is_bss-bss text h = cc h
is_bss-bss rodata h = cc h
is_bss-bss data_segment h = cc h
is_bss-bss bss h = refl

bss-is_bss : (k : SegmentType) → k ≡ bss → is_bss k ≡ true
unfolding is_bss
bss-is_bss k h = rw h refl

check_segment_iff :
    (s : Segment) → IsU64 s.virtual_size → (check_segment s ≡ ok tt) ↔ IsValidSegment s
unfolding check_segment
check_segment_iff s u = (
  λ h. record {
    not_empty = ground arith;
    enough = ground arith;
    no_wrap = ground arith;
    bss_empty = λ k. ground (arith, bss-is_bss s.kind k);
    write_xor_exec = λ x. ground arith;
  },
  λ v.
      let empty : is_bss s.kind ≡ true → length s.contents ≡ 0 =
        λ b. v.bss_empty (is_bss-bss s.kind b) in
      ground (arith, v.not_empty, v.enough, v.no_wrap, v.write_xor_exec, empty),
)

check_segments_iff :
    (ss : List Segment)
    → All (λ s. IsU64 s.virtual_size) ss
    → (check_segments ss ≡ ok tt) ↔ All IsValidSegment ss
unfolding check_segments
check_segments_iff [] u = (λ h. tt, λ h. refl)
check_segments_iff (s ∷ rest) u = (
  λ h.
      let both = (then_iff (check_segment s) (check_segments rest)).0 h in
      ((check_segment_iff s u.0).0 both.0, (check_segments_iff rest u.1).0 both.1),
  λ v.
      (then_iff (check_segment s) (check_segments rest)).1
        ((check_segment_iff s u.0).1 v.0, (check_segments_iff rest u.1).1 v.1),
)

-- Two valid segments, as the test of the inner loop sees them.
check_against_iff :
    (a : Segment) (ss : List Segment)
    → IsValidSegment a
    → All IsValidSegment ss
    → (check_against a ss ≡ ok tt) ↔ All (Apart a) ss
unfolding check_against
check_against_iff a [] v vs = (λ h. tt, λ h. refl)
check_against_iff a (b ∷ rest) v vs = (
  λ h.
      let both = (reject_if_iff _ _ (check_against a rest)).0 h in
      (ground (arith, both.0, v.no_wrap, vs.0.no_wrap), (check_against_iff a rest v vs.1).0 both.1),
  λ d.
      (reject_if_iff _ _ (check_against a rest)).1
        (ground (arith, d.0, v.no_wrap, vs.0.no_wrap), (check_against_iff a rest v vs.1).1 d.1),
)

check_overlaps_iff :
    (ss : List Segment) → All IsValidSegment ss → (check_overlaps ss ≡ ok tt) ↔ AllApart ss
unfolding check_overlaps
check_overlaps_iff [] vs = (λ h. tt, λ h. refl)
check_overlaps_iff (s ∷ rest) vs = (
  λ h.
      let both = (then_iff (check_against s rest) (check_overlaps rest)).0 h in
      ((check_against_iff s rest vs.0 vs.1).0 both.0, (check_overlaps_iff rest vs.1).0 both.1),
  λ d.
      (then_iff (check_against s rest) (check_overlaps rest)).1
        ((check_against_iff s rest vs.0 vs.1).1 d.0, (check_overlaps_iff rest vs.1).1 d.1),
)

check_debug_iff :
    (files : ℕ) (es : List DebugEntry)
    → (check_debug files es ≡ ok tt) ↔ All (λ e. e.file < files) es
unfolding check_debug
check_debug_iff files [] = (λ h. tt, λ h. refl)
check_debug_iff files (e ∷ rest) = (
  λ h.
      let both = (reject_if_iff _ _ (check_debug files rest)).0 h in
      (ground (arith, both.0), (check_debug_iff files rest).0 both.1),
  λ d.
      (reject_if_iff _ _ (check_debug files rest)).1
        (ground (arith, d.0), (check_debug_iff files rest).1 d.1),
)

-- The entry point lies in a segment that is executable.
abbrev pub IsEntry : ℕ → Segment → Type 0
IsEntry pc s =
    (s.virtual_address ≤ pc)
    × (pc < s.virtual_address + s.virtual_size)
    × (Executable.has_flag s.flags flag_exec ≡ true)

abbrev pub EntersCode : ℕ → List Segment → Type 0
EntersCode pc [] = ⊥
EntersCode pc (s ∷ rest) = IsEntry pc s ⊎ EntersCode pc rest

-- Segments that are apart from one with the address have it not.
Apart-not_entered :
    (pc : ℕ) (s : Segment) (rest : List Segment)
    → s.virtual_address ≤ pc
    → pc < s.virtual_address + s.virtual_size
    → All (Apart s) rest
    → ¬ EntersCode pc rest
Apart-not_entered pc s [] low high apart e = absurd e
Apart-not_entered pc s (t ∷ rest) low high apart (inl e) = absurd (ground (arith, e, apart.0))
Apart-not_entered pc s (t ∷ rest) low high apart (inr e) =
    absurd (Apart-not_entered pc s rest low high apart.1 e)

entry_iff :
    (pc : ℕ) (ss : List Segment)
    → AllApart ss
    → (check_entry_segment (find_segment ss pc) ≡ ok tt) ↔ EntersCode pc ss
unfolding check_entry_segment find_segment
entry_iff pc [] apart = (λ h. cc h, λ h. absurd h)
entry_iff pc (s ∷ rest) apart =
    elim (Bool-cases (leb s.virtual_address pc && ltb (pc - s.virtual_address) s.virtual_size)) [
      | inl inside ↦ (
        λ h. inl (ground arith, ground arith, ground (arith, rw inside at h)),
        λ e. elim e [
          | inl here ↦ rw inside (ground (arith, here))
          | inr later ↦
              absurd (Apart-not_entered pc s rest (ground arith) (ground arith) apart.0 later)
        ],
      )
      | inr outside ↦ (
        λ h. inr ((entry_iff pc rest apart.1).0 (rw outside at h)),
        λ e. elim e [
          | inl here ↦ absurd (ground (arith, here))
          | inr later ↦ rw outside ((entry_iff pc rest apart.1).1 later)
        ],
      )
    ]

abbrev pub IsNonempty : List Segment → Type 0
IsNonempty [] = ⊥
IsNonempty (s ∷ rest) = Unit {0}

pub record IsValid (exe : Executable) : Type 0 where
  pub version : exe.version ≡ 1
  pub nonempty : IsNonempty exe.segments
  pub segments : All IsValidSegment exe.segments
  pub apart : AllApart exe.segments
  pub aligned : exe.entry_point % 8 ≡ 0
  pub entry : EntersCode exe.entry_point exe.segments
  pub debug : All (λ e. e.file < length exe.source_files) exe.debug_info

is_empty-IsNonempty : (ss : List Segment) → (is_empty ss ≡ false) ↔ IsNonempty ss
unfolding is_empty
is_empty-IsNonempty [] = (λ h. cc h, λ h. absurd h)
is_empty-IsNonempty (s ∷ rest) = (λ h. tt, λ h. refl)

==-false_iff : (x y : ℕ) → (not (x == y) ≡ false) ↔ (x ≡ y)
==-false_iff x y = (λ h. ground arith, λ h. ground arith)

-- Validation accepts exactly the valid images (the sizes of the segments being 64-bit numbers): the
-- version is 1; there are segments, each with memory for its contents below the end of the address
-- space, .bss without contents, none both writable and executable, no two sharing an address; the
-- entry point is aligned and lies in an executable segment; and debug entries name listed files.
pub validate_iff :
    (exe : Executable)
    → All (λ s. IsU64 s.virtual_size) exe.segments
    → (validate exe ≡ ok tt) ↔ IsValid exe
unfolding validate
validate_iff exe u = (
  accepted,
  λ v. (reject_if_iff _ _ _).1 (
    (==-false_iff exe.version 1).1 v.version,
    (reject_if_iff _ _ _).1 (
      (is_empty-IsNonempty exe.segments).1 v.nonempty,
      (then_iff (check_segments exe.segments) _).1 (
        (check_segments_iff exe.segments u).1 v.segments,
        (then_iff (check_overlaps exe.segments) _).1 (
          (check_overlaps_iff exe.segments v.segments).1 v.apart,
          (reject_if_iff _ _ _).1 (
            (==-false_iff (exe.entry_point % 8) 0).1 v.aligned,
            (then_iff (check_entry_segment found) _).1 (
              (entry_iff exe.entry_point exe.segments v.apart).1 v.entry,
              (check_debug_iff files exe.debug_info).1 v.debug,
            ),
          ),
        ),
      ),
    ),
  ),
)
  where
    found : Option Segment
    found = find_segment exe.segments exe.entry_point

    files : ℕ
    files = length exe.source_files

    accepted : validate exe ≡ ok tt → IsValid exe
    accepted h =
        let a = (reject_if_iff _ _ _).0 h in
        let b = (reject_if_iff _ _ _).0 a.1 in
        let c = (then_iff (check_segments exe.segments) _).0 b.1 in
        let d = (then_iff (check_overlaps exe.segments) _).0 c.1 in
        let e = (reject_if_iff _ _ _).0 d.1 in
        let f = (then_iff (check_entry_segment found) _).0 e.1 in
        let segments = (check_segments_iff exe.segments u).0 c.0 in
        let apart = (check_overlaps_iff exe.segments segments).0 d.0 in
        record {
          version = (==-false_iff exe.version 1).0 a.0;
          nonempty = (is_empty-IsNonempty exe.segments).0 b.0;
          segments = segments;
          apart = apart;
          aligned = (==-false_iff (exe.entry_point % 8) 0).0 e.0;
          entry = (entry_iff exe.entry_point exe.segments apart).0 f.0;
          debug = (check_debug_iff files exe.debug_info).0 f.1;
        }
