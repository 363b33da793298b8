-- ===== src/StringMemoryArea/Replace.antt =====
-- `clear` and `insert` over an existing string.
use native.Mathlib.Decide.{dec_lt, ℕ_discrete}
use okssystem.Prelude.{
  ℕ, suc, ◌+◌, ◌-◌, ◌≤◌, ◌<◌, ◌≡◌, ap, sym, ◌∙◌, Option, none, some, [], ◌∷◌, ◌++◌, append_assoc,
  arith, length, take, drop, length-append, length-drop, get_elem?, drop-drop, drop-append, Text,
  Lacks, ok,
}
use okssystem.StringMemoryArea.{Area, clear, c_string, overwrite}
use okssystem.StringMemoryArea.Memory.{
  zeros, length-zeros, c_string-zeros, c_string-append, c_string-eq-some, zero_run_of_c_string,
  length-overwrite, drop-overwrite, take-overwrite, drop-overwrite_behind, get_elem?-overwrite_nul,
  get_elem?-overwrite_behind, get_elem?-overwrite_before, get_elem?-drop, c_string_before,
}
use okssystem.StringMemoryArea.Strings.{IsValid}

-- The area after `clear` of a string of `n` bytes.
abbrev pub zeroed : ℕ → ℕ → Area → Area
zeroed offset n a = record a { memory = overwrite offset (zeros n) a.memory }

-- The area after a string is written over an old one of `n` bytes.
abbrev pub replaced : ℕ → ℕ → Text → Area → Area
replaced offset n s a = record a {
  memory = overwrite offset (s ++ 0 ∷ []) (zeroed offset n a).memory;
}

module _ (a : Area) (offset : ℕ) (t : Text) (old : c_string (drop offset a.memory) ≡ some t) where
  room : offset + length t < length a.memory
  room =
      omega (arith, (c_string-eq-some (drop offset a.memory) t old).2, length-drop offset a.memory)

  -- `clear` returns the length of the string and zeroes exactly its bytes.
  pub clear_lem : clear offset a ≡ ok (length t) (zeroed offset (length t) a)
  unfolding clear
  clear_lem =
      let e : length t ≡ length (zeros (length t)) = sym (length-zeros (length t)) in
      rw (zero_run_of_c_string (drop offset a.memory) t old, clear)
        (ap
          (λ r.
            ok (length t) (record a { memory = take offset a.memory ++ (zeros (length t) ++ r) }))
          (drop-drop (length t) offset a.memory ∙ ap (λ n. drop (offset + n) a.memory) e))

  length-zeroed : length (zeroed offset (length t) a).memory ≡ length a.memory
  length-zeroed =
      length-overwrite offset (zeros (length t)) a.memory
        (omega (arith, room, length-zeros (length t)))

  zeroed_bound : offset + length (zeros (length t)) ≤ length a.memory
  zeroed_bound = omega (arith, room, length-zeros (length t))

  read_zeros :
      c_string (zeros (length t) ++ drop (offset + length (zeros (length t))) a.memory) ≡ some []
  read_zeros =
      let n = length (zeros (length t)) in
      let rest = drop (suc (length t)) (drop offset a.memory) in
      let e : drop (offset + n) a.memory ≡ 0 ∷ rest =
        sym (drop-drop n offset a.memory)
        ∙ ap (λ k. drop k (drop offset a.memory)) (length-zeros (length t))
        ∙ ap (drop (length t)) ((c_string-eq-some (drop offset a.memory) t old).0)
        ∙ drop-append t (0 ∷ rest) in
      rw e (c_string-zeros (length t) rest)

  -- If the last string ends at or behind the offset, then so far behind as the string is long.
  behind :
      get_elem? a.memory a.last_string ≡ some 0
      → offset ≤ a.last_string
      → offset + length t ≤ a.last_string
  behind ended h =
      let (t', e, l) =
        c_string_before (drop offset a.memory) (a.last_string - offset)
          (get_elem?-drop a.memory offset a.last_string h ∙ ended) in
      let same : length t' ≡ length t =
        ap (λ (o : Option Text). elim o [ none ↦ 0 | some x ↦ length x ]) (sym e ∙ old) in
      omega arith

  zeroed-ended :
      get_elem? a.memory a.last_string ≡ some 0
      → get_elem? (zeroed offset (length t) a).memory a.last_string ≡ some 0
  zeroed-ended ended = elim (dec_lt a.last_string offset) [
    | yes before ↦
        get_elem?-overwrite_before offset a.last_string (zeros (length t)) a.memory before
          (omega (arith, room))
        ∙ ended
    | no after ↦
        get_elem?-overwrite_behind offset a.last_string (zeros (length t)) a.memory
          (omega (arith, behind ended (omega arith), length-zeros (length t))) zeroed_bound
        ∙ ended
  ]

  pub take-zeroed : take offset (zeroed offset (length t) a).memory ≡ take offset a.memory
  take-zeroed =
      take-overwrite offset offset (zeros (length t)) a.memory (omega arith) (omega (arith, room))

  pub drop-zeroed :
      drop (offset + length t + 1) (zeroed offset (length t) a).memory
      ≡ drop (offset + length t + 1) a.memory
  drop-zeroed =
      drop-overwrite_behind offset (offset + length t + 1) (zeros (length t)) a.memory
        (omega (arith, length-zeros (length t))) zeroed_bound

  -- The zeroed string reads as the empty one.
  pub read_zeroed : c_string (drop offset (zeroed offset (length t) a).memory) ≡ some []
  read_zeroed =
      ap c_string (drop-overwrite offset (zeros (length t)) a.memory (omega (arith, room)))
      ∙ read_zeros

  pub zeroed-IsValid : IsValid a → IsValid (zeroed offset (length t) a)
  zeroed-IsValid v = record {
    sized = omega (arith, v.sized, length-zeroed);
    small = omega (arith, v.small, length-zeroed);
    ended = zeroed-ended v.ended;
  }

  module _ (s : Text) (fits : length s ≤ length t) where
    pub replaced_bound : offset + length (s ++ 0 ∷ []) ≤ length (zeroed offset (length t) a).memory
    replaced_bound = omega (arith, room, length-zeroed, length-append s (0 ∷ []))

    length-replaced : length (replaced offset (length t) s a).memory ≡ length a.memory
    length-replaced =
        length-overwrite offset (s ++ 0 ∷ []) (zeroed offset (length t) a).memory replaced_bound
        ∙ length-zeroed

    pub read_replaced :
        Lacks 0 s → c_string (drop offset (replaced offset (length t) s a).memory) ≡ some s
    read_replaced h =
        ap c_string (
          drop-overwrite offset (s ++ 0 ∷ []) (zeroed offset (length t) a).memory
            (omega (arith, replaced_bound)))
        ∙ ap c_string (append_assoc s (0 ∷ []) _)
        ∙ c_string-append s _ h

    -- Bytes before the old string and behind its terminator keep their values.
    pub take-replaced : take offset (replaced offset (length t) s a).memory ≡ take offset a.memory
    take-replaced =
        take-overwrite offset offset (s ++ 0 ∷ []) (zeroed offset (length t) a).memory (omega arith)
          (omega (arith, replaced_bound))
        ∙ take-zeroed

    pub drop-replaced :
        drop (offset + length t + 1) (replaced offset (length t) s a).memory
        ≡ drop (offset + length t + 1) a.memory
    drop-replaced =
        drop-overwrite_behind offset (offset + length t + 1) (s ++ 0 ∷ [])
          (zeroed offset (length t) a).memory (omega (arith, length-append s (0 ∷ [])))
          replaced_bound
        ∙ drop-zeroed

    replaced-ended :
        get_elem? a.memory a.last_string ≡ some 0
        → get_elem? (replaced offset (length t) s a).memory a.last_string ≡ some 0
    replaced-ended ended = elim (dec_lt a.last_string offset) [
      | yes before ↦
          get_elem?-overwrite_before offset a.last_string (s ++ 0 ∷ [])
            (zeroed offset (length t) a).memory before (omega (arith, replaced_bound))
          ∙ zeroed-ended ended
      | no after ↦ elim (ℕ_discrete (offset + length s) a.last_string) [
        | yes same ↦
            ap (get_elem? (replaced offset (length t) s a).memory) (sym same)
            ∙ get_elem?-overwrite_nul offset s (zeroed offset (length t) a).memory
                (omega (arith, replaced_bound))
        | no differ ↦
            get_elem?-overwrite_behind offset a.last_string (s ++ 0 ∷ [])
              (zeroed offset (length t) a).memory
              (omega (arith, behind ended (omega arith), length-append s (0 ∷ []))) replaced_bound
            ∙ zeroed-ended ended
      ]
    ]

    pub replaced-IsValid : IsValid a → IsValid (replaced offset (length t) s a)
    replaced-IsValid v = record {
      sized = omega (arith, v.sized, length-replaced);
      small = omega (arith, v.small, length-replaced);
      ended = replaced-ended v.ended;
    }
