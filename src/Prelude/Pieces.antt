-- ===== src/Prelude/Pieces.antt =====
-- Two loops that several methods have: writing texts with a separator between them, and running
-- over the pieces of a text between separators by positions.
use Prim.Native.Nat.{ℕ, zero, suc, ◌+◌, ◌-◌, ◌≤◌}
use mathlib.Core.Path.{◌≡◌, refl, ap, ◌∙◌, sym}
use mathlib.Core.Logic.{inl, inr}
use mathlib.Core.Bool.{Bool, true, false}
use mathlib.Core.Option.{Option, some, none}
use mathlib.Core.List.{List, [], ◌∷◌, ◌++◌, append_assoc, append-nil}
use native.Mathlib.Omega.{arith}
use okssystem.Prelude.Tests.{ltb, Option-cases, Bool-cases, if◌then◌else◌}
use okssystem.Prelude.Lists.{length, take, drop, drop-length, drop-drop, length-drop, take-length}
use okssystem.Prelude.Texts.{Text, find, find_from, substr}
use okssystem.Prelude.Fields.{fields, join, fields-nil, fields_step, fields_last}

-- `for (...) { if (!first) stream << c; else first = false; stream << item; }`
unfoldable pub write_separated : ℕ → List Text → Bool → Text → Text
write_separated c [] first stream = stream
write_separated c (p ∷ ps) first stream =
    write_separated c ps false ((if first then stream else stream ++ c ∷ []) ++ p)

-- Every part behind a separator.
behind : ℕ → List Text → Text
behind c [] = []
behind c (p ∷ ps) = c ∷ (p ++ behind c ps)

write_separated-behind :
    (c : ℕ) (ps : List Text) (out : Text) → write_separated c ps false out ≡ out ++ behind c ps
unfolding write_separated behind
write_separated-behind c [] out = sym (append-nil out)
write_separated-behind c (p ∷ ps) out = simp (write_separated-behind c ps, append_assoc)

join-behind : (c : ℕ) (p : Text) (ps : List Text) → join c (p ∷ ps) ≡ p ++ behind c ps
unfolding join behind
join-behind c p [] = sym (append-nil p)
join-behind c p (q ∷ ps) = ap (λ r. p ++ (c ∷ r)) (join-behind c q ps)

pub write_separated-join : (c : ℕ) (ps : List Text) → write_separated c ps true [] ≡ join c ps
unfolding write_separated
write_separated-join c [] = unfold join in refl
write_separated-join c (p ∷ ps) = write_separated-behind c ps p ∙ sym (join-behind c p ps)

abbrev end_of : Option ℕ → ℕ → ℕ
end_of none size = size
end_of (some p) size = p

module _ {B : Type 0} (c : ℕ) (body : Text → B → B) where
  -- `while (start_p < text.size())`, with what the round does to the result of the method. The
  -- first argument bounds the rounds.
  unfoldable pub for_pieces : ℕ → Text → ℕ → B → B
  unfolding find_from
  for_pieces zero text start_p acc = acc
  for_pieces (suc rounds) text start_p acc =
      let end_p = end_of (find_from c text start_p) (length text) in
      let piece = substr text start_p (end_p - start_p) in
      let rest = for_pieces rounds text (end_p + 1) (body piece acc) in
      if ltb start_p (length text) then rest else acc

  abbrev pub fold_pieces : List Text → B → B
  fold_pieces [] acc = acc
  fold_pieces (p ∷ ps) acc = fold_pieces ps (body p acc)

  -- What one round adds: the last piece, or one before a separator.
  fold_pieces_last :
      ((acc : B) → body [] acc ≡ acc)
      → (text : Text) (start_p : ℕ) (acc : B) → find c (drop start_p text) ≡ none
      → fold_pieces (fields c (drop start_p text)) acc
        ≡ fold_pieces
            (fields c (drop (length text + 1) text))
            (body (take (length text - start_p) (drop start_p text)) acc)
  fold_pieces_last blank text start_p acc last =
      let piece = take (length text - start_p) (drop start_p text) in
      let whole : piece ≡ drop start_p text =
        take-length _ _ (omega (arith, length-drop start_p text)) in
      let none_left : drop (length text + 1) text ≡ [] =
        drop-length (length text + 1) text (omega arith) in
      ap (λ r. fold_pieces r acc) (fields_last c (drop start_p text) last)
      ∙ ap (λ r. body r acc) (sym whole)
      ∙ sym (blank (body piece acc))
      ∙ ap (λ r. fold_pieces r (body piece acc))
          (sym (fields-nil c) ∙ ap (fields c) (sym none_left))

  fold_pieces_step :
      (text : Text) (start_p i : ℕ) (acc : B)
      → find c (drop start_p text) ≡ some i
      → fold_pieces (fields c (drop start_p text)) acc
        ≡ fold_pieces
            (fields c (drop (start_p + i + 1) text))
            (body (take (start_p + i - start_p) (drop start_p text)) acc)
  fold_pieces_step text start_p i acc found =
      let here : i ≡ start_p + i - start_p = omega arith in
      let next : start_p + suc i ≡ start_p + i + 1 = omega arith in
      ap (λ r. fold_pieces r acc) (fields_step c (drop start_p text) i found)
      ∙ ap (λ r. fold_pieces (fields c r) (body (take i (drop start_p text)) acc))
          (drop-drop (suc i) start_p text ∙ ap (λ n. drop n text) next)
      ∙ ap
          (λ n.
            fold_pieces (fields c (drop (start_p + i + 1) text))
              (body (take n (drop start_p text)) acc))
          here

  -- Enough rounds, and a body that leaves the result alone at an empty piece: the loop runs the body
  -- over all pieces from the start on.
  pub for_pieces-fields :
      ((acc : B) → body [] acc ≡ acc)
      → (rounds : ℕ) (text : Text) (start_p : ℕ) (acc : B) → length text ≤ start_p + rounds
      → for_pieces rounds text start_p acc ≡ fold_pieces (fields c (drop start_p text)) acc
  unfolding for_pieces
  for_pieces-fields blank zero text start_p acc enough =
      let e : drop start_p text ≡ [] = drop-length start_p text (omega arith) in
      rw (e, fields-nil c) (sym (blank acc))
  for_pieces-fields blank (suc rounds) text start_p acc enough =
      elim (Bool-cases (ltb start_p (length text))) [
        | inr done ↦
            let e : drop start_p text ≡ [] = drop-length start_p text (ground arith) in
            rw (done, for_pieces) (rw (e, fields-nil c) (sym (blank acc)))
        | inl more ↦ elim (Option-cases (find c (drop start_p text))) [
          | inl last ↦
              rw (more, last, for_pieces)
                (for_pieces-fields blank rounds text (length text + 1)
                    (body (take (length text - start_p) (drop start_p text)) acc) (omega arith)
                  ∙ sym (fold_pieces_last blank text start_p acc last))
          | inr (i, found) ↦
              rw (more, found, for_pieces)
                (for_pieces-fields blank rounds text (start_p + i + 1)
                    (body (take (start_p + i - start_p) (drop start_p text)) acc) (omega arith)
                  ∙ sym (fold_pieces_step text start_p i acc found))
        ]
      ]
