-- ===== src/Executable/Output/Closing.antt =====
-- Three ends of pipes that are closed.
use okssystem.Prelude.{◌≡◌, ◌≢◌, ◌∙◌, Bool, false, Text, ℤ}
use okssystem.Calls.{IoCalls}
use okssystem.Executable.Pipes.{close_end, close_three}
use okssystem.Executable.Output.{IsPipes}

abbrev pub AllClosed : {W : Type 0} → (ℤ → W → Bool) → ℤ → ℤ → ℤ → W → Type 0
AllClosed is_open a b c w = (is_open a w ≡ false) × (is_open b w ≡ false) × (is_open c w ≡ false)

module _ {W : Type 0} {io : IoCalls W} {content : ℤ → W → Text} {is_open : ℤ → W → Bool}
    (laws : IsPipes io content is_open) where
  pub close_three-AllClosed : (a b c : ℤ) (w : W) → AllClosed is_open a b c (close_three io a b c w)
  close_three-AllClosed a b c w =
      let v = close_end io a w in
      let u = close_end io b v in
      (
        laws.close_opens_none c a u (laws.close_opens_none b a v (laws.closes a w)),
        laws.close_opens_none c b u (laws.closes b v),
        laws.closes c u,
      )

  pub close_three_none :
      (a b c other : ℤ) (w : W)
      → is_open other w ≡ false
      → is_open other (close_three io a b c w) ≡ false
  close_three_none a b c other w h =
      let v = close_end io a w in
      let u = close_end io b v in
      laws.close_opens_none c other u
        (laws.close_opens_none b other v (laws.close_opens_none a other w h))

  pub close_three_others :
      (a b c other : ℤ) (w : W)
      → other ≢ a
      → other ≢ b
      → other ≢ c
      → is_open other (close_three io a b c w) ≡ is_open other w
  close_three_others a b c other w ha hb hc =
      let v = close_end io a w in
      let u = close_end io b v in
      laws.close_keeps c other u hc ∙ laws.close_keeps b other v hb ∙ laws.close_keeps a other w ha
