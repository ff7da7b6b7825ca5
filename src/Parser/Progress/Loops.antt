-- ===== src/Parser/Progress/Loops.antt =====
-- src/parser.rs: what the loops do to the tokens that are left.
use marreta_lang.Base.{
  ℕ, zero, suc, ◌<◌, ◌≡◌, Bool, true, false, [], arith, length, Bool-cases, inl, inr,
}
use marreta_lang.Parser.State.{Parser}
use marreta_lang.Parser.Action.{
  Parse, ◌>>=◌, pure, while_on, while_loop, loop, loop_on, again, collect,
}
use marreta_lang.Parser.Progress.{
  Ready, Ends, Keeps, EatsOn, Eats, Ends_mono, and_then-Ends, Eats→EatsOn, Keeps-pure, Eats-bind,
}
use marreta_lang.Parser.Progress.Actions.{When}

module _ {B : Type 0} where
  while_on-Ends :
      (n fuel : ℕ) (test : B → Parser → Bool) (body : B → Parse B)
      → ((b : B) → EatsOn (When (test b)) n (body b))
      → (b : B) (s : Parser) → Ready s
      → length s.rest < n
      → length s.rest < fuel
      → Ends (suc (length s.rest)) (while_on fuel test body b s)
  unfolding while_on ◌>>=◌ pure
  while_on-Ends n zero test body eats b s ready h enough = absurd (omega arith)
  while_on-Ends n (suc fuel) test body eats b s ready h enough = elim (Bool-cases (test b s)) [
    | inl e ↦ rw e (
        and_then-Ends _ _ (body b s) (while_on fuel test body) ((eats b).run s e ready h)
          λ b' s' ready' h'.
            Ends_mono _ _ (while_on fuel test body b' s') (omega arith)
              (while_on-Ends n fuel test body eats b' s' ready' (omega arith) (omega arith)))
    | inr e ↦ rw e (ready, omega arith)
  ]

  pub Keeps-while_loop :
      {n : ℕ} {test : B → Parser → Bool} {body : B → Parse B}
      → ((b : B) → EatsOn (When (test b)) n (body b))
      → (b : B) → Keeps n (while_loop test body b)
  unfolding while_loop
  Keeps-while_loop {n} {test} {body} eats b = record {
    run =
        λ s ready h. while_on-Ends n (suc (length s.rest)) test body eats b s ready h (omega arith);
  }

  -- The test holds at first.
  pub EatsOn-while_loop :
      {P : Parser → Type 0} {n : ℕ} {test : B → Parser → Bool} {body : B → Parse B} (b : B)
      → ((s : Parser) → P s → Ready s → test b s ≡ true)
      → ((c : B) → EatsOn (When (test c)) n (body c))
      → EatsOn P n (while_loop test body b)
  unfolding while_loop while_on ◌>>=◌
  EatsOn-while_loop {n = n} {test = test} {body = body} b first eats = record {
    run = λ s holds ready h. rw (first s holds ready) (
        and_then-Ends _ _ (body b s) (while_on (length s.rest) test body)
          ((eats b).run s (first s holds ready) ready h)
          λ b' s' ready' h'.
            Ends_mono _ _ (while_on (length s.rest) test body b' s') (omega arith)
              (while_on-Ends n _ test body eats b' s' ready' (omega arith) (omega arith)));
  }

  again-Ends :
      (n : ℕ) (rest : B → Parse B) (r : B × Bool) (s : Parser)
      → Ready s
      → Ends (suc (length s.rest)) (rest r.0 s)
      → Ends (suc (length s.rest)) (again rest r s)
  unfolding pure
  again-Ends n rest (b, true) s ready h = h
  again-Ends n rest (b, false) s ready h = (ready, omega arith)

  loop_on-Ends :
      (n fuel : ℕ) (body : B → Parse (B × Bool))
      → ((b : B) → Eats n (body b))
      → (b : B) (s : Parser) → Ready s
      → length s.rest < n
      → length s.rest < fuel
      → Ends (length s.rest) (loop_on fuel body b s)
  unfolding loop_on ◌>>=◌
  loop_on-Ends n zero body eats b s ready h enough = absurd (omega arith)
  loop_on-Ends n (suc fuel) body eats b s ready h enough =
      and_then-Ends _ _ (body b s) (again (loop_on fuel body)) ((eats b).run s ready h)
        λ r s' ready' h'. Ends_mono _ _ (again (loop_on fuel body) r s') (omega arith) (
          again-Ends n (loop_on fuel body) r s' ready' (
            Ends_mono _ _ (loop_on fuel body r.0 s') (omega arith)
              (loop_on-Ends n fuel body eats r.0 s' ready' (omega arith) (omega arith))))

  pub Eats-loop :
      {n : ℕ} {body : B → Parse (B × Bool)}
      → ((b : B) → Eats n (body b))
      → (b : B) → Eats n (loop body b)
  unfolding loop
  Eats-loop {n} {body} eats b = record {
    run = λ s ready h. loop_on-Ends n (suc (length s.rest)) body eats b s ready h (omega arith);
  }

pub Keeps-collect :
    {A : Type 0} {n : ℕ} (test : Parser → Bool) {item : Parse A}
    → Eats n item
    → Keeps n (collect test item)
unfolding collect
Keeps-collect test eats =
    Keeps-while_loop (λ items. Eats→EatsOn (Eats-bind eats λ a. Keeps-pure _)) []
