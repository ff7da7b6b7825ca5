-- ===== src/Parser/Progress/Exports.antt =====
-- src/parser.rs: tasks and exports take a token.
use marreta_lang.Base.{ℕ, suc, ◌<◌, ◌≡◌, refl, Bool, true, false, List, [], ◌∷◌, arith, length}
use marreta_lang.Token.Kind.{TokenKind, Token}
use marreta_lang.Syntax.{Statement}
use marreta_lang.Parser.State.{Parser, current_kind, is_eof}
use marreta_lang.Parser.Action.{Parse, ◌>>=◌, gets, advance}
use marreta_lang.Parser.Calls.{Calls}
use marreta_lang.Parser.Simple.{parse_assignment}
use marreta_lang.Parser.Statements.{
  param, next_param, parse_param_list, token_at_pos, parse_task_def, exported, no_export,
  export_other, export_route, export_at, parse_export,
}
use marreta_lang.Parser.Progress.{
  Ready, Ends, Keeps, Eats, EatsOn, Keeps-pure, Eats→EatsOn, EatsOn-gets, EatsOn-if, Eats-throw,
  Ends_mono,
}
use marreta_lang.Parser.Progress.Actions.{
  At, Open, EatsOn-first_suc, EatsOn-sub, EatsOn-bind, EatsOn-le,
}
use marreta_lang.Parser.Progress.Expects.{keeps_rules, eats_rules}
use marreta_lang.Parser.Progress.Blocks.{Good, Keeps-parse_as, Keeps-parse_task_like_body}
use marreta_lang.Parser.Progress.Simple.{Eats-parse_assignment}
use marreta_lang.Parser.Progress.Schema.{EatsOn-parse_schema}

Eats-param : {n : ℕ} → Eats n param
Eats-param = search (eats_rules, Keeps-parse_as)

Eats-next_param : {n : ℕ} → Eats n next_param
Eats-next_param = search (eats_rules, Eats-param)

Keeps-param_list : {n : ℕ} → Keeps n parse_param_list
unfolding parse_param_list
Keeps-param_list = search (keeps_rules, Eats-param, Eats-next_param) depth 10

abbrev nonempty : List Token → Bool
nonempty [] = false
nonempty (_ ∷ _) = true

-- There is a token at `pos`.
abbrev Present : Parser → Type 0
Present s = nonempty s.rest ≡ true

module _ {B : Type 0} where
  indexed_run :
      (ts : List Token) (f : Token → Parse B) (s : Parser)
      → s.rest ≡ ts
      → nonempty ts ≡ true
      → ((t : Token) → Ends (length s.rest) (f t s))
      → Ends (length s.rest) ((token_at_pos >>= f) s)
  unfolding token_at_pos ◌>>=◌
  indexed_run [] f s e present h = absurd (cc)
  indexed_run (t ∷ ts) f s e present h = rw e (rw e at (h t))

module _ {B : Type 0} {n : ℕ} where
  EatsOn-token :
      {P : Parser → Type 0} {f : Token → Parse B}
      → ((s : Parser) → P s → Ready s → Present s)
      → ((t : Token) → EatsOn P n (f t))
      → EatsOn P n (token_at_pos >>= f)
  EatsOn-token {f = f} present each = record {
    run = λ s holds ready h.
        indexed_run s.rest f s refl (present s holds ready) λ t. (each t).run s holds ready h;
  }

  advance_run :
      (ts : List Token) (f : Unit → Parse B) (s : Parser)
      → s.rest ≡ ts
      → is_eof (current_kind s) ≡ false
      → Ready s
      → length s.rest < suc n
      → EatsOn Present n (f tt)
      → Ends (length s.rest) ((advance >>= f) s)
  unfolding advance ◌>>=◌
  advance_run [] f s e more ready h eats = absurd (cc)
  advance_run (t ∷ []) f s e more ready h eats = absurd (let g = rw e at ready.1 in cc)
  advance_run (t ∷ u ∷ us) f s e more ready h eats =
      let s' = record s { rest = u ∷ us } in
      rw e (
        Ends_mono _ _ (f tt s') (omega arith)
          (eats.run s' refl (ready.0, rw e at ready.1) (let g = rw e at h in omega arith)))

  -- Behind a token that is not Eof there is another one.
  EatsOn-first-Present :
      {kind : TokenKind} (f : Unit → Parse B)
      → is_eof kind ≡ false
      → EatsOn Present n (f tt)
      → EatsOn (At kind) (suc n) (advance >>= f)
  EatsOn-first-Present f more eats = record {
    run = λ s at ready h. advance_run s.rest f s refl (rw at more) ready h eats;
  }

  EatsOn-kind :
      {P : Parser → Type 0} {f : TokenKind → Parse B}
      → ((kind : TokenKind) → EatsOn (λ s. P s × At kind s) n (f kind))
      → EatsOn P n (gets current_kind >>= f)
  unfolding gets ◌>>=◌
  EatsOn-kind each = record { run = λ s holds. (each (current_kind s)).run s (holds, refl) }

Open-present : (ts : List Token) (s : Parser) → s.rest ≡ ts → Open s → Ready s → nonempty ts ≡ true
Open-present [] s e more ready = absurd (cc)
Open-present (t ∷ ts) s e more ready = refl

EatsOn-no_export : {n : ℕ} (at : Token) → EatsOn Present n (no_export at)
EatsOn-no_export at = EatsOn-token (λ s present ready. present) λ t. Eats→EatsOn (Eats-throw _)

module _ {n : ℕ} {c : Calls} (good : Good n c) where
  pub EatsOn-task_def : EatsOn (At TokenKind.task) (suc n) (parse_task_def c)
  unfolding parse_task_def
  EatsOn-task_def = EatsOn-gets _ λ t.
      EatsOn-first_suc refl
        λ u. search (keeps_rules, Keeps-param_list, Keeps-parse_task_like_body) depth 14

  exported-EatsOn :
      {P : Parser → Type 0} {p : Parse Statement}
      → EatsOn P (suc n) p
      → EatsOn P (suc n) (exported p)
  exported-EatsOn eats = EatsOn-bind eats λ inner. Keeps-pure _

  exported_assignment : EatsOn Present (suc n) (exported (parse_assignment c))
  exported_assignment = exported-EatsOn (Eats→EatsOn (Eats-parse_assignment good))

  export_other-EatsOn :
      (at : Token) (kind : TokenKind) → EatsOn Present (suc n) (export_other c at kind)
  export_other-EatsOn at kind =
      EatsOn-gets _
        λ assigns. EatsOn-gets _ λ reserved. EatsOn-if _ exported_assignment (EatsOn-no_export at)

  export_route-EatsOn : (at : Token) → EatsOn Present (suc n) (export_route c at)
  export_route-EatsOn at = EatsOn-gets _ λ assigns.
      EatsOn-gets _ λ reserved. EatsOn-if _ exported_assignment (Eats→EatsOn (Eats-throw _))

  export_at-EatsOn :
      (at : Token) (kind : TokenKind)
      → EatsOn (λ s. Present s × At kind s) (suc n) (export_at c at kind)
  unfolding export_at
  export_at-EatsOn at TokenKind.task = EatsOn-sub (λ s h. h.1) (exported-EatsOn EatsOn-task_def)
  export_at-EatsOn at TokenKind.schema =
      EatsOn-sub (λ s h. h.1) (exported-EatsOn EatsOn-parse_schema)
  export_at-EatsOn at TokenKind.route = EatsOn-sub (λ s h. h.0) (export_route-EatsOn at)
  export_at-EatsOn at kind = EatsOn-sub (λ s h. h.0) (export_other-EatsOn at kind)

  pub EatsOn-parse_export : EatsOn (At TokenKind.export) (suc n) (parse_export c)
  unfolding parse_export
  EatsOn-parse_export =
      EatsOn-token (λ s at ready. Open-present s.rest s refl (rw at refl) ready)
        λ t.
          EatsOn-first-Present _ refl (EatsOn-le (omega arith) (EatsOn-kind (export_at-EatsOn t)))
