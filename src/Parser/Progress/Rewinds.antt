-- ===== src/Parser/Progress/Rewinds.antt =====
-- src/parser.rs: actions that go back to a position that they have saved.
use marreta_lang.Base.{ℕ, suc, ◌≤◌, ◌<◌, ◌≡◌, Bool, true, false, List, arith, if◌then◌else◌, length}
use marreta_lang.Token.Kind.{Token}
use marreta_lang.Parser.State.{Parser}
use marreta_lang.Parser.Action.{Parse, ◌>>=◌, gets, rewind}
use marreta_lang.Parser.Progress.{ends_in_eof, Ready, Ends, Keeps, Ends_mono, and_then-Ends}

-- From a state behind the saved position, the action leaves no more tokens than were left there.
pub record Rewinds (saved : List Token) (n : ℕ) {A : Type 0} (p : Parse A) : Type 0 where
  pub run :
      (s : Parser)
      → Ready s
      → ends_in_eof saved ≡ true
      → length saved < n
      → length s.rest ≤ length saved
      → Ends (suc (length saved)) (p s)

module _ {A : Type 0} {saved : List Token} {n : ℕ} where
  pub Rewinds-Keeps : {p : Parse A} → Keeps n p → Rewinds saved n p
  Rewinds-Keeps {p} keeps = record {
    run = λ s ready eof h le. Ends_mono _ _ (p s) (omega arith) (keeps.run s ready (omega arith));
  }

  pub Rewinds-if :
      (b : Bool) {p q : Parse A}
      → Rewinds saved n p
      → Rewinds saved n q
      → Rewinds saved n (if b then p else q)
  Rewinds-if true h k = h
  Rewinds-if false h k = k

  pub Rewinds-rewind : (f : Unit → Parse A) → Keeps n (f tt) → Rewinds saved n (rewind saved >>= f)
  unfolding rewind ◌>>=◌
  Rewinds-rewind f keeps = record {
    run = λ s ready eof h le. keeps.run (record s { rest = saved }) (ready.0, eof) h;
  }

module _ {A : Type 0} {n : ℕ} where
  pub Keeps-saved :
      {f : List Token → Parse A}
      → ((ts : List Token) → Rewinds ts n (f ts))
      → Keeps n (gets (λ s. s.rest) >>= f)
  unfolding gets ◌>>=◌
  Keeps-saved each = record { run = λ s ready h. (each s.rest).run s ready ready.1 h (omega arith) }

module _ {A B : Type 0} {saved : List Token} {n : ℕ} where
  pub Rewinds-bind :
      {p : Parse A} {f : A → Parse B}
      → Keeps n p
      → ((a : A) → Rewinds saved n (f a))
      → Rewinds saved n (p >>= f)
  unfolding ◌>>=◌
  Rewinds-bind {p} {f} keeps rest = record {
    run = λ s ready eof h le.
        and_then-Ends _ _ (p s) f (keeps.run s ready (omega arith))
          λ a s' ready' h'. (rest a).run s' ready' eof h (omega arith);
  }
