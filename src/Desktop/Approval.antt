-- ===== src/Desktop/Approval.antt =====
-- What an approval of the desktop's gate rests on: the user's answer, and the two flags.
use kanna_pa.Prelude.{
  String, ◌≡◌, refl, sym, subst, ◌∙◌, Bool, true, false, ◌&&◌, ◌||◌, not, Option, none, some, List,
  [], ◌∷◌, arith, Bool-cases, inl, inr,
}
use kanna_pa.Desktop.{
  Worker, Phase, asking, judged, initial, submit, cancel, close, leave, start_up, enter,
  take_command, clear_cancel, ask, poll, settle, release, respond, ApprovalRequest, Action, submits,
  cancels, closes, clears, denies, other, asks, answers, returns, Step, submitted, refused,
  cancelled, not_cancelled, closed, answered, answered_late, starts, enters, takes, clears_flag,
  asks_user, polls_quiet, polls_denied, returned, settles, releases,
}
use kanna_pa.Desktop.Reach.{Reach, start, next}

-- The latest answer to the latest question; the actions stand with the latest first.
abbrev pub last_answer : List Action → Bool
last_answer [] = false
last_answer (answers b ∷ done) = b
last_answer (denies ∷ done) = false
last_answer (asks r ∷ done) = false
last_answer (submits ∷ done) = last_answer done
last_answer (cancels ∷ done) = last_answer done
last_answer (closes ∷ done) = last_answer done
last_answer (clears ∷ done) = last_answer done
last_answer (other ∷ done) = last_answer done
last_answer (returns b ∷ done) = last_answer done

-- The application was closed.
abbrev pub is_closed : List Action → Bool
is_closed [] = false
is_closed (closes ∷ done) = true
is_closed (a ∷ done) = is_closed done

-- A cancellation was taken since the worker last cleared the flag.
abbrev pub is_cancelled : List Action → Bool
is_cancelled [] = false
is_cancelled (cancels ∷ done) = true
is_cancelled (clears ∷ done) = false
is_cancelled (a ∷ done) = is_cancelled done

-- The answer of the request that is open.
abbrev open_answer : Phase → Option Bool
open_answer (asking t r) = some r.allowed
open_answer (judged t r) = some r.allowed
open_answer _ = none

abbrev Tells : Option Bool → Bool → Type 0
Tells none b = Unit {0}
Tells (some a) b = a ≡ b

record Matches (done : List Action) (w : Worker) : Type 0 where
  closing : w.stop ≡ is_closed done
  cancelling : w.cancelled ≡ is_cancelled done
  answering : Tells (open_answer w.phase) (last_answer done)

-- A step that leaves the two flags and the phase.
keeps :
    (done after : List Action) (w w' : Worker)
    → w'.stop ≡ w.stop
    → w'.cancelled ≡ w.cancelled
    → w'.phase ≡ w.phase
    → is_closed after ≡ is_closed done
    → is_cancelled after ≡ is_cancelled done
    → last_answer after ≡ last_answer done
    → Matches done w
    → Matches after w'
keeps done after w w' e f g h k l m = record {
  closing = e ∙ m.closing ∙ sym h;
  cancelling = f ∙ m.cancelling ∙ sym k;
  answering =
      subst (Tells (open_answer w'.phase)) (sym l)
        (subst (λ x. Tells (open_answer x) (last_answer done)) (sym g) m.answering);
}

module _ {done : List Action} {w : Worker} (m : Matches done w) where
  submit-Matches :
      (a : Action) (b : Bool) (text : String) {w' : Worker}
      → submit text w ≡ (b, w')
      → is_closed (a ∷ done) ≡ is_closed done
      → is_cancelled (a ∷ done) ≡ is_cancelled done
      → last_answer (a ∷ done) ≡ last_answer done
      → Matches (a ∷ done) w'
  unfolding submit
  submit-Matches a b text {w'} e h k l =
      keeps done (a ∷ done) w w' (ground arith) (ground arith) (ground arith) h k l m

  cancelled-Matches : {w' : Worker} → cancel w ≡ (true, w') → Matches (cancels ∷ done) w'
  unfolding cancel
  cancelled-Matches {w'} e =
      let same : w'.phase ≡ w.phase = ground arith in
      record {
        closing = ground (arith, m.closing);
        cancelling = ground arith;
        answering = subst (λ x. Tells (open_answer x) (last_answer done)) (sym same) m.answering;
      }

  not_cancelled-Matches : {w' : Worker} → cancel w ≡ (false, w') → Matches (other ∷ done) w'
  unfolding cancel
  not_cancelled-Matches {w'} e =
      keeps done (other ∷ done) w w' (ground arith) (ground arith) (ground arith) refl refl refl m

  close-Matches : Matches (closes ∷ done) (close w)
  unfolding close
  close-Matches = record { closing = refl; cancelling = m.cancelling; answering = m.answering }

  -- A step of the worker's thread that opens no request.
  moves :
      (w' : Worker)
      → w'.stop ≡ w.stop
      → w'.cancelled ≡ w.cancelled
      → open_answer w'.phase ≡ none
      → Matches (other ∷ done) w'
  moves w' e f g = record {
    closing = e ∙ m.closing;
    cancelling = f ∙ m.cancelling;
    answering = subst (λ o. Tells o (last_answer done)) (sym g) tt;
  }

  take_command-Matches :
      (c : Option String) (rest : List (Option String))
      → Matches (other ∷ done) (take_command c rest w)
  unfolding take_command leave
  take_command-Matches none rest = moves _ refl refl refl
  take_command-Matches (some t) rest =
      moves (take_command (some t) rest w) (ground arith) (ground arith) (ground arith)

  start_up-Matches : (made : Bool) → Matches (other ∷ done) (start_up made w)
  unfolding start_up leave
  start_up-Matches true = moves _ refl refl refl
  start_up-Matches false = moves _ refl refl refl

  settle-Matches : (text : String) (good : Bool) → Matches (other ∷ done) (settle text good w)
  unfolding settle
  settle-Matches text true = moves _ refl refl refl
  settle-Matches text false = moves _ refl refl refl

  enter-Matches : Matches (other ∷ done) (enter w)
  unfolding enter leave
  enter-Matches = moves (enter w) (ground arith) (ground arith) (ground arith)

  open_told : (p : Phase) → w.phase ≡ p → Tells (open_answer p) (last_answer done)
  open_told p e = subst (λ x. Tells (open_answer x) (last_answer done)) e m.answering

  quiet-Matches :
      (text : String) (r : ApprovalRequest)
      → w.phase ≡ asking text r
      → (r.answered || not (w.stop || w.cancelled)) ≡ true
      → Matches (other ∷ done) (poll text r w)
  unfolding poll
  quiet-Matches text r e f = elim (Bool-cases r.answered) [
    | inl given ↦
        rw (given, poll)
          (record {
            closing = m.closing;
            cancelling = m.cancelling;
            answering = open_told (asking text r) e;
          })
    | inr open_still ↦
        let calm : (w.stop || w.cancelled) ≡ false = ground arith in
        rw (open_still, calm, poll)
          (record { closing = m.closing; cancelling = m.cancelling; answering = m.answering })
  ]

  denied-Matches :
      (text : String) (r : ApprovalRequest)
      → (r.answered || not (w.stop || w.cancelled)) ≡ false
      → Matches (denies ∷ done) (poll text r w)
  unfolding poll respond
  denied-Matches text r f =
      let open_still : r.answered ≡ false = ground arith in
      let called : (w.stop || w.cancelled) ≡ true = ground arith in
      rw (open_still, called, poll)
        (record { closing = m.closing; cancelling = m.cancelling; answering = refl })

Step-Matches :
    {done : List Action} {w w' : Worker} {a : Action}
    → Step w a w'
    → Matches done w
    → Matches (a ∷ done) w'
unfolding clear_cancel ask release respond
Step-Matches (submitted text e) m = submit-Matches m submits true text e refl refl refl
Step-Matches (refused text e) m = submit-Matches m other false text e refl refl refl
Step-Matches (cancelled e) m = cancelled-Matches m e
Step-Matches (not_cancelled e) m = not_cancelled-Matches m e
Step-Matches closed m = close-Matches m
Step-Matches (answered b text r e) m = record {
  closing = m.closing;
  cancelling = m.cancelling;
  answering = refl;
}
Step-Matches (answered_late b text r e) m = record {
  closing = m.closing;
  cancelling = m.cancelling;
  answering = refl;
}
Step-Matches (starts made e) m = start_up-Matches m made
Step-Matches (enters e) m = enter-Matches m
Step-Matches (takes c rest e f) m = take_command-Matches m c rest
Step-Matches (clears_flag text e) m = record {
  closing = m.closing;
  cancelling = refl;
  answering = tt;
}
Step-Matches (asks_user text name args reason e) m = record {
  closing = m.closing;
  cancelling = m.cancelling;
  answering = refl;
}
Step-Matches (polls_quiet text r e f) m = quiet-Matches m text r e f
Step-Matches (polls_denied text r e f) m = denied-Matches m text r f
Step-Matches (returned text r e) m = record {
  closing = m.closing;
  cancelling = m.cancelling;
  answering = tt;
}
Step-Matches (settles text good e) m = settle-Matches m text good
Step-Matches (releases text e) m = moves m _ refl refl refl

Reach-Matches : {done : List Action} {w : Worker} → Reach done w → Matches done w
unfolding initial
Reach-Matches (start {w} e) =
    subst (Matches []) (sym e) (record { closing = refl; cancelling = refl; answering = tt })
Reach-Matches (next r s) = Step-Matches s (Reach-Matches r)

-- Whatever the threads did before: `approve` returns true exactly if the last answer to the question
-- was the user's yes, the application was not closed, and the running task was not cancelled.
pub returns-verdict :
    {done : List Action} {w w' : Worker} {b : Bool}
    → Reach done w
    → Step w (returns b) w'
    → b ≡ (last_answer done && not (is_closed done) && not (is_cancelled done))
returns-verdict r (returned text q e) =
    let m = Reach-Matches r in
    rw (← m.closing, ← m.cancelling, ← open_told m (judged text q) e) refl
