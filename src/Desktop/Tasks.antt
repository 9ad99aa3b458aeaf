-- ===== src/Desktop/Tasks.antt =====
-- One task at a time: what `busy` stands for.
use kanna_pa.Prelude.{
  ℕ, suc, ◌+◌, ◌≤◌, String, ◌≡◌, refl, sym, subst, Bool, true, false, Option, none, some, List, [],
  ◌∷◌, ◌++◌, arith,
}
use kanna_pa.Desktop.{
  Worker, Phase, starting, looping, waiting, ended, taken, running, settled, asking, judged,
  initial, submit, cancel, close, leave, start_up, enter, take_command, clear_cancel, ask, poll,
  settle, release, respond, ApprovalRequest, Action, Step, submitted, refused, cancelled,
  not_cancelled, closed, answered, answered_late, starts, enters, takes, clears_flag, asks_user,
  polls_quiet, polls_denied, returned, settles, releases,
}
use kanna_pa.Desktop.Reach.{Reach, start, next}

-- The tasks that wait in the queue, and the one in the worker's hands.
abbrev pub queued : List (Option String) → ℕ
queued [] = 0
queued (none ∷ cs) = queued cs
queued (some t ∷ cs) = suc (queued cs)

abbrev pub in_hand : Phase → ℕ
in_hand starting = 0
in_hand looping = 0
in_hand waiting = 0
in_hand ended = 0
in_hand (taken t) = 1
in_hand (running t) = 1
in_hand (settled t) = 1
in_hand (asking t r) = 1
in_hand (judged t r) = 1

abbrev pub has_left : Phase → Bool
has_left ended = true
has_left _ = false

abbrev pub tasks : Worker → ℕ
tasks w = queued w.commands + in_hand w.phase

pub record IsExclusive (w : Worker) : Type 0 where
  pub single : tasks w ≤ 1
  pub free : w.busy ≡ false → tasks w ≡ 0
  pub kept : w.busy ≡ true → has_left w.phase ≡ false → tasks w ≡ 1

queued-append :
    (cs : List (Option String)) (c : Option String)
    → queued (cs ++ c ∷ []) ≡ queued cs + queued (c ∷ [])
queued-append [] c = omega arith
queued-append (none ∷ cs) c = queued-append cs c
queued-append (some t ∷ cs) c = omega (arith, queued-append cs c)

module _ {w : Worker} (v : IsExclusive w) where
  submit-IsExclusive :
      (text : String) (b : Bool) {w' : Worker} → submit text w ≡ (b, w') → IsExclusive w'
  unfolding submit
  submit-IsExclusive text b e = ground (arith, queued-append w.commands (some text), v.free)

  cancel-IsExclusive : (b : Bool) {w' : Worker} → cancel w ≡ (b, w') → IsExclusive w'
  unfolding cancel
  cancel-IsExclusive b e = ground (arith, v.free, v.kept)

  close-IsExclusive : IsExclusive (close w)
  unfolding close
  close-IsExclusive = ground (arith, queued-append w.commands none, v.free, v.kept)

  respond-IsExclusive :
      (p q : Phase)
      → w.phase ≡ p
      → in_hand q ≡ in_hand p
      → has_left q ≡ has_left p
      → IsExclusive (record w { phase = q })
  respond-IsExclusive p q e f g = ground (arith, v.free, v.kept)

  start_up-IsExclusive : (made : Bool) → w.phase ≡ starting → IsExclusive (start_up made w)
  unfolding start_up leave
  start_up-IsExclusive true e = ground (arith, v.free, v.kept)
  start_up-IsExclusive false e = ground (arith, v.free, v.kept)

  enter-IsExclusive : w.phase ≡ looping → IsExclusive (enter w)
  unfolding enter leave
  enter-IsExclusive e = ground (arith, v.free, v.kept)

  take_command-IsExclusive :
      (c : Option String) (rest : List (Option String))
      → w.phase ≡ waiting
      → w.commands ≡ c ∷ rest
      → IsExclusive (take_command c rest w)
  unfolding take_command leave
  take_command-IsExclusive none rest e f = ground (arith, v.free, v.kept)
  take_command-IsExclusive (some t) rest e f = ground (arith, v.free, v.kept)

  poll-IsExclusive :
      (text : String) (r : ApprovalRequest) → w.phase ≡ asking text r → IsExclusive (poll text r w)
  unfolding poll
  poll-IsExclusive text r e = ground (arith, v.free, v.kept)

  settle-IsExclusive :
      (text : String) (good : Bool) → w.phase ≡ running text → IsExclusive (settle text good w)
  unfolding settle
  settle-IsExclusive text true e = ground (arith, v.free, v.kept)
  settle-IsExclusive text false e = ground (arith, v.free, v.kept)

  release-IsExclusive : (text : String) → w.phase ≡ settled text → IsExclusive (release w)
  unfolding release
  release-IsExclusive text e = ground (arith, v.free, v.kept)

Step-IsExclusive : {w w' : Worker} {a : Action} → Step w a w' → IsExclusive w → IsExclusive w'
unfolding clear_cancel ask
Step-IsExclusive (submitted text e) v = submit-IsExclusive v text true e
Step-IsExclusive (refused text e) v = submit-IsExclusive v text false e
Step-IsExclusive (cancelled e) v = cancel-IsExclusive v true e
Step-IsExclusive (not_cancelled e) v = cancel-IsExclusive v false e
Step-IsExclusive closed v = close-IsExclusive v
Step-IsExclusive (answered b text r e) v =
    respond-IsExclusive v (asking text r) (asking text (respond b r)) e refl refl
Step-IsExclusive (answered_late b text r e) v =
    respond-IsExclusive v (judged text r) (judged text (respond b r)) e refl refl
Step-IsExclusive (starts made e) v = start_up-IsExclusive v made e
Step-IsExclusive (enters e) v = enter-IsExclusive v e
Step-IsExclusive (takes c rest e f) v = take_command-IsExclusive v c rest e f
Step-IsExclusive (clears_flag text e) v = ground (arith, v.free, v.kept)
Step-IsExclusive (asks_user text name args reason e) v = ground (arith, v.free, v.kept)
Step-IsExclusive (polls_quiet text r e f) v = poll-IsExclusive v text r e
Step-IsExclusive (polls_denied text r e f) v = poll-IsExclusive v text r e
Step-IsExclusive (returned text r e) v =
    respond-IsExclusive v (judged text r) (running text) e refl refl
Step-IsExclusive (settles text good e) v = settle-IsExclusive v text good e
Step-IsExclusive (releases text e) v = release-IsExclusive v text e

initial-IsExclusive : IsExclusive initial
unfolding initial
initial-IsExclusive = record { single = omega arith; free = λ _. refl; kept = λ h _. absurd (cc) }

-- Whatever the window and the worker's thread do, and in whatever order: at most one task is
-- accepted and not finished, none while the worker is not busy, and exactly one while it is, unless
-- the thread has left.
pub Reach-IsExclusive : {done : List Action} {w : Worker} → Reach done w → IsExclusive w
Reach-IsExclusive (start e) = subst IsExclusive (sym e) initial-IsExclusive
Reach-IsExclusive (next r s) = Step-IsExclusive s (Reach-IsExclusive r)
