-- ===== src/Gateway/Writer/Order.antt =====
-- The order in which queued messages reach the socket of a session.
use mathlib.Core.List.{append_assoc, append-nil}
use my_tiny_im.Base.{
  ◌≡◌, ◌≢◌, refl, sym, ap, ◌∙◌, Bool, true, false, List, [], ◌∷◌, ◌++◌, if◌then◌else◌,
}
use my_tiny_im.Base.Text.{Text}
use my_tiny_im.Gateway.Writer.{
  Output, write, close, Writer, init, do_write, on_write, send, kick, kick_packet, Runs, start,
  sends, kicks, completes,
}

-- The messages handed to async_write.
abbrev pub writes : List Output → List Text
writes [] = []
writes (write msg ∷ out) = msg ∷ writes out
writes (close ∷ out) = writes out

pub writes-append : (xs ys : List Output) → writes (xs ++ ys) ≡ writes xs ++ writes ys
writes-append [] ys = refl
writes-append (write msg ∷ xs) ys = ap (◌∷◌ msg) (writes-append xs ys)
writes-append (close ∷ xs) ys = writes-append xs ys

abbrev front : List Text → List Text
front [] = []
front (msg ∷ rest) = msg ∷ []

abbrev pub in_flight : Writer → List Text
in_flight w = if w.is_writing then front w.write_queue else []

-- What was queued is what was completed and what still waits; what was written is what was
-- completed and the message in flight; a write under way has its message at the front.
pub record InOrder (queued completed : List Text) (w : Writer) : Type 0 where
  pub waiting : queued ≡ completed ++ w.write_queue
  pub written : writes w.out ≡ completed ++ in_flight w
  pub busy : w.is_writing ≡ true → w.write_queue ≢ []

abbrev pub writer : List Text → Bool → Bool → List Output → Writer
writer q b c o = record { write_queue = q; is_writing = b; close_after_write = c; out = o }

do_write-InOrder :
    (queued completed q : List Text) (b c : Bool) (o : List Output)
    → InOrder queued completed (writer q b c o)
    → InOrder queued completed (do_write (writer q b c o))
unfolding do_write
do_write-InOrder queued completed [] true c o v = v
do_write-InOrder queued completed (m ∷ q) true c o v = v
do_write-InOrder queued completed [] false c o v = v
do_write-InOrder queued completed (m ∷ q) false c o v = record {
  waiting = v.waiting;
  written =
      writes-append o (write m ∷ [])
      ∙ ap (λ (l : List Text). l ++ m ∷ []) (v.written ∙ append-nil completed);
  busy = λ _ e. cc e;
}

snoc-waiting :
    (queued completed q : List Text) (msg : Text)
    → queued ≡ completed ++ q
    → queued ++ msg ∷ [] ≡ completed ++ (q ++ msg ∷ [])
snoc-waiting queued completed q msg e =
    ap (λ (l : List Text). l ++ msg ∷ []) e ∙ append_assoc completed q (msg ∷ [])

-- Queueing at the end keeps the front of a queue that is being written.
push-InOrder :
    (queued completed q : List Text) (b c c' : Bool) (o : List Output) (msg : Text)
    → InOrder queued completed (writer q b c o)
    → InOrder (queued ++ msg ∷ []) completed (writer (q ++ msg ∷ []) b c' o)
push-InOrder queued completed [] true c c' o msg v = absurd (v.busy refl refl)
push-InOrder queued completed (m ∷ q) true c c' o msg v = record {
  waiting = snoc-waiting queued completed _ msg v.waiting;
  written = v.written;
  busy = λ _ e. cc e;
}
push-InOrder queued completed [] false c c' o msg v = record {
  waiting = snoc-waiting queued completed _ msg v.waiting;
  written = v.written;
  busy = λ e _. cc e;
}
push-InOrder queued completed (m ∷ q) false c c' o msg v = record {
  waiting = snoc-waiting queued completed _ msg v.waiting;
  written = v.written;
  busy = λ e _. cc e;
}

-- A completion moves the front of the queue to the completed messages.
pop-InOrder :
    (queued completed q : List Text) (c : Bool) (o : List Output) (m : Text)
    → InOrder queued completed (writer (m ∷ q) true c o)
    → InOrder queued (completed ++ m ∷ []) (writer q false c o)
pop-InOrder queued completed q c o m v = record {
  waiting = v.waiting ∙ sym (append_assoc completed (m ∷ []) q);
  written = v.written ∙ sym (append-nil _);
  busy = λ e _. cc e;
}

close-InOrder :
    (queued completed q : List Text) (b c : Bool) (o : List Output)
    → InOrder queued completed (writer q b c o)
    → InOrder queued completed (writer q b c (o ++ close ∷ []))
close-InOrder queued completed q b c o v = record {
  waiting = v.waiting;
  written = writes-append o (close ∷ []) ∙ append-nil (writes o) ∙ v.written;
  busy = v.busy;
}

pub on_write-InOrder :
    (failed : Bool) (queued completed q : List Text) (c : Bool) (o : List Output) (m : Text)
    → InOrder queued completed (writer (m ∷ q) true c o)
    → InOrder queued (completed ++ m ∷ []) (on_write failed (writer (m ∷ q) true c o))
unfolding on_write
on_write-InOrder failed queued completed [] true o m v =
    close-InOrder _ _ _ _ _ _ (pop-InOrder _ _ _ _ _ _ v)
on_write-InOrder failed queued completed [] false o m v = pop-InOrder _ _ _ _ _ _ v
on_write-InOrder false queued completed (n ∷ q) c o m v =
    do_write-InOrder _ _ (n ∷ q) false c o (pop-InOrder _ _ _ _ _ _ v)
on_write-InOrder true queued completed (n ∷ q) c o m v = pop-InOrder _ _ _ _ _ _ v

completes-InOrder :
    (failed : Bool) (queued completed q : List Text) (b c : Bool) (o : List Output)
    → b ≡ true
    → InOrder queued completed (writer q b c o)
    → (done : List Text) × InOrder queued done (on_write failed (writer q b c o))
completes-InOrder failed queued completed q false c o e v = cc e
completes-InOrder failed queued completed [] true c o e v = absurd (v.busy refl refl)
completes-InOrder failed queued completed (m ∷ q) true c o e v =
    (completed ++ m ∷ [], on_write-InOrder failed queued completed q c o m v)

init-InOrder : InOrder [] [] init
init-InOrder = record { waiting = refl; written = refl; busy = λ e _. cc e }

-- In every history of a session, the messages written so far are the ones that were queued, in
-- that order and each once, up to the message in flight; the others wait in the queue. A failed
-- write is no exception, and at most one write is under way.
pub Runs-InOrder :
    {queued : List Text} {w : Writer}
    → Runs queued w
    → (completed : List Text) × InOrder queued completed w
unfolding send kick
Runs-InOrder start = ([], init-InOrder)
Runs-InOrder (sends {w = w} msg r) =
    let (completed, v) = Runs-InOrder r in
    (completed, do_write-InOrder _ _ _ _ _ _ (push-InOrder _ _ _ _ _ _ _ msg v))
Runs-InOrder (kicks {w = w} r) =
    let (completed, v) = Runs-InOrder r in
    (completed, do_write-InOrder _ _ _ _ _ _ (push-InOrder _ _ _ _ _ true _ kick_packet v))
Runs-InOrder (completes {w = w} failed e r) =
    let (completed, v) = Runs-InOrder r in completes-InOrder failed _ completed _ _ _ _ e v
