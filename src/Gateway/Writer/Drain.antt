-- ===== src/Gateway/Writer/Drain.antt =====
-- The close of a kicked session in src/gateway/websocket_session.cpp, and the failed write.
use mathlib.Core.Path.{ap₂, subst}
use mathlib.Core.List.{append_assoc}
use my_tiny_im.Base.{
  ℕ, zero, suc, ◌+◌, ◌≡◌, ◌≢◌, refl, sym, ap, ◌∙◌, Bool, true, false, List, [], ◌∷◌, ◌++◌, map,
  length, arith,
}
use my_tiny_im.Base.Text.{Text}
use my_tiny_im.Gateway.Writer.{
  Output, write, close, Writer, on_write, kick, kick_packet, Runs, kicks,
}
use my_tiny_im.Gateway.Writer.Order.{
  writes, writes-append, InOrder, writer, on_write-InOrder, Runs-InOrder,
}

-- n writes in a row that succeed
abbrev pub drain : ℕ → Writer → Writer
drain zero w = w
drain (suc n) w = drain n (on_write false w)

-- A session that is being closed writes what it has queued and then closes.
drain-out :
    (m : Text) (q : List Text) (o : List Output)
    → drain (length (m ∷ q)) (writer (m ∷ q) true true o)
      ≡ writer [] false true (o ++ (map write q ++ close ∷ []))
unfolding on_write
drain-out m [] o = refl
drain-out m (n ∷ q) o =
    drain-out n q (o ++ write n ∷ [])
    ∙ ap (writer [] false true) (append_assoc o (write n ∷ []) (map write q ++ close ∷ []))

writes-map : (q : List Text) → writes (map write q) ≡ q
writes-map [] = refl
writes-map (m ∷ q) = ap (◌∷◌ m) (writes-map q)

drain-InOrder :
    (queued completed q : List Text) (o : List Output)
    → q ≢ []
    → InOrder queued completed (writer q true true o)
    → (before : List Output) × (drain (length q) (writer q true true o)
        ≡ writer [] false true (before ++ close ∷ []))
      × (writes before ≡ queued)
drain-InOrder queued completed [] o h v = absurd (h refl)
drain-InOrder queued completed (m ∷ q) o h v = (
  o ++ map write q,
  drain-out m q o ∙ ap (writer [] false true) (sym (append_assoc o (map write q) (close ∷ []))),
  writes-append o (map write q)
      ∙ ap₂ ◌++◌ v.written (writes-map q)
      ∙ append_assoc completed (m ∷ []) q
      ∙ sym v.waiting,
)

kick-shape :
    (q : List Text) (b c : Bool) (o : List Output)
    → (o' : List Output) × (kick (writer q b c o) ≡ writer (q ++ kick_packet ∷ []) true true o')
unfolding kick
kick-shape q true c o = (o, refl)
kick-shape [] false c o = (o ++ write kick_packet ∷ [], refl)
kick-shape (m ∷ q) false c o = (o ++ write m ∷ [], refl)

drained :
    {queued completed : List Text} (w : Writer) (q : List Text) (o : List Output)
    → w ≡ writer q true true o
    → q ≢ []
    → InOrder queued completed w
    → (before : List Output) × ((drain (length w.write_queue) w).out ≡ before ++ close ∷ [])
      × ((drain (length w.write_queue) w).write_queue ≡ [])
      × (writes before ≡ queued)
drained {queued} {completed} w q o e h v =
    let (before, d, ws) =
      drain-InOrder queued completed q o h (subst (InOrder queued completed) e v) in
    let d' = ap (λ (x : Writer). drain (length x.write_queue) x) e ∙ d in
    (before, ap (λ (x : Writer). x.out) d', ap (λ (x : Writer). x.write_queue) d', ws)

snoc-ne-nil : (q : List Text) (m : Text) → q ++ m ∷ [] ≢ []
snoc-ne-nil [] m e = cc e
snoc-ne-nil (n ∷ q) m e = cc e

-- After `Kick` in any history of a session, as many successful writes as are queued empty the
-- queue and end with Close(); by then everything that was queued has been written in order, the
-- kick packet last.
pub kick-drain :
    {queued : List Text} {w : Writer}
    → Runs queued w
    → let end = drain (length (kick w).write_queue) (kick w) in
      (before : List Output) × (end.out ≡ before ++ close ∷ [])
      × (end.write_queue ≡ [])
      × (writes before ≡ queued ++ kick_packet ∷ [])
kick-drain {queued} {w} r =
    let (o, e) = kick-shape w.write_queue w.is_writing w.close_after_write w.out in
    let (completed, v) = Runs-InOrder (kicks r) in
    drained (kick w) (w.write_queue ++ kick_packet ∷ []) o e (snoc-ne-nil w.write_queue kick_packet)
      v

closes : List Output → ℕ
closes [] = 0
closes (write msg ∷ o) = closes o
closes (close ∷ o) = suc (closes o)

closes-append : (xs ys : List Output) → closes (xs ++ ys) ≡ closes xs + closes ys
unfolding closes
closes-append [] ys = omega arith
closes-append (write msg ∷ xs) ys = closes-append xs ys
closes-append (close ∷ xs) ys = omega (arith, closes-append xs ys)

not_closed : (o : List Output) → o ≢ o ++ close ∷ []
unfolding closes
not_closed o e = absurd (omega (arith, ap closes e, closes-append o (close ∷ [])))

not_closed_write : (o : List Output) (m : Text) → o ++ write m ∷ [] ≢ o ++ close ∷ []
unfolding closes
not_closed_write o m e =
    absurd
      (omega (arith, ap closes e, closes-append o (close ∷ []), closes-append o (write m ∷ [])))

close_after_go :
    (failed : Bool) (queued completed q : List Text) (b c : Bool) (o : List Output)
    → b ≡ true
    → InOrder queued completed (writer q b c o)
    → (on_write failed (writer q b c o)).out ≡ o ++ close ∷ []
    → (c ≡ true)
      × ((on_write failed (writer q b c o)).write_queue ≡ [])
      × (writes (on_write failed (writer q b c o)).out ≡ queued)
unfolding on_write
close_after_go failed queued completed q false c o h v e = cc h
close_after_go failed queued completed [] true c o h v e = absurd (v.busy refl refl)
close_after_go failed queued completed (m ∷ []) true true o h v e =
    let v' = on_write-InOrder failed queued completed [] true o m v in
    (refl, refl, v'.written ∙ sym v'.waiting)
close_after_go failed queued completed (m ∷ []) true false o h v e = absurd (not_closed o e)
close_after_go false queued completed (m ∷ n ∷ q) true c o h v e = absurd (not_closed_write o n e)
close_after_go true queued completed (m ∷ n ∷ q) true c o h v e = absurd (not_closed o e)

kick_stalls_go :
    (queued completed q : List Text) (b c : Bool) (o : List Output)
    → b ≡ true
    → InOrder queued completed (writer q b c o)
    → let s = on_write true (kick (writer q b c o)) in
      (s.close_after_write ≡ true) × (s.is_writing ≡ false) × (s.write_queue ≢ []) × (s.out ≡ o)
unfolding on_write kick
kick_stalls_go queued completed q false c o h v = cc h
kick_stalls_go queued completed [] true c o h v = absurd (v.busy refl refl)
kick_stalls_go queued completed (m ∷ []) true c o h v =
    (refl, refl, snoc-ne-nil [] kick_packet, refl)
kick_stalls_go queued completed (m ∷ n ∷ q) true c o h v =
    (refl, refl, snoc-ne-nil (n ∷ q) kick_packet, refl)

-- Whenever the completion of a write calls Close(), a kick was requested, nothing is left in the queue, and every
-- message queued so far has been written.
pub close_after_all :
    (failed : Bool) {queued : List Text} {w : Writer}
    → Runs queued w
    → w.is_writing ≡ true
    → (on_write failed w).out ≡ w.out ++ close ∷ []
    → (w.close_after_write ≡ true)
      × ((on_write failed w).write_queue ≡ [])
      × (writes (on_write failed w).out ≡ queued)
close_after_all failed {queued} {w} r busy e =
    let (completed, v) = Runs-InOrder r in
    close_after_go failed queued completed w.write_queue w.is_writing w.close_after_write w.out busy
      v e

-- In any history of a session, if a kick comes while a write is under way and that write fails, the
-- session is left with the close requested, messages in the queue and nothing in flight: it has
-- neither written on nor called Close().
pub kick_stalls :
    {queued : List Text} {w : Writer}
    → Runs queued w
    → w.is_writing ≡ true
    → let s = on_write true (kick w) in
      (s.close_after_write ≡ true) × (s.is_writing ≡ false) × (s.write_queue ≢ []) × (s.out ≡ w.out)
kick_stalls {queued} {w} r busy =
    let (completed, v) = Runs-InOrder r in
    kick_stalls_go queued completed w.write_queue w.is_writing w.close_after_write w.out busy v
