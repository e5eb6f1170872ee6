-- ===== src/Gateway/Connections/Sessions.antt =====
-- Sets of sessions as ascending lists: membership after an insertion and an erasure.
use my_tiny_im.Base.{
  ℕ, suc, ◌≡◌, ◌<◌, ◌≤◌, refl, Bool, true, false, not, ◌&&◌, ◌||◌, [], ◌∷◌, ◌==◌, if◌then◌else◌,
  arith,
}
use my_tiny_im.Gateway.Connections.{Sessions, insert_session, erase_session}

unfoldable pub contains : ℕ → Sessions → Bool
contains s [] = false
contains s (t ∷ ts) = s == t || contains s ts

-- The sessions ascend, all above a bound.
abbrev pub Above : ℕ → Sessions → Type 0
Above lo [] = Unit
Above lo (s ∷ ss) = (lo < s) × Above s ss

abbrev pub IsAscending : Sessions → Type 0
IsAscending [] = Unit
IsAscending (s ∷ ss) = Above s ss

Above-mono : (lo hi : ℕ) (ss : Sessions) → lo < hi → Above hi ss → Above lo ss
Above-mono lo hi [] h a = tt
Above-mono lo hi (s ∷ ss) h a = (omega arith, a.1)

Above-contains : (lo s : ℕ) (ss : Sessions) → Above lo ss → contains s ss ≡ true → lo < s
unfolding contains
Above-contains lo s [] a h = cc
Above-contains lo s (t ∷ ts) a h = ground (arith, Above-contains t s ts a.1)

pub contains-insert_session :
    (t s : ℕ) (ss : Sessions) → contains t (insert_session s ss) ≡ (t == s || contains t ss)
unfolding contains insert_session
contains-insert_session t s [] = ground arith
contains-insert_session t s (u ∷ us) = ground (arith, contains-insert_session t s us)

Above-insert_session :
    (lo s : ℕ) (ss : Sessions) → lo < s → Above lo ss → Above lo (insert_session s ss)
unfolding insert_session
Above-insert_session lo s [] h a = (h, tt)
Above-insert_session lo s (t ∷ ts) h a = ground (arith, Above-insert_session t s ts, a.0, a.1)

pub insert_session-IsAscending :
    (s : ℕ) (ss : Sessions) → IsAscending ss → IsAscending (insert_session s ss)
unfolding insert_session
insert_session-IsAscending s [] a = tt
insert_session-IsAscending s (t ∷ ts) a = ground (arith, Above-insert_session t s ts)

erase-Above : (lo s : ℕ) (ss : Sessions) → Above lo ss → Above lo (erase_session s ss)
unfolding erase_session
erase-Above lo s [] a = tt
erase-Above lo s (t ∷ ts) a = ground (arith, erase-Above t s ts a.1, Above-mono lo t ts)

Above-IsAscending : (lo : ℕ) (ss : Sessions) → Above lo ss → IsAscending ss
Above-IsAscending lo [] a = tt
Above-IsAscending lo (s ∷ ss) a = a.1

pub contains-erase_session :
    (t s : ℕ) (ss : Sessions)
    → IsAscending ss
    → contains t (erase_session s ss) ≡ (not (t == s) && contains t ss)
unfolding contains erase_session
contains-erase_session t s [] a = ground arith
contains-erase_session t s (u ∷ us) a =
    ground
      (arith, contains-erase_session t s us (Above-IsAscending u us a), Above-contains u t us a)

pub erase_session-IsAscending :
    (s : ℕ) (ss : Sessions) → IsAscending ss → IsAscending (erase_session s ss)
unfolding erase_session
erase_session-IsAscending s [] a = tt
erase_session-IsAscending s (t ∷ ts) a =
    ground (arith, erase-Above t s ts a, Above-IsAscending t ts)

-- How often a session stands in a set.
unfoldable pub occurrences : ℕ → Sessions → ℕ
occurrences s [] = 0
occurrences s (t ∷ ts) = if s == t then suc (occurrences s ts) else occurrences s ts

occurrences-Above : (lo s : ℕ) (ss : Sessions) → Above lo ss → s ≤ lo → occurrences s ss ≡ 0
unfolding occurrences
occurrences-Above lo s [] a h = refl
occurrences-Above lo s (t ∷ ts) a h = ground (arith, occurrences-Above t s ts a.1)

pub occurrences-IsAscending :
    (s : ℕ) (ss : Sessions) → IsAscending ss → occurrences s ss ≡ (if contains s ss then 1 else 0)
unfolding occurrences contains
occurrences-IsAscending s [] a = refl
occurrences-IsAscending s (t ∷ ts) a = ground (
  arith,
  occurrences-IsAscending s ts (Above-IsAscending t ts a),
  occurrences-Above t s ts a,
  Above-contains t s ts a,
)
