-- ===== src/Relation/Unconnected.antt =====
-- The handlers of the relation server without a connection to the database.
use my_tiny_im.Base.{◌≡◌, refl, Bool, true, false, Bool-cases, inl, inr}
use my_tiny_im.Base.Int.{int_eq}
use my_tiny_im.Services.{write_db, History, Services, Outcome, ok, thrown, fault}
use my_tiny_im.Services.Mysql.{open_db, query}
use my_tiny_im.Relation.Friends.{apply_friend, accept_friend}
use my_tiny_im.Relation.Groups.{create_group, join_group, apply_group, accept_group}
use my_tiny_im.Relation.Notify.{
  RelationCall, applies_friend, accepts_friend, creates_group, joins_group, applies_group,
  accepts_group,
}

abbrev pub is_fault {ℓ} : {A : Type ℓ} → Outcome A → Bool
is_fault (ok a) = false
is_fault thrown = false
is_fault fault = true

-- Whether a call ends in the use of a null pointer.
unfoldable pub faults : Services → RelationCall → History → Bool
faults sv (applies_friend req) h = is_fault (apply_friend sv req h).0
faults sv (accepts_friend req) h = is_fault (accept_friend sv req h).0
faults sv (creates_group req) h = is_fault (create_group sv req h).0
faults sv (joins_group req) h = is_fault (join_group sv req h).0
faults sv (applies_group req) h = is_fault (apply_group sv req h).0
faults sv (accepts_group req) h = is_fault (accept_group sv req h).0

-- Whether a call uses its connection without a test.
unfoldable pub is_untested : RelationCall → Bool
is_untested (applies_friend req) = false
is_untested (accepts_friend req) = req.accept
is_untested (creates_group req) = true
is_untested (joins_group req) = true
is_untested (applies_group req) = true
is_untested (accepts_group req) = req.accept

-- When no connection can be had, a handler that changes something uses a null pointer, except
-- ApplyFriend, which answers, and a refusal of a friend or of a member, which needs no database.
pub faults_unconnected :
    (sv : Services) (call : RelationCall) (h : History)
    → sv.db_connect h write_db ≡ false
    → faults sv call h ≡ is_untested call
unfolding faults is_untested apply_friend accept_friend create_group join_group apply_group
    accept_group open_db query
faults_unconnected sv (applies_friend req) h w =
    elim (Bool-cases (int_eq req.user_id req.friend_id)) [
      | inl e ↦ rw e refl
      | inr e ↦ rw (e, w) refl
    ]
faults_unconnected sv (accepts_friend req) h w = elim (Bool-cases req.accept) [
  | inl e ↦ rw (e, w) refl
  | inr e ↦ rw e refl
]
faults_unconnected sv (creates_group req) h w = rw w refl
faults_unconnected sv (joins_group req) h w = rw w refl
faults_unconnected sv (applies_group req) h w = rw w refl
faults_unconnected sv (accepts_group req) h w = elim (Bool-cases req.accept) [
  | inl e ↦ rw (e, w) refl
  | inr e ↦ rw e refl
]
