-- ===== src/Chat/Sync/Page.antt =====
-- The page that `SyncMessages` makes of the rows of a result set, and its max_seq.
use mathlib.Core.Path.{subst, subst₂}
use my_tiny_im.Base.{
  ◌≡◌, refl, sym, ap, ◌∙◌, true, false, some, List, [], ◌∷◌, map, All, arith, inl, inr, ◌⊎◌,
  if◌then◌else◌, Bool-cases,
}
use my_tiny_im.Base.Text.{c_str}
use my_tiny_im.Base.Int.{
  ℤ, int_lt, IsInt64, in_int32, to_string, stoll-to_string, stoi-to_string, c_str-to_string,
}
use my_tiny_im.Services.{
  read_db, db_opened, sql_query, Row, SqlAnswer, sql_rows, History, Services, Outcome, ok, thrown,
  fault, bind, after, pure,
}
use my_tiny_im.Services.Mysql.{open_db, query, stoll_column, stoi_column, text_column}
use my_tiny_im.Chat.{SyncMessagesReq, SyncMessagesResp, MessageItem, Status, status_ok}
use my_tiny_im.Chat.Sync.{sync_sql, read_item, read_items, sync_reply, sync_messages}

-- x ≤ y
abbrev pub IntLe : ℤ → ℤ → Type 0
IntLe x y = int_lt y x ≡ false

IntLe-refl : (x : ℤ) → IntLe x x
IntLe-refl x = ground arith

IntLe-trans : (x y z : ℤ) → IntLe x y → IntLe y z → IntLe x z
IntLe-trans x y z h k = ground arith

int_lt-IntLe : (x y : ℤ) → int_lt x y ≡ true → IntLe x y
int_lt-IntLe x y h = ground arith

-- A sequence number of an item of the page.
abbrev pub SeqOf : ℤ → List MessageItem → Type 0
SeqOf x [] = ⊥
SeqOf x (item ∷ items) = (x ≡ item.seq_id) ⊎ SeqOf x items

abbrev pub Covers : ℤ → ℤ → List MessageItem → Type 0
Covers max_seq local_seq items =
    IntLe local_seq max_seq
    × All (λ item. IntLe item.seq_id max_seq) items
    × ((max_seq ≡ local_seq) ⊎ SeqOf max_seq items)

max_with : ℤ → ℤ → ℤ
max_with m s = if int_lt m s then s else m

Covers-step :
    (m mx : ℤ) (item : MessageItem) (items : List MessageItem)
    → Covers mx (max_with m item.seq_id) items
    → Covers mx m (item ∷ items)
unfolding max_with
Covers-step m mx item items (a, b, c) = elim (Bool-cases (int_lt m item.seq_id)) [
  | inl e ↦
      let up : IntLe item.seq_id mx = rw e at a in
      (IntLe-trans m item.seq_id mx (int_lt-IntLe m item.seq_id e) up, (up, b), newer (rw e at c))
  | inr e ↦
      let up : IntLe m mx = rw e at a in
      (up, (IntLe-trans item.seq_id m mx e up, b), older (rw e at c))
]
  where
    newer : (mx ≡ item.seq_id) ⊎ SeqOf mx items → (mx ≡ m) ⊎ ((mx ≡ item.seq_id) ⊎ SeqOf mx items)
    newer c = inr c

    older : (mx ≡ m) ⊎ SeqOf mx items → (mx ≡ m) ⊎ ((mx ≡ item.seq_id) ⊎ SeqOf mx items)
    older (inl h) = inl h
    older (inr h) = inr (inr h)

ok_injective : {A : Type 0} {a b : A} → ◌≡◌ {A = Outcome A} (ok a) (ok b) → a ≡ b
ok_injective h = ground arith

bind-ok :
    {A B : Type 0} (m : Outcome A) (f : A → Outcome B) {b : B}
    → bind m f ≡ ok b
    → (a : A) × (m ≡ ok a) × (f a ≡ ok b)
bind-ok (ok a) f h = (a, refl, h)
bind-ok thrown f h = cc
bind-ok fault f h = cc

Covers-of :
    (p q : List MessageItem × ℤ) (m : ℤ)
    → ◌≡◌ {A = Outcome (List MessageItem × ℤ)} (ok p) (ok q)
    → Covers p.1 m p.0
    → Covers q.1 m q.0
Covers-of p q m e c = subst₂ (λ x l. Covers x m l) (ground arith) (ground arith) c

read_items-Covers :
    (rows : List Row) (m mx : ℤ) (items : List MessageItem)
    → read_items rows m ≡ ok (items, mx)
    → Covers mx m items
unfolding read_items max_with
read_items-Covers [] m mx items e = ground (arith, IntLe-refl m)
read_items-Covers (row ∷ rows) m mx items e =
    let (item, read, e') = bind-ok (read_item row) _ e in
    let (rest, more, e'') = bind-ok (read_items rows (max_with m item.seq_id)) _ e' in
    Covers-of (item ∷ rest.0, rest.1) (items, mx) m e''
      (Covers-step m rest.1 item rest.0
        (read_items-Covers rows (max_with m item.seq_id) rest.1 rest.0 more))

-- The handler on a connection that is there: one query, and what is made of its answer.
pub sync_messages_run :
    (sv : Services) (req : SyncMessagesReq) (h : History) (answer : SqlAnswer)
    → sv.db_connect h read_db ≡ true
    → sv.mysql (db_opened read_db true ∷ h) read_db (c_str (sync_sql req)) ≡ answer
    → sync_messages sv req h
      ≡ after
          (
            sync_reply req.local_seq answer,
            sql_query read_db (c_str (sync_sql req)) answer ∷ db_opened read_db true ∷ h,
          )
          (λ reply. pure (status_ok, reply))
unfolding sync_messages open_db query
sync_messages_run sv req h answer w a = rw (w, a)

lifted :
    (r : Outcome SyncMessagesResp) (reply : SyncMessagesResp) (h h' : History)
    → after {B = Status × SyncMessagesResp} (r, h) (λ x. pure (status_ok, x))
      ≡ (ok (status_ok, reply), h')
    → r ≡ ok reply
lifted (ok x) reply h h' e = ground arith
lifted thrown reply h h' e = ground arith
lifted fault reply h h' e = ground arith

reply_covers :
    (local_seq : ℤ) (rows : List Row) (reply : SyncMessagesResp)
    → sync_reply local_seq (sql_rows rows) ≡ ok reply
    → (reply.success ≡ true)
      × IntLe local_seq reply.max_seq
      × All (λ item. IntLe item.seq_id reply.max_seq) reply.msgs
      × ((reply.max_seq ≡ local_seq) ⊎ SeqOf reply.max_seq reply.msgs)
unfolding sync_reply
reply_covers local_seq rows reply e =
    let (r, read, made) = bind-ok (read_items rows local_seq) _ e in
    let c = read_items-Covers rows local_seq r.1 r.0 read in
    subst
      (λ (x : SyncMessagesResp).
        (x.success ≡ true)
        × IntLe local_seq x.max_seq
        × All (λ item. IntLe item.seq_id x.max_seq) x.msgs
        × ((x.max_seq ≡ local_seq) ⊎ SeqOf x.max_seq x.msgs))
      (ok_injective made) (refl, c.0, c.1, c.2)

-- On a connection that is there, a successful sync that got rows has a max_seq that is at least the
-- client's sequence number and at least each message's, and is one of them.
pub sync_covers :
    (sv : Services) (req : SyncMessagesReq) (h h' : History) (rows : List Row)
    (reply : SyncMessagesResp)
    → sv.db_connect h read_db ≡ true
    → sv.mysql (db_opened read_db true ∷ h) read_db (c_str (sync_sql req)) ≡ sql_rows rows
    → sync_messages sv req h ≡ (ok (status_ok, reply), h')
    → (reply.success ≡ true)
      × IntLe req.local_seq reply.max_seq
      × All (λ item. IntLe item.seq_id reply.max_seq) reply.msgs
      × ((reply.max_seq ≡ req.local_seq) ⊎ SeqOf reply.max_seq reply.msgs)
sync_covers sv req h h' rows reply w a e =
    let run = sync_messages_run sv req h (sql_rows rows) w a in
    reply_covers req.local_seq rows reply
      (lifted (sync_reply req.local_seq (sql_rows rows)) reply _ h' (sym run ∙ e))

-- The row of a stored message.
abbrev pub row_of : MessageItem → Row
row_of item =
    some (to_string item.seq_id)
    ∷ some (to_string item.msg_id)
    ∷ some (to_string item.sender_id)
    ∷ some (to_string item.group_id)
    ∷ some (to_string item.type)
    ∷ some item.content
    ∷ some item.created_at
    ∷ []

-- Its numbers are in range, and its texts hold no NUL.
pub record IsStored (item : MessageItem) : Type 0 where
  pub seq_fits : IsInt64 item.seq_id
  pub msg_fits : IsInt64 item.msg_id
  pub sender_fits : IsInt64 item.sender_id
  pub group_fits : IsInt64 item.group_id
  pub type_fits : in_int32 item.type ≡ true
  pub content_text : c_str item.content ≡ item.content
  pub created_text : c_str item.created_at ≡ item.created_at

pub read_item-row_of : (item : MessageItem) → IsStored item → read_item (row_of item) ≡ ok item
unfolding read_item stoll_column stoi_column text_column
read_item-row_of item v = rw (
  c_str-to_string item.seq_id,
  stoll-to_string item.seq_id v.seq_fits,
  c_str-to_string item.msg_id,
  stoll-to_string item.msg_id v.msg_fits,
  c_str-to_string item.sender_id,
  stoll-to_string item.sender_id v.sender_fits,
  c_str-to_string item.group_id,
  stoll-to_string item.group_id v.group_fits,
  c_str-to_string item.type,
  stoi-to_string item.type v.type_fits,
  v.content_text,
  v.created_text,
)

-- max_seq_found at the end
unfoldable pub max_seq_of : ℤ → List MessageItem → ℤ
max_seq_of m [] = m
max_seq_of m (item ∷ items) = max_seq_of (if int_lt m item.seq_id then item.seq_id else m) items

read_items-row_of :
    (items : List MessageItem) (m : ℤ)
    → All IsStored items
    → read_items (map row_of items) m ≡ ok (items, max_seq_of m items)
unfolding read_items max_seq_of
read_items-row_of [] m v = refl
read_items-row_of (item ∷ items) m v = rw (read_item-row_of item v.0) (
    ap (λ (r : Outcome (List MessageItem × ℤ)). bind r (λ rest. ok (item ∷ rest.0, rest.1)))
      (read_items-row_of items (if int_lt m item.seq_id then item.seq_id else m) v.1))

-- On a connection that is there, if the result set holds the rows of stored messages, the reply
-- lists those messages in the order of the rows, with the largest of the client's sequence number
-- and theirs, after one query.
pub sync_returns_page :
    (sv : Services) (req : SyncMessagesReq) (h : History) (items : List MessageItem)
    → sv.db_connect h read_db ≡ true
    → sv.mysql (db_opened read_db true ∷ h) read_db (c_str (sync_sql req))
      ≡ sql_rows (map row_of items)
    → All IsStored items
    → sync_messages sv req h ≡ (
      ok (
        status_ok,
        record { max_seq = max_seq_of req.local_seq items; msgs = items; success = true },
      ),
      sql_query read_db (c_str (sync_sql req)) (sql_rows (map row_of items))
          ∷ db_opened read_db true
          ∷ h,
    )
sync_returns_page sv req h items w a v =
    sync_messages_run sv req h (sql_rows (map row_of items)) w a
    ∙ unfold sync_reply in rw (read_items-row_of items req.local_seq v)
