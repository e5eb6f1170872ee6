-- ===== src/Chat/Sync/Errors.antt =====
-- `SyncMessages` of src/chat_server/chat_service_impl.cpp where there is no page to give.
use my_tiny_im.Base.{
  not, ◌≢◌, ◌≡◌, refl, ap, ◌∙◌, true, false, none, some, List, [], ◌∷◌, ◌++◌, map, All,
  if◌then◌else◌,
}
use my_tiny_im.Base.Text.{c_str}
use my_tiny_im.Base.Int.{ℤ, int_lt, IsInt64, to_string, stoll-to_string, c_str-to_string}
use my_tiny_im.Services.{
  read_db, db_opened, Row, SqlAnswer, sql_failed, sql_rows, sql_done, History, Services, Outcome,
  ok, fault, bind,
}
use my_tiny_im.Services.Mysql.{open_db, query, is_failed, stoll_column}
use my_tiny_im.Chat.{SyncMessagesReq, MessageItem, status_ok}
use my_tiny_im.Chat.Sync.{sync_sql, read_item, read_items, sync_reply, sync_messages, empty_page}
use my_tiny_im.Chat.Sync.Page.{row_of, IsStored, read_item-row_of, sync_messages_run}

-- Without a connection the handler uses a null pointer: it has no reply, not even an error status.
pub sync_unconnected :
    (sv : Services) (req : SyncMessagesReq) (h : History)
    → sv.db_connect h read_db ≡ false
    → sync_messages sv req h ≡ (fault, db_opened read_db false ∷ h)
unfolding sync_messages open_db query
sync_unconnected sv req h w = rw w

-- On a connection that is there, an answer without rows gives a reply with no message and max_seq
-- 0, whatever the client's sequence number; it is a success exactly if the query did not fail.
pub sync_no_rows :
    (sv : Services) (req : SyncMessagesReq) (h : History) (answer : SqlAnswer)
    → sv.db_connect h read_db ≡ true
    → sv.mysql (db_opened read_db true ∷ h) read_db (c_str (sync_sql req)) ≡ answer
    → ((rows : List Row) → answer ≢ sql_rows rows)
    → (sync_messages sv req h).0
      ≡ ok (status_ok, record empty_page { success = not (is_failed answer) })
unfolding sync_reply
sync_no_rows sv req h (sql_failed errno) w a n = ap (λ r. r.0) (sync_messages_run sv req h _ w a)
sync_no_rows sv req h (sql_done id) w a n = ap (λ r. r.0) (sync_messages_run sv req h _ w a)
sync_no_rows sv req h (sql_rows rows) w a n = absurd (n rows refl)

-- The row of an index entry whose body is missing: LEFT JOIN fills the body's columns with NULL.
abbrev pub dangling_row : ℤ → ℤ → Row
dangling_row seq_id msg_id =
    some (to_string seq_id) ∷ some (to_string msg_id) ∷ none ∷ none ∷ none ∷ none ∷ none ∷ []

dangling_item :
    (seq_id msg_id : ℤ)
    → IsInt64 seq_id
    → IsInt64 msg_id
    → read_item (dangling_row seq_id msg_id) ≡ fault
unfolding read_item stoll_column
dangling_item seq_id msg_id s m = rw (
  c_str-to_string seq_id,
  stoll-to_string seq_id s,
  c_str-to_string msg_id,
  stoll-to_string msg_id m,
)

dangling_items :
    (items : List MessageItem) (seq_id msg_id m : ℤ) (rows : List Row)
    → All IsStored items
    → IsInt64 seq_id
    → IsInt64 msg_id
    → read_items (map row_of items ++ dangling_row seq_id msg_id ∷ rows) m ≡ fault
unfolding read_items
dangling_items [] seq_id msg_id m rows v s k = rw (dangling_item seq_id msg_id s k)
dangling_items (item ∷ items) seq_id msg_id m rows v s k = rw (read_item-row_of item v.0) (
    ap (λ (r : Outcome (List MessageItem × ℤ)). bind r (λ rest. ok (item ∷ rest.0, rest.1)))
      (dangling_items items seq_id msg_id (if int_lt m item.seq_id then item.seq_id else m) rows v.1
        s k))

-- On a connection that is there, one index entry whose body is missing, with identifiers in the
-- range of 64 bits, spoils the page that it is on: whatever stored messages stand before it and
-- whatever rows follow, the handler converts a null pointer.
pub sync_dangling :
    (sv : Services) (req : SyncMessagesReq) (h : History) (items : List MessageItem)
    (seq_id msg_id : ℤ) (rows : List Row)
    → sv.db_connect h read_db ≡ true
    → sv.mysql (db_opened read_db true ∷ h) read_db (c_str (sync_sql req))
      ≡ sql_rows (map row_of items ++ dangling_row seq_id msg_id ∷ rows)
    → All IsStored items
    → IsInt64 seq_id
    → IsInt64 msg_id
    → (sync_messages sv req h).0 ≡ fault
sync_dangling sv req h items seq_id msg_id rows w a v s k =
    ap (λ r. r.0) (sync_messages_run sv req h _ w a)
    ∙ unfold sync_reply in rw (dangling_items items seq_id msg_id req.local_seq rows v s k)
