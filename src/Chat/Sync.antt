-- ===== src/Chat/Sync.antt =====
-- `ChatServiceImpl::SyncMessages` of src/chat_server/chat_service_impl.cpp: a page of a user's
-- inbox, forward from a sequence number or the latest.
pub mod Page
pub mod Errors
use my_tiny_im.Base.{
  ℕ, ◌-◌, Bool, true, false, Option, none, some, List, [], ◌∷◌, ◌++◌, take, if◌then◌else◌,
}
use my_tiny_im.Base.Text.{Text, bytes}
use my_tiny_im.Base.Int.{ℤ, pos, is_positive, int_lt, to_string}
use my_tiny_im.Services.{
  read_db, Row, SqlAnswer, sql_failed, sql_rows, sql_done, Services, Outcome, ok, thrown, fault, M,
  ◌>>=◌, pure, lift, bind,
}
use my_tiny_im.Services.Mysql.{open_db, query, stoll_column, stoi_column, text_column}
use my_tiny_im.Chat.{SyncMessagesReq, SyncMessagesResp, MessageItem, Status, status_ok}

abbrev pub page_limit : ℤ → ℤ
page_limit limit = if is_positive limit then limit else pos 10

unfoldable pub sql_columns : Text
sql_columns =
    bytes
      "SELECT idx.seq_id, idx.msg_id, body.sender_id, body.group_id, body.msg_type, body.msg_content, body.created_at FROM im_message_index idx LEFT JOIN im_message_body body ON idx.msg_id = body.msg_id WHERE idx.owner_id="

-- The format of the web client: the latest messages.
unfoldable pub sql_latest : ℤ → ℤ → Text
sql_latest user_id limit =
    sql_columns
    ++ (to_string user_id ++ (bytes " ORDER BY idx.seq_id DESC LIMIT " ++ to_string limit))

-- The format of the PC client: the messages after local_seq.
unfoldable pub sql_after : ℤ → ℤ → ℤ → Text
sql_after user_id local_seq limit =
    sql_columns
    ++ (to_string user_id
        ++ (bytes " AND idx.seq_id > "
            ++ (to_string local_seq
                ++ (bytes " ORDER BY idx.seq_id ASC LIMIT " ++ to_string limit))))

-- sizeof(sql)
abbrev pub sql_size : ℕ
sql_size = 512

-- snprintf keeps what fits, with room for the NUL.
unfoldable pub sync_sql : SyncMessagesReq → Text
sync_sql req = take (sql_size - 1) (
    if req.reverse
    then sql_latest req.user_id (page_limit req.limit)
    else sql_after req.user_id req.local_seq (page_limit req.limit))

unfoldable pub read_item : Row → Outcome MessageItem
read_item row = bind (stoll_column row 0) λ seq_id. bind (stoll_column row 1) λ msg_id.
    bind (stoll_column row 2) λ sender_id. bind (stoll_column row 3) λ group_id.
      bind (stoi_column row 4) λ type. ok (record {
        msg_id = msg_id;
        seq_id = seq_id;
        sender_id = sender_id;
        group_id = group_id;
        type = type;
        content = text_column row 5;
        created_at = text_column row 6;
      })

-- The loop over the rows, with max_seq_found.
unfoldable pub read_items : List Row → ℤ → Outcome (List MessageItem × ℤ)
read_items [] max_seq_found = ok ([], max_seq_found)
read_items (row ∷ rows) max_seq_found = bind (read_item row) λ msg.
    bind (read_items rows (if int_lt max_seq_found msg.seq_id then msg.seq_id else max_seq_found))
      λ rest. ok (msg ∷ rest.0, rest.1)

abbrev pub empty_page : SyncMessagesResp
empty_page = record { max_seq = pos 0; msgs = []; success = false }

-- What the handler makes of the answer.
unfoldable pub sync_reply : ℤ → SqlAnswer → Outcome SyncMessagesResp
sync_reply local_seq (sql_failed errno) = ok empty_page
sync_reply local_seq (sql_done id) = ok (record empty_page { success = true })
sync_reply local_seq (sql_rows rows) =
    bind (read_items rows local_seq) λ r. ok (record { max_seq = r.1; msgs = r.0; success = true })

module _ (sv : Services) where
  unfoldable pub sync_messages : SyncMessagesReq → M (Status × SyncMessagesResp)
  sync_messages req = do
    conn ← open_db sv read_db
    answer ← query sv conn (sync_sql req)
    reply ← lift (sync_reply req.local_seq answer)
    pure (status_ok, reply)
