-- ===== src/Relation.antt =====
-- The relation server, src/user_server/relation_service_impl.cpp, with the messages of
-- protos/relation.proto: friends and groups, each change told to the other side by a message
-- through the chat server.
pub mod Friends
pub mod Groups
pub mod Notify
pub mod Unconnected
use my_tiny_im.Base.{ℕ, Bool, true, false, Option, none, some, List, [], ◌∷◌}
use my_tiny_im.Base.Text.{Text, bytes}
use my_tiny_im.Base.Int.{ℤ, pos}
use my_tiny_im.Services.{
  Row, SqlAnswer, sql_failed, sql_rows, sql_done, chat_send, Outcome, ok, thrown, fault, M, emit,
  bind,
}

-- The channel of GetChatStub.
abbrev pub chat_server : Text
chat_server = bytes "localhost:50052"

-- enum MsgType
abbrev pub system_type : ℤ
system_type = pos 3

abbrev pub friend_req_type : ℤ
friend_req_type = pos 4

-- A SendMessageReq with the fields that are set, sent to the chat server; the reply, and whether
-- the call came through at all, are dropped.
unfoldable pub send_chat : ℤ → ℤ → ℤ → ℤ → Text → M (Unit {0})
send_chat sender_id receiver_id group_id type content =
    emit (chat_send sender_id receiver_id group_id type content)

-- mysql_query(...) == 0 with a result set that has a row
unfoldable pub has_row : SqlAnswer → Bool
has_row (sql_failed errno) = false
has_row (sql_done id) = false
has_row (sql_rows []) = false
has_row (sql_rows (row ∷ rows)) = true

-- That row.
unfoldable pub first_row : SqlAnswer → Option Row
first_row (sql_failed errno) = none
first_row (sql_done id) = none
first_row (sql_rows []) = none
first_row (sql_rows (row ∷ rows)) = some row

-- A loop over the rows of a result set that adds an item for each.
unfoldable pub read_rows {ℓ} : {A : Type ℓ} → (Row → Outcome A) → List Row → Outcome (List A)
read_rows read [] = ok []
read_rows read (row ∷ rows) =
    bind (read row) λ item. bind (read_rows read rows) λ items. ok (item ∷ items)
