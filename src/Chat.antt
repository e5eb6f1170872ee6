-- ===== src/Chat.antt =====
-- The chat server, src/chat_server/chat_service_impl.cpp, with the messages of protos/chat.proto.
pub mod Send
pub mod Sync
use my_tiny_im.Base.{Bool, false, List, []}
use my_tiny_im.Base.Text.{Text}
use my_tiny_im.Base.Int.{ℤ, pos}

pub record SendMessageReq : Type 0 where
  pub sender_id : ℤ
  pub receiver_id : ℤ
  pub group_id : ℤ
  pub type : ℤ
  pub content : Text

pub record SendMessageResp : Type 0 where
  pub msg_id : ℤ
  pub seq_id : ℤ
  pub success : Bool
  pub error_message : Text

-- A reply in which nothing has been set.
abbrev pub blank : SendMessageResp
blank = record { msg_id = pos 0; seq_id = pos 0; success = false; error_message = [] }

-- grpc::Status, with the message of an INTERNAL error.
pub data Status : Type 0 where
  status_ok : Status
  internal : Text → Status

pub record SyncMessagesReq : Type 0 where
  pub user_id : ℤ
  pub local_seq : ℤ
  pub limit : ℤ
  pub reverse : Bool

pub record MessageItem : Type 0 where
  pub msg_id : ℤ
  pub seq_id : ℤ
  pub sender_id : ℤ
  pub group_id : ℤ
  pub type : ℤ
  pub content : Text
  pub created_at : Text

pub record SyncMessagesResp : Type 0 where
  pub max_seq : ℤ
  pub msgs : List MessageItem
  pub success : Bool
