-- ===== src/Packet/Commands.antt =====
-- The commands of src/common/packet.h that the gateway reads and writes.
use my_tiny_im.Base.{ℕ}

-- enum CommandID
abbrev pub cmd_login_req : ℕ
cmd_login_req = 0x1001

abbrev pub cmd_login_resp : ℕ
cmd_login_resp = 0x1002

abbrev pub cmd_heartbeat_req : ℕ
cmd_heartbeat_req = 0x1003

abbrev pub cmd_heartbeat_resp : ℕ
cmd_heartbeat_resp = 0x1004

abbrev pub cmd_logout_resp : ℕ
cmd_logout_resp = 0x1006

abbrev pub cmd_msg_send_req : ℕ
cmd_msg_send_req = 0x2001

abbrev pub cmd_msg_send_resp : ℕ
cmd_msg_send_resp = 0x2002

abbrev pub cmd_msg_push_notify : ℕ
cmd_msg_push_notify = 0x2003

abbrev pub cmd_msg_sync_req : ℕ
cmd_msg_sync_req = 0x2004

abbrev pub cmd_msg_sync_resp : ℕ
cmd_msg_sync_resp = 0x2005

abbrev pub cmd_friend_apply_req : ℕ
cmd_friend_apply_req = 0x3001

abbrev pub cmd_friend_apply_resp : ℕ
cmd_friend_apply_resp = 0x3002

abbrev pub cmd_friend_accept_req : ℕ
cmd_friend_accept_req = 0x3003

abbrev pub cmd_friend_accept_resp : ℕ
cmd_friend_accept_resp = 0x3004

abbrev pub cmd_friend_list_req : ℕ
cmd_friend_list_req = 0x3005

abbrev pub cmd_friend_list_resp : ℕ
cmd_friend_list_resp = 0x3006

abbrev pub cmd_group_create_req : ℕ
cmd_group_create_req = 0x4001

abbrev pub cmd_group_create_resp : ℕ
cmd_group_create_resp = 0x4002

abbrev pub cmd_group_join_req : ℕ
cmd_group_join_req = 0x4003

abbrev pub cmd_group_join_resp : ℕ
cmd_group_join_resp = 0x4004

abbrev pub cmd_group_list_req : ℕ
cmd_group_list_req = 0x4005

abbrev pub cmd_group_list_resp : ℕ
cmd_group_list_resp = 0x4006

abbrev pub cmd_group_apply_req : ℕ
cmd_group_apply_req = 0x4007

abbrev pub cmd_group_apply_resp : ℕ
cmd_group_apply_resp = 0x4008

abbrev pub cmd_group_accept_req : ℕ
cmd_group_accept_req = 0x4009

abbrev pub cmd_group_accept_resp : ℕ
cmd_group_accept_resp = 0x4010
