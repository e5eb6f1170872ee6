-- ===== src/Tests/Admission.antt =====
-- A run from a login at the auth server to the WebSocket of a gateway.
use my_tiny_im.Base.{◌≡◌, refl, true, some, [], ◌∷◌, ◌++◌, All, arith}
use my_tiny_im.Base.Text.{Text, bytes, c_str, text_eq}
use my_tiny_im.Base.Int.{pos, to_string, print_nat, stoll}
use my_tiny_im.Services.{redis_command, integer_reply, Row, History, ok}
use my_tiny_im.Services.Memory.{Spares}
use my_tiny_im.Services.Mysql.{stoll_column, text_column}
use my_tiny_im.Chat.{status_ok}
use my_tiny_im.Auth.Account.{session_key}
use my_tiny_im.Auth.Login.{LoginReq, device_or_pc, login_sql, login_statement, sql_prefix, login}
use my_tiny_im.Gateway.Upgrade.{upgrade}
use my_tiny_im.Gateway.Upgrade.Query.{LacksByte, target_of}
use my_tiny_im.Admission.{login_is_admitted}
use my_tiny_im.Tests.Recall.{keeper, keeper-Remembers}

abbrev ann : LoginReq
ann = record { username = bytes "ann"; password = bytes "pw"; device = [] }

abbrev ann_row : Row
ann_row = some (bytes "7") ∷ some (bytes "Ann") ∷ some (bytes "pw") ∷ []

-- Somebody writes another field and refreshes the key.
abbrev others : History
others =
    redis_command (bytes "EXPIRE" ∷ bytes "im:session:7" ∷ bytes "86400" ∷ [])
      (some (integer_reply (pos 1)))
    ∷ redis_command (bytes "HSET" ∷ bytes "im:session:7" ∷ bytes "Phone" ∷ bytes "xyz" ∷ [])
        (some (integer_reply (pos 1)))
    ∷ []

others-Spares : All (Spares (c_str (session_key (pos 7))) (c_str (device_or_pc []))) others
unfolding text_eq c_str bytes session_key to_string print_nat
others-Spares = (refl, (refl, tt))

pc_lacks : LacksByte b'&' (bytes "PC")
unfolding bytes
pc_lacks = (omega arith, (omega arith, tt))

login_is_admitted_example :
    (token : Text) × (later end : History) × (login (keeper (ann_row ∷ [])) ann [] ≡ (
      ok (
        status_ok,
        record {
          user_id = pos 7;
          token = token;
          nickname = text_column ann_row 1;
          success = true;
          error_message = [];
        },
      ),
      later,
    ))
    × (upgrade (keeper (ann_row ∷ [])) (target_of token (pos 7) (device_or_pc [])) (others ++ later)
        ≡ (ok (pos 7, device_or_pc []), end))
unfolding login_sql login_statement sql_prefix bytes c_str text_eq stoll_column stoll text_column
login_is_admitted_example =
    login_is_admitted (keeper (ann_row ∷ [])) ann [] ann_row [] (pos 7) others
      (keeper-Remembers (ann_row ∷ [])) refl refl refl refl refl (omega arith) pc_lacks
      others-Spares
