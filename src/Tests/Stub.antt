-- ===== src/Tests/Stub.antt =====
-- External services for the runs: a database that stores every row under number 77 and answers
-- every query with the rows it was given, and a Redis in which everybody is online.
use my_tiny_im.Base.{true, Option, some, List, [], ◌∷◌, take, if◌then◌else◌}
use my_tiny_im.Base.Text.{Text, bytes, text_eq}
use my_tiny_im.Base.Int.{pos}
use my_tiny_im.Services.{
  Row, sql_rows, sql_done, RedisReply, integer_reply, array_reply, nil_reply, Services,
}

abbrev redis_answer : List Text → Option RedisReply
redis_answer [] = some nil_reply
redis_answer (cmd ∷ args) =
    if text_eq cmd (bytes "HGETALL")
    then some (array_reply (some (bytes "PC") ∷ some (bytes "127.0.0.1:50054") ∷ []))
    else some (integer_reply (pos 1))

abbrev pub stub : List Row → Services
stub rows = record {
  db_connect = λ h kind. true;
  mysql = λ h kind sql.
      if text_eq (take 6 sql) (bytes "INSERT") then sql_done (pos 77) else sql_rows rows;
  escape = λ s. s;
  redis_connect = λ h. true;
  redis = λ h args. redis_answer args;
  now = λ h. pos 1700000000;
  pick = λ h n. 0;
}
