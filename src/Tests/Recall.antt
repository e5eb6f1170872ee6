-- ===== src/Tests/Recall.antt =====
-- External services for the runs: those of Tests/Stub, with a Redis that keeps what HSET stores.
use my_tiny_im.Base.{refl, Option, some, none, List, [], ◌∷◌, if◌then◌else◌}
use my_tiny_im.Base.Text.{Text, bytes, text_eq}
use my_tiny_im.Base.Int.{pos}
use my_tiny_im.Services.{Row, RedisReply, integer_reply, string_reply, nil_reply, History, Services}
use my_tiny_im.Services.Memory.{last_stored, Remembers}
use my_tiny_im.Tests.Stub.{stub}

-- A Redis that answers by what it was told.
abbrev remembered : Option Text → Option RedisReply
remembered none = some nil_reply
remembered (some value) = some (string_reply value)

abbrev recall : History → List Text → Option RedisReply
recall h (cmd ∷ key ∷ field ∷ []) =
    if text_eq cmd (bytes "HGET")
    then remembered (last_stored key field h)
    else some (integer_reply (pos 1))
recall h args = some (integer_reply (pos 1))

abbrev pub keeper : List Row → Services
keeper rows = record (stub rows) { redis = λ h args. recall h args }

pub keeper-Remembers : (rows : List Row) → Remembers (keeper rows)
unfolding bytes text_eq
keeper-Remembers rows = record {
  connects = λ h. refl;
  hset_done = λ h key field value. (pos 1, refl);
  hget_gives = λ h key field value e. rw e refl;
}
