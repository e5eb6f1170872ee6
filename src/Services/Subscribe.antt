-- ===== src/Services/Subscribe.antt =====
-- RedisClient::Subscribe of src/common/redis_client.cpp.
use my_tiny_im.Base.{◌≡◌, Option, none, some, List, [], ◌∷◌, if◌then◌else◌}
use my_tiny_im.Base.Text.{Text, bytes, c_str, text_eq}
use my_tiny_im.Services.{RedisReply, array_reply}

-- The payload of a reply, if it is an array of three whose third element is a string: the
-- confirmation of a subscription has a number there.
abbrev pub payload : RedisReply → Option Text
payload (array_reply (kind ∷ channel ∷ message ∷ [])) = message
payload reply = none

-- The loop: what the callback is called with, for the replies up to the one that fails.
unfoldable pub messages : List RedisReply → List Text
messages [] = []
messages (reply ∷ replies) =
    let rest = messages replies in
    elim (payload reply) [ none ↦ rest | some message ↦ c_str message ∷ rest ]

-- A connection: what arrives on it after a command, in order, up to an error.
abbrev pub RedisLink : Type 0
RedisLink = List Text → List RedisReply

-- What is left for redisGetReply, once redisCommand has read the reply to the command.
abbrev pub after_reply : List RedisReply → List RedisReply
after_reply [] = []
after_reply (reply ∷ replies) = replies

-- With the connection, if there is one.
unfoldable pub subscribe : Option RedisLink → Text → List Text
subscribe none channel = []
subscribe (some connection) channel =
    messages (after_reply (connection (bytes "SUBSCRIBE" ∷ c_str channel ∷ [])))

-- A published message, as it arrives.
unfoldable pub message_reply : Text → Text → RedisReply
message_reply channel message =
    array_reply (some (bytes "message") ∷ some channel ∷ some message ∷ [])

-- The reply that confirms a subscription; its third element is a number.
abbrev pub confirmation : Text → RedisReply
confirmation channel = array_reply (some (bytes "subscribe") ∷ some channel ∷ none ∷ [])

-- What is published from then on: channels and messages.
unfoldable pub heard : Text → List (Text × Text) → List RedisReply
heard channel [] = []
heard channel ((c, message) ∷ more) =
    let rest = heard channel more in
    if text_eq c channel then message_reply c message ∷ rest else rest

-- Redis confirms a subscription and then sends what is published on that channel.
abbrev pub Delivers : List (Text × Text) → RedisLink → Type 0
Delivers bus connection =
    (channel : Text)
    → connection (bytes "SUBSCRIBE" ∷ channel ∷ []) ≡ confirmation channel ∷ heard channel bus
