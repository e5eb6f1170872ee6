-- ===== src/Gateway/Service/Listener.antt =====
-- The thread that listens on "im:kick" in src/gateway/main.cpp, over all messages it receives.
use my_tiny_im.Base.{ℕ, ◌≡◌, ◌≢◌, refl, Option, some, List, [], ◌∷◌, ◌++◌, All}
use my_tiny_im.Base.Text.{Text, bytes, c_str, text_eq_ne, text_eq_self, c_str_twice}
use my_tiny_im.Base.Int.{ℤ, IsInt64}
use my_tiny_im.Services.{Outcome, ok, bind}
use my_tiny_im.Services.Subscribe.{messages, subscribe, message_reply, RedisLink, heard, Delivers}
use my_tiny_im.Auth.Account.{kick_channel, kick_message}
use my_tiny_im.Gateway.Connections.{Users, SessionCall, kick_user}
use my_tiny_im.Gateway.Service.{on_kick}
use my_tiny_im.Gateway.Service.Kick.{on_kick-kick_message}

-- The callback on one message after the other, on a table that nobody else changes in the
-- meantime; an exception ends the process.
unfoldable pub listen : (ℕ → Text) → Users → List Text → Outcome (List SessionCall)
listen get_device users [] = ok []
listen get_device users (msg ∷ msgs) =
    bind (on_kick get_device msg users)
      λ calls. bind (listen get_device users msgs) λ more. ok (calls ++ more)

-- The thread: Subscribe to "im:kick" with that callback.
unfoldable pub run_listener : (ℕ → Text) → Users → Option RedisLink → Outcome (List SessionCall)
run_listener get_device users connection =
    listen get_device users (subscribe connection (bytes "im:kick"))

-- What somebody publishes: the kick of a user on a device, as the auth server words it, or a message
-- on another channel.
pub data Publication : Type 0 where
  kick_publication : ℤ → Text → Publication
  other_publication : Text → Text → Publication

-- PUBLISH of both arguments as C strings.
abbrev pub bus_of : List Publication → List (Text × Text)
bus_of [] = []
bus_of (kick_publication user_id device ∷ ps) =
    (c_str kick_channel, c_str (kick_message user_id device)) ∷ bus_of ps
bus_of (other_publication channel message ∷ ps) = (channel, message) ∷ bus_of ps

-- A 64-bit user and a device without NUL; another channel than that of the kicks.
abbrev pub IsSent : Publication → Type 0
IsSent (kick_publication user_id device) = IsInt64 user_id × (c_str device ≡ device)
IsSent (other_publication channel message) = channel ≢ bytes "im:kick"

unfoldable pub kicks_of : (ℕ → Text) → Users → List Publication → List SessionCall
kicks_of get_device users [] = []
kicks_of get_device users (kick_publication user_id device ∷ ps) =
    kick_user get_device user_id device users ++ kicks_of get_device users ps
kicks_of get_device users (other_publication channel message ∷ ps) = kicks_of get_device users ps

im_kick : c_str (bytes "im:kick") ≡ bytes "im:kick"
unfolding bytes c_str
im_kick = refl

listen-heard :
    (get_device : ℕ → Text) (users : Users) (ps : List Publication)
    → All IsSent ps
    → listen get_device users (messages (heard (bytes "im:kick") (bus_of ps)))
      ≡ ok (kicks_of get_device users ps)
unfolding listen messages message_reply heard kicks_of
listen-heard get_device users [] a = refl
listen-heard get_device users (other_publication channel message ∷ ps) a =
    rw (text_eq_ne channel (bytes "im:kick") a.0) (listen-heard get_device users ps a.1)
listen-heard get_device users (kick_publication user_id device ∷ ps) a =
    rw
      (
        im_kick,
        text_eq_self (bytes "im:kick"),
        c_str_twice (kick_message user_id device),
        on_kick-kick_message get_device user_id device users a.0.0 a.0.1,
        listen-heard get_device users ps a.1,
      )
      refl

-- A gateway whose connection to Redis confirms the subscription and then sends what is published on
-- the channel that the gateway subscribes to; kicks that the auth server publishes, for 64-bit users
-- and devices without NUL, among messages on other channels; and a table that does not change
-- meanwhile. Then KickUser is called for each kick, in order, and for nothing else.
pub listen_kicks :
    (get_device : ℕ → Text) (users : Users) (ps : List Publication) (connection : RedisLink)
    → All IsSent ps
    → Delivers (bus_of ps) connection
    → run_listener get_device users (some connection) ≡ ok (kicks_of get_device users ps)
unfolding run_listener subscribe
listen_kicks get_device users ps connection a delivers =
    rw (im_kick, delivers (bytes "im:kick")) (listen-heard get_device users ps a)
