-- ===== src/Chat/Send/Notified.antt =====
-- The notifications that `SendMessage` sends for one receiver, as a bag: HGetAll gives an
-- unordered_map, whose order of walking the language leaves open.
use my_tiny_im.Base.{◌≡◌, refl, sym, ap, ◌∙◌, Bool, true, false, List, All, [], ◌∷◌, ◌++◌, map}
use mathlib.Core.List.{Permᴰ, append_assoc}
use mathlib.Core.List
use mathlib.Core.Quot
use my_tiny_im.Base.Bag.{bag, map_bag, map_bag-bag, rotated}
use my_tiny_im.Base.Text.{Text}
use my_tiny_im.Base.Int.{ℤ, is_positive}
use my_tiny_im.Services.{Event, write_db, sql_query, push_notify, History, Services, ok}
use my_tiny_im.Services.Mysql.{open_db, query, is_failed}
use my_tiny_im.Services.Redis.{exists, hgetall}
use my_tiny_im.Services.Trace.{All-append}
use my_tiny_im.Chat.{SendMessageReq, status_ok}
use my_tiny_im.Chat.Send.{
  push_all, push_receiver, next_seq, success_reply, friend_of, location_key, send_single,
  send_message,
}
use my_tiny_im.Chat.Send.Single.{
  BothConnect, MayWrite, MayWrite-passes, body_text, body_stored, relation_text, related, msg_id_of,
  index_text, opened,
}

-- The notification at a device's address.
abbrev pub notice : ℤ → ℤ → ℤ → Text × Text → Event
notice uid seq type location = push_notify location.1 uid seq type

abbrev pub IsNotice : ℤ → ℤ → ℤ → Event → Type 0
IsNotice uid seq type e = (addr : Text) × (e ≡ push_notify addr uid seq type)

-- Events that are, in some order, one notification for each location.
pub record Notifies (uid seq type : ℤ) (locations : List (Text × Text)) (sv : Services)
    (h : History) : Type 0 where
  pub new : List Event
  pub result : push_all sv uid seq type locations h ≡ (ok tt, new ++ h)
  pub only : All (IsNotice uid seq type) new
  pub each : Permᴰ new (map (notice uid seq type) locations)

push_all-Notifies :
    (uid seq type : ℤ) (locations : List (Text × Text)) (sv : Services) (h : History)
    → Notifies uid seq type locations sv h
unfolding push_all
push_all-Notifies uid seq type [] sv h = record {
  new = [];
  result = refl;
  only = tt;
  each = List.Permᴰ.nil;
}
push_all-Notifies uid seq type (l ∷ ls) sv h =
    let e = notice uid seq type l in
    let rest = push_all-Notifies uid seq type ls sv (e ∷ h) in
    record {
      new = rest.new ++ e ∷ [];
      result =
          rest.result ∙ ap (λ (t : History). (ok tt, t)) (sym (append_assoc rest.new (e ∷ []) h));
      only = All-append (IsNotice uid seq type) rest.new (e ∷ []) rest.only ((l.1, refl), tt);
      each = rotated e rest.each;
    }

module _ (sv : Services) (req : SendMessageReq) (h : History) (is_friend : Bool) (seq : ℤ)
    (numbered asked found : History) (locations : List (Text × Text)) (both : BothConnect sv req h)
    (body : is_failed (sv.mysql (opened sv req h) write_db (body_text sv req h)) ≡ false)
    (single : is_positive req.group_id ≡ false)
    (related_as : friend_of (sv.mysql (body_stored sv req h) write_db (relation_text sv req h))
      ≡ ok is_friend)
    (may : MayWrite is_friend req.type)
    (numbers : next_seq sv req.receiver_id (related sv req h) ≡ (ok seq, numbered))
    (stored : is_failed (sv.mysql numbered write_db (index_text sv req h seq)) ≡ false)
    (online : exists sv (location_key req.receiver_id) (
        sql_query write_db
          (index_text sv req h seq)
          (sv.mysql numbered write_db (index_text sv req h seq))
        ∷ numbered)
      ≡ (ok true, asked))
    (lists : hgetall sv (location_key req.receiver_id) asked ≡ (ok locations, found)) where
  pub receiver_told : Notifies req.receiver_id seq req.type locations sv found
  receiver_told = push_all-Notifies req.receiver_id seq req.type locations sv found

  pub send_message-told :
      send_message sv req h
      ≡ (ok (status_ok, success_reply (msg_id_of sv req h) seq), receiver_told.new ++ found)
  unfolding send_message send_single open_db query push_receiver
  send_message-told =
      rw
        (
          both.0,
          both.1,
          body,
          single,
          related_as,
          MayWrite-passes is_friend req.type may,
          numbers,
          stored,
          online,
          lists,
          receiver_told.result,
        )
        refl

  -- With both connections up and the body stored, let a message to one receiver be one that may be
  -- written, its index row be stored, EXISTS say that the receiver has locations, and HGETALL give
  -- them. Then the reply acknowledges the body and the sequence number, and what follows that HGETALL
  -- is one notification for each location, at its address, with the receiver, the sequence number and
  -- the message's type: as a bag, the image of the bag of the locations, whatever the order in which
  -- they are walked.
  pub online_receiver_notified :
      (new : History) × (send_message sv req h
        ≡ (ok (status_ok, success_reply (msg_id_of sv req h) seq), new ++ found))
      × (bag new ≡ map_bag (notice req.receiver_id seq req.type) (bag locations))
  online_receiver_notified = (
    receiver_told.new,
    send_message-told,
    Quot.sound receiver_told.each
        ∙ sym (map_bag-bag (notice req.receiver_id seq req.type) locations),
  )
