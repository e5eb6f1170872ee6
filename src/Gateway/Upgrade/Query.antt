-- ===== src/Gateway/Upgrade/Query.antt =====
-- The query "/ws?token=x&id=y&device=z" of src/gateway/http_session.cpp.
use my_tiny_im.Base.{ℕ, ◌≡◌, ◌≢◌, refl, ap, ◌∙◌, none, [], ◌∷◌, ◌++◌, All, ==_self, ==_ne, arith}
use my_tiny_im.Base.Text.{Text, bytes, c_str, find, text_eq}
use my_tiny_im.Base.Int.{
  ℤ, stoll, IsInt64, to_string, c_str-to_string, stoll-to_string, to_string-All-ne_below,
}
use my_tiny_im.Services.{History, Services, ok, thrown}
use my_tiny_im.Gateway.Upgrade.{
  segments, Params, defaults, read_segment, read_segments, parse_target, upgrade,
}

abbrev pub LacksByte : ℕ → Text → Type 0
LacksByte c s = All (λ d. d ≢ c) s

-- A part without the delimiter, up to one.
segments-append :
    (d : ℕ) (xs ys : Text) → LacksByte d xs → segments d (xs ++ d ∷ ys) ≡ xs ∷ segments d ys
unfolding segments
segments-append d [] ys h = rw (==_self d)
segments-append d (x ∷ xs) ys h = rw (==_ne x d h.0, segments-append d xs ys h.1)

segments-last : (d x : ℕ) (xs : Text) → LacksByte d (x ∷ xs) → segments d (x ∷ xs) ≡ (x ∷ xs) ∷ []
unfolding segments
segments-last d x [] h = rw (==_ne x d h.0)
segments-last d x (y ∷ xs) h = rw (==_ne x d h.0) (rw (segments-last d y xs h.1) refl)

pub LacksByte-append :
    (c : ℕ) (xs ys : Text) → LacksByte c xs → LacksByte c ys → LacksByte c (xs ++ ys)
LacksByte-append c [] ys a b = b
LacksByte-append c (x ∷ xs) ys a b = (a.0, LacksByte-append c xs ys a.1 b)

token_lacks : LacksByte b'&' (bytes "token=")
unfolding bytes
token_lacks =
    (omega arith, (omega arith, (omega arith, (omega arith, (omega arith, (omega arith, tt))))))

id_lacks : LacksByte b'&' (bytes "id=")
unfolding bytes
id_lacks = (omega arith, (omega arith, (omega arith, tt)))

device_lacks : (device : Text) → LacksByte b'&' device → LacksByte b'&' (bytes "device=" ++ device)
unfolding bytes
device_lacks device v = (
  omega arith,
  (omega arith, (omega arith, (omega arith, (omega arith, (omega arith, (omega arith, v)))))),
)

-- Each of the three keys is read.
read_token :
    (p : Params) (token : Text)
    → read_segment p (bytes "token=" ++ token) ≡ ok (record p { token = token })
unfolding read_segment find bytes text_eq
read_token p token = refl

read_id :
    (p : Params) (user_id : ℤ)
    → IsInt64 user_id
    → read_segment p (bytes "id=" ++ to_string user_id) ≡ ok (record p { user_id = user_id })
unfolding read_segment find bytes text_eq
read_id p user_id i = rw (c_str-to_string user_id, stoll-to_string user_id i) refl

read_device :
    (p : Params) (device : Text)
    → read_segment p (bytes "device=" ++ device) ≡ ok (record p { device = device })
unfolding read_segment find bytes text_eq
read_device p device = refl

-- The target that the comment in the code gives as the form of a query.
unfoldable pub target_of : Text → ℤ → Text → Text
target_of token user_id device =
    bytes "/ws?token="
    ++ (token ++ b'&' ∷ (bytes "id=" ++ (to_string user_id ++ b'&' ∷ (bytes "device=" ++ device))))

query_segments :
    (token : Text) (user_id : ℤ) (device : Text)
    → LacksByte b'&' token
    → LacksByte b'&' device
    → segments b'&' (
        (bytes "token=" ++ token)
        ++ b'&' ∷ ((bytes "id=" ++ to_string user_id) ++ b'&' ∷ (bytes "device=" ++ device)))
      ≡ (bytes "token=" ++ token)
        ∷ (bytes "id=" ++ to_string user_id)
        ∷ (bytes "device=" ++ device)
        ∷ []
query_segments token user_id device t v =
    segments-append b'&' (bytes "token=" ++ token) _
      (LacksByte-append b'&' (bytes "token=") token token_lacks t)
    ∙ ap (λ ss. (bytes "token=" ++ token) ∷ ss)
        (segments-append b'&' (bytes "id=" ++ to_string user_id) _ (
            LacksByte-append b'&' (bytes "id=") (to_string user_id) id_lacks
              (to_string-All-ne_below user_id b'&' (omega arith)))
          ∙ ap (λ ss. (bytes "id=" ++ to_string user_id) ∷ ss)
              (unfold bytes in segments-last b'&' 100 _ (device_lacks device v)))

-- A target with a token, the 64-bit number of a user and a device, neither text with an ampersand
-- in it, is read as these three; an equals sign in them does no harm.
pub parse_target-target_of :
    (token : Text) (user_id : ℤ) (device : Text)
    → LacksByte b'&' token
    → LacksByte b'&' device
    → IsInt64 user_id
    → parse_target (target_of token user_id device)
      ≡ ok (record { user_id = user_id; token = token; device = device })
unfolding parse_target target_of bytes find read_segments
parse_target-target_of token user_id device t v i =
    rw
      (
        query_segments token user_id device t v,
        read_token defaults token,
        read_id (record defaults { token = token }) user_id i,
        read_device (record defaults { token = token; user_id = user_id }) device,
      )
      refl

-- A target "/ws?id=" with a value without an ampersand that is no number, or one that does not fit,
-- raises before anything is asked of Redis.
pub upgrade_bad_id :
    (sv : Services) (val : Text) (h : History)
    → LacksByte b'&' val
    → stoll (c_str val) ≡ none
    → upgrade sv (bytes "/ws?id=" ++ val) h ≡ (thrown, h)
unfolding upgrade parse_target read_segments read_segment find bytes text_eq
upgrade_bad_id sv val h v n =
    rw
      (
        segments-last b'&' 105 (bytes "d=" ++ val)
            (unfold bytes in (omega arith, (omega arith, (omega arith, v)))),
        n,
      )
      refl
