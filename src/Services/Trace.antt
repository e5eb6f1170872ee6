-- ===== src/Services/Trace.antt =====
-- What a piece of code adds to the history: it ends with a value, and each new event satisfies a
-- predicate.
use mathlib.Core.List.{append_assoc}
use my_tiny_im.Base.{
  ◌≡◌, refl, sym, ap, ◌∙◌, Bool, true, false, Option, List, [], ◌∷◌, ◌++◌, All, if◌then◌else◌, inl,
  inr, Bool-cases,
}
use my_tiny_im.Base.Text.{Text}
use my_tiny_im.Services.{
  Event, redis_opened, redis_command, RedisReply, History, Services, Outcome, ok, M, ◌>>=◌, ◌>>◌,
  pure, emit, after,
}
use my_tiny_im.Services.Redis.{with_conn, exists, hgetall}

pub record Adds {A : Type 0} (P : Event → Type 0) (h : History) (r : Outcome A × History)
    : Type 0 where
  pub value : A
  pub new : History
  pub result : r ≡ (ok value, new ++ h)
  pub all : All P new

pub All-append : (P : Event → Type 0) (xs ys : History) → All P xs → All P ys → All P (xs ++ ys)
All-append P [] ys a b = b
All-append P (x ∷ xs) ys a b = (a.0, All-append P xs ys a.1 b)

-- From every history.
pub record Emits {A : Type 0} (P : Event → Type 0) (m : M A) : Type 0 where
  pub at : (h : History) → Adds P h (m h)

module _ {A : Type 0} {P : Event → Type 0} where
  pub Emits-pure : (a : A) → Emits P (pure a)
  Emits-pure a = record { at = λ h. record { value = a; new = []; result = refl; all = tt } }

  pub Emits-if : (b : Bool) (m n : M A) → Emits P m → Emits P n → Emits P (if b then m else n)
  Emits-if true m n em en = em
  Emits-if false m n em en = en

pub Emits-emit : {P : Event → Type 0} (e : Event) → P e → Emits P (emit e)
Emits-emit e p = record {
  at = λ h. record { value = tt; new = e ∷ []; result = refl; all = (p, tt) };
}

module _ {A B : Type 0} {P : Event → Type 0} where
  Adds-bind :
      (h : History) (m : M A) (f : A → M B)
      → Adds P h (m h)
      → ((a : A) → Emits P (f a))
      → Adds P h ((m >>= f) h)
  Adds-bind h m f am ef =
      let rest = (ef am.value).at (am.new ++ h) in
      record {
        value = rest.value;
        new = rest.new ++ am.new;
        result =
            ap (λ r. after r f) am.result
            ∙ rest.result
            ∙ ap (λ (t : History). (ok rest.value, t)) (sym (append_assoc rest.new am.new h));
        all = All-append P rest.new am.new rest.all am.all;
      }

  pub Emits-bind :
      (m : M A) (f : A → M B) → Emits P m → ((a : A) → Emits P (f a)) → Emits P (m >>= f)
  Emits-bind m f em ef = record { at = λ h. Adds-bind h m f (em.at h) ef }

  pub Emits-seq : (m : M A) (k : M B) → Emits P m → Emits P k → Emits P (m >> k)
  Emits-seq m k em ek = record { at = λ h. Adds-bind h m (λ _. k) (em.at h) (λ _. ek) }

module _ {P : Event → Type 0} (sv : Services) where
  -- A Redis call with known arguments.
  pub with_conn-Emits_of :
      {A : Type 0} (args : List Text) (default : A) (read : Option RedisReply → A)
      → ((b : Bool) → P (redis_opened b))
      → ((reply : Option RedisReply) → P (redis_command args reply))
      → Emits P (with_conn sv args default read)
  unfolding with_conn
  with_conn-Emits_of args default read opened commanded = record {
    at = λ h. elim (Bool-cases (sv.redis_connect h)) [
      | inl e ↦ rw e (record {
        value = read (sv.redis (redis_opened true ∷ h) args);
        new = redis_command args (sv.redis (redis_opened true ∷ h) args) ∷ redis_opened true ∷ [];
        result = refl;
        all = (commanded _, (opened true, tt));
      })
      | inr e ↦ rw e (record {
        value = default;
        new = redis_opened false ∷ [];
        result = refl;
        all = (opened false, tt);
      })
    ];
  }

-- A predicate that holds of every Redis call.
pub record OfRedis (P : Event → Type 0) : Type 0 where
  pub opened : (b : Bool) → P (redis_opened b)
  pub commanded : (args : List Text) (reply : Option RedisReply) → P (redis_command args reply)

module _ {P : Event → Type 0} (redis : OfRedis P) (sv : Services) where
  pub with_conn-Emits :
      {A : Type 0} (args : List Text) (default : A) (read : Option RedisReply → A)
      → Emits P (with_conn sv args default read)
  with_conn-Emits args default read =
      with_conn-Emits_of sv args default read redis.opened (redis.commanded args)

  pub exists-Emits : (key : Text) → Emits P (exists sv key)
  unfolding exists
  exists-Emits key = with_conn-Emits _ _ _

  pub hgetall-Emits : (key : Text) → Emits P (hgetall sv key)
  unfolding hgetall
  hgetall-Emits key = with_conn-Emits _ _ _

pub ruleset emits_rules = (
  Emits-pure, Emits-if, Emits-emit, Emits-bind, Emits-seq, with_conn-Emits, exists-Emits,
  hgetall-Emits,
)
