-- ===== src/Services/Leaves.antt =====
-- What a piece of code adds to the history however it ends: with a value, by an exception, or where
-- a null pointer is used.
use mathlib.Core.List.{append_assoc}
use my_tiny_im.Base.{
  ◌≡◌, refl, sym, ap, ◌∙◌, Bool, true, false, [], ◌∷◌, ◌++◌, All, if◌then◌else◌, Bool-cases, inl,
  inr,
}
use my_tiny_im.Base.Text.{Text, c_str}
use my_tiny_im.Services.{
  Event, DbKind, SqlAnswer, db_opened, sql_query, History, Services, Outcome, ok, thrown, fault, M,
  ◌>>=◌, ◌>>◌, pure, lift, emit, after,
}
use my_tiny_im.Services.Mysql.{DbConn, open_db, query}
use my_tiny_im.Services.Trace.{All-append}

pub record Grows (P : Event → Type 0) (h h' : History) : Type 0 where
  pub new : History
  pub grown : h' ≡ new ++ h
  pub all : All P new

-- From every history.
pub record Leaves {A : Type 0} (P : Event → Type 0) (m : M A) : Type 0 where
  pub from : (h : History) → Grows P h (m h).1

module _ {P : Event → Type 0} where
  Grows-refl : (h : History) → Grows P h h
  Grows-refl h = record { new = []; grown = refl; all = tt }

  Grows-trans : {h h' h'' : History} → Grows P h h' → Grows P h' h'' → Grows P h h''
  Grows-trans {h} g k = record {
    new = k.new ++ g.new;
    grown = k.grown ∙ ap (λ (x : History). k.new ++ x) g.grown ∙ sym (append_assoc k.new g.new h);
    all = All-append P k.new g.new k.all g.all;
  }

  Grows-one : (e : Event) (h : History) → P e → Grows P h (e ∷ h)
  Grows-one e h p = record { new = e ∷ []; grown = refl; all = (p, tt) }

module _ {A : Type 0} {P : Event → Type 0} where
  pub Leaves-pure : (a : A) → Leaves P (pure a)
  Leaves-pure a = record { from = λ h. Grows-refl h }

  pub Leaves-lift : (r : Outcome A) → Leaves P (lift r)
  Leaves-lift r = record { from = λ h. Grows-refl h }

  pub Leaves-if : (b : Bool) (m n : M A) → Leaves P m → Leaves P n → Leaves P (if b then m else n)
  Leaves-if true m n em en = em
  Leaves-if false m n em en = en

pub Leaves-emit : {P : Event → Type 0} (e : Event) → P e → Leaves P (emit e)
Leaves-emit e p = record { from = λ h. Grows-one e h p }

module _ {A B : Type 0} {P : Event → Type 0} where
  after-Grows :
      (r : Outcome A) (h h' : History) (f : A → M B)
      → Grows P h h'
      → ((a : A) → Leaves P (f a))
      → Grows P h (after (r, h') f).1
  after-Grows (ok a) h h' f g k = Grows-trans g ((k a).from h')
  after-Grows thrown h h' f g k = g
  after-Grows fault h h' f g k = g

  pub Leaves-bind :
      (m : M A) (f : A → M B) → Leaves P m → ((a : A) → Leaves P (f a)) → Leaves P (m >>= f)
  Leaves-bind m f em ef = record { from = λ h. after-Grows (m h).0 h (m h).1 f (em.from h) ef }

  pub Leaves-seq : (m : M A) (k : M B) → Leaves P m → Leaves P k → Leaves P (m >> k)
  Leaves-seq m k em ek = record {
    from = λ h. after-Grows (m h).0 h (m h).1 (λ _. k) (em.from h) (λ _. ek);
  }

-- A predicate that holds of every call of the database.
pub record OfDatabase (P : Event → Type 0) : Type 0 where
  pub opened : (kind : DbKind) (b : Bool) → P (db_opened kind b)
  pub queried : (kind : DbKind) (sql : Text) (answer : SqlAnswer) → P (sql_query kind sql answer)

module _ {P : Event → Type 0} (database : OfDatabase P) (sv : Services) where
  pub open_db-Leaves : (kind : DbKind) → Leaves P (open_db sv kind)
  unfolding open_db
  open_db-Leaves kind = record { from = λ h. Grows-one _ h (database.opened kind _) }

  pub query-Leaves : (conn : DbConn) (sql : Text) → Leaves P (query sv conn sql)
  unfolding query
  query-Leaves conn sql = record {
    from = λ h. elim (Bool-cases conn.valid) [
      | inl e ↦ rw e (Grows-one _ h (database.queried conn.kind (c_str sql) _))
      | inr e ↦ rw e (Grows-refl h)
    ];
  }

pub ruleset leaves_rules = (
  Leaves-pure, Leaves-lift, Leaves-if, Leaves-emit, Leaves-bind, Leaves-seq, open_db-Leaves,
  query-Leaves,
)
