-- ===== src/Gateway/Upgrade/Token.antt =====
-- Whom the upgrade in src/gateway/http_session.cpp lets in.
use my_tiny_im.Base.{
  ◌≡◌, refl, sym, ap, ◌∙◌, true, false, not, ◌&&◌, ◌++◌, arith, Bool-cases, inl, inr, ◌⊎◌,
}
use my_tiny_im.Base.Text.{Text, is_empty, text_eq, text_eq→eq}
use my_tiny_im.Base.Int.{ℤ, pos, is_positive}
use my_tiny_im.Services.{History, Services, Outcome, ok}
use my_tiny_im.Services.Redis.{hget}
use my_tiny_im.Services.Trace.{Adds, with_conn-Emits_of}
use my_tiny_im.Auth.Account.{session_key}
use my_tiny_im.Gateway.Upgrade.{Params, parse_target, check_token, upgrade}

-- The token was in the target, is not empty, and is the one that Redis has for the user and the
-- device.
pub record IsChecked (sv : Services) (p : Params) (h : History) : Type 0 where
  pub later : History
  pub not_empty : is_empty p.token ≡ false
  pub stored : hget sv (session_key p.user_id) p.device h ≡ (ok p.token, later)

module _ (sv : Services) where
  hget-Adds : (key field : Text) (h : History) → Adds (λ _. Unit {0}) h (hget sv key field h)
  unfolding hget
  hget-Adds key field h = (with_conn-Emits_of sv _ _ _ (λ _. tt) (λ _. tt)).at h

  check_token_lem :
      (p : Params) (h : History)
      → (user_id : ℤ) × (later : History) × (check_token sv p h ≡ (ok (user_id, p.device), later))
        × ((is_positive user_id ≡ true) → (user_id ≡ p.user_id) × IsChecked sv p h)
  unfolding check_token
  check_token_lem p h = elim (Bool-cases (is_positive p.user_id && not (is_empty p.token))) [
    | inr e ↦ (pos 0, h, rw e refl, λ z. cc z)
    | inl e ↦
        let a = hget-Adds (session_key p.user_id) p.device h in
        elim (Bool-cases (text_eq a.value p.token)) [
          | inl t ↦ (
            p.user_id,
            a.new ++ h,
            rw (e, a.result, t) refl,
            λ z. (
              refl,
              record {
                later = a.new ++ h;
                not_empty = ground arith;
                stored =
                    a.result ∙ ap (λ (v : Text). (ok v, a.new ++ h)) (text_eq→eq a.value p.token t);
              },
            ),
          )
          | inr t ↦ (pos 0, a.new ++ h, rw (e, a.result, t) refl, λ z. cc z)
        ]
  ]

  -- If a target can be read and its session is opened for a user, not as anonymous, it is for the
  -- user and the device that the target names, and the target has a token that is not empty and is
  -- the one that Redis holds for that user and that device.
  pub upgrade_checks :
      (target : Text) (h later : History) (p : Params) (user_id : ℤ) (device : Text)
      → parse_target target ≡ ok p
      → upgrade sv target h ≡ (ok (user_id, device), later)
      → is_positive user_id ≡ true
      → (user_id ≡ p.user_id) × (device ≡ p.device) × IsChecked sv p h
  unfolding upgrade
  upgrade_checks target h later p user_id device e r z =
      let (u, l, result, checked) = check_token_lem p h in
      let same : ◌≡◌ {A = Outcome (ℤ × Text) × History} (ok (u, p.device), l)
          (ok (user_id, device), later) =
        sym result ∙ rw e at r in
      let user : u ≡ user_id = ground arith in
      let (named, c) = checked (ap is_positive user ∙ z) in (sym user ∙ named, ground arith, c)

  -- A target that can be read always gives a session of its device, whatever Redis answers; it is
  -- anonymous, or for the user that the target names.
  pub upgrade_opens :
      (target : Text) (h : History) (p : Params)
      → parse_target target ≡ ok p
      → (user_id : ℤ) × (later : History) × (upgrade sv target h ≡ (ok (user_id, p.device), later))
        × ((user_id ≡ pos 0) ⊎ (user_id ≡ p.user_id))
  unfolding upgrade check_token
  upgrade_opens target h p e = elim (Bool-cases (is_positive p.user_id && not (is_empty p.token))) [
    | inr n ↦ (pos 0, h, rw (e, n) refl, inl refl)
    | inl n ↦
        let a = hget-Adds (session_key p.user_id) p.device h in
        elim (Bool-cases (text_eq a.value p.token)) [
          | inl t ↦ (p.user_id, a.new ++ h, rw (e, n, a.result, t) refl, inr refl)
          | inr t ↦ (pos 0, a.new ++ h, rw (e, n, a.result, t) refl, inl refl)
        ]
  ]
