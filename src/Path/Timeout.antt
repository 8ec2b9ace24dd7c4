-- ===== src/Path/Timeout.antt =====
-- The timer of path validation: what expires, and when validation fails.
use raw_quic.Prelude.{
  Bool, Bool-cases, List, [], arith, drop, false, if◌then◌else◌, inl, inr, ltb, ltb→lt, lt→ltb,
  refl, suc, true, ℕ, ◌+◌, ◌<◌, ◌||◌, ◌∙◌, ◌∷◌, ◌≡◌,
}
use raw_quic.Path.{
  failed, Challenge, PathData, expire, fail, max_probing_timeouts, initiate_path_chal,
  on_path_chal_timeout, is_probing,
}

-- The challenges at the front whose time has come.
unfoldable pub expired : ℕ → List Challenge → ℕ
expired now [] = 0
expired now (c ∷ cs) = if ltb now c.loss_time then 0 else suc (expired now cs)

-- The path when `n` challenges at the front are lost.
pub after_losses : ℕ → PathData → PathData
after_losses n p =
    if ltb (p.lost_chal + n) max_probing_timeouts
    then record p {
      lost_chal = p.lost_chal + n;
      sent_chals = drop n p.sent_chals;
      need_send_challenge = p.need_send_challenge || ltb 0 n;
    }
    else record p {
      state = failed;
      active = false;
      sent_chals = [];
      lost_chal = max_probing_timeouts;
      need_send_challenge = p.need_send_challenge || ltb (p.lost_chal + 1) max_probing_timeouts;
    }

or-true : (b : Bool) → (b || true) ≡ true
or-true true = refl
or-true false = refl

or-false : (b : Bool) → (b || false) ≡ b
or-false true = refl
or-false false = refl

no_loss : (p : PathData) → p.lost_chal < max_probing_timeouts → p ≡ after_losses 0 p
unfolding after_losses
no_loss p h =
    let e : p.lost_chal + 0 ≡ p.lost_chal = omega arith in simp (e, lt→ltb _ _ h, or-false) refl

last_loss :
    (n : ℕ) (c : Challenge) (cs : List Challenge) (p : PathData)
    → p.lost_chal < max_probing_timeouts
    → ltb (p.lost_chal + 1) max_probing_timeouts ≡ false
    → fail (record p { sent_chals = cs; lost_chal = p.lost_chal + 1 })
      ≡ after_losses (suc n) (record p { sent_chals = c ∷ cs })
unfolding after_losses fail
last_loss n c cs p h b =
    let e : p.lost_chal + 1 ≡ 8 = ground (arith, b, h) in
    let d : ltb (p.lost_chal + suc n) max_probing_timeouts ≡ false = ground (arith, e) in
    ground (arith, e, d, b, or-false p.need_send_challenge)

-- One loss, and then `n` more.
one_more :
    (n : ℕ) (c : Challenge) (cs : List Challenge) (p : PathData)
    → ltb (p.lost_chal + 1) max_probing_timeouts ≡ true
    → after_losses n
        (initiate_path_chal (record p { sent_chals = cs; lost_chal = p.lost_chal + 1 }))
      ≡ after_losses (suc n) (record p { sent_chals = c ∷ cs })
unfolding after_losses initiate_path_chal
one_more n c cs p b =
    let e : p.lost_chal + 1 + n ≡ p.lost_chal + suc n = omega arith in
    elim (Bool-cases (ltb (p.lost_chal + suc n) max_probing_timeouts)) [
      | inl d ↦ ground (arith, e, d, or-true p.need_send_challenge)
      | inr d ↦ ground (arith, e, d, b, or-true p.need_send_challenge)
    ]

expire_lem :
    (now : ℕ) (cs : List Challenge) (p : PathData)
    → p.lost_chal < max_probing_timeouts
    → expire now cs p ≡ after_losses (expired now cs) (record p { sent_chals = cs })
unfolding expire expired
expire_lem now [] p h = no_loss (record p { sent_chals = [] }) h
expire_lem now (c ∷ cs) p h = elim (Bool-cases (ltb now c.loss_time)) [
  | inl a ↦ rw a (no_loss (record p { sent_chals = c ∷ cs }) h)
  | inr a ↦ elim (Bool-cases (ltb (p.lost_chal + 1) max_probing_timeouts)) [
    | inl b ↦
        let q = initiate_path_chal (record p { sent_chals = cs; lost_chal = p.lost_chal + 1 }) in
        rw (a, b) (expire_lem now cs q (again c cs p b) ∙ one_more (expired now cs) c cs p b)
    | inr b ↦ rw (a, b) (last_loss (expired now cs) c cs p h b)
  ]
]
  where
    again :
        (c : Challenge) (cs : List Challenge) (p : PathData)
        → ltb (p.lost_chal + 1) max_probing_timeouts ≡ true
        → (initiate_path_chal (record p { sent_chals = cs; lost_chal = p.lost_chal + 1 })).lost_chal
          < max_probing_timeouts
    again c cs p b = unfold initiate_path_chal in ltb→lt _ _ b

-- The timer of a path that is being validated, with fewer than 8 challenges lost so far: each challenge at
-- the front whose time has come is lost. If that makes fewer than 8, these are removed and counted, and
-- if there was one a new challenge is to be sent. Otherwise validation has failed with 8 lost: the path
-- is inactive and waits for no challenge, and if fewer than 7 were lost before, a new challenge is still
-- marked to be sent. Nothing else changes.
pub on_path_chal_timeout_lem :
    (now : ℕ) (p : PathData)
    → is_probing p.state ≡ true
    → p.lost_chal < max_probing_timeouts
    → on_path_chal_timeout now p ≡ after_losses (expired now p.sent_chals) p
unfolding on_path_chal_timeout
on_path_chal_timeout_lem now p s h = simp s (expire_lem now p.sent_chals p h)
