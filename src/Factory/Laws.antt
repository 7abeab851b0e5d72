-- ===== src/Factory/Laws.antt =====
-- On the calls of a runtime and of its sessions in _factory.py, in each phase.
use mathlib.Core.Path.{subst}
use meridian_ociadapter.Prelude.{◌≡◌, refl, sym, Bool, true, false, not, List}
use meridian_ociadapter.Effect.{ok, err, object_invalid_request}
use meridian_ociadapter.Effect.Outcomes.{
  Ends, Ends-bind, Ends-lifted, Ends-world, Ends-pure, Ends-raise, Ends-guard, Ends-locals,
  Ends-assign, Ends-lift, Ends-after,
}
use meridian_ociadapter.Adapter.{Operation}
use meridian_ociadapter.Factory.{
  PhysicalResource, RuntimeHost, RuntimeConfig, require_open, runtime_probe, verify_physical,
  open_session, session_require_open, session_execute, session_begin,
}
use meridian_ociadapter.Factory.Phases.{
  Phase, closed, open_, verified, live, Stands, live-Parts, closed-Parts,
}

module _ {W : Type 0} (config : RuntimeConfig) (host : RuntimeHost W) where
  pub require_open-closed :
      Ends (Stands closed) (require_open config host) (λ _ _. ⊥) (Stands closed)
  unfolding require_open
  require_open-closed = Ends-locals _ λ s h.
      let (e, f, g) = closed-Parts s.adapter s.probe s.verified h in
      Ends-lift _ (λ _ _ x i. subst (Stands closed) (sym i) h)
        λ b i _ _. (let j : err object_invalid_request ≡ ok b = rw e at i in cc)

  pub require_open-live :
      (v : Bool) → Ends (Stands (live v)) (require_open config host) (λ _. Stands (live v)) (λ _. ⊥)
  unfolding require_open
  require_open-live v = Ends-locals _ λ s h.
      let (b, q, e, f, g) = live-Parts s.adapter s.probe s.verified v h in
      Ends-lift _ (λ x i _ _. (let j : ok b ≡ err x = rw (e, f) at i in cc))
        (λ _ _ x i. subst (Stands (live v)) (sym i) h)

  pub runtime_probe-closed :
      Ends (Stands closed) (runtime_probe config host) (λ _ _. ⊥) (Stands closed)
  unfolding runtime_probe
  runtime_probe-closed =
      Ends-bind _ _ (λ _ _. ⊥) require_open-closed λ a. record { at = λ w s h. absurd h }

  pub runtime_probe-live :
      (v : Bool)
      → Ends (Stands (live v)) (runtime_probe config host) (λ _. Stands (live v)) (Stands (live v))
  unfolding runtime_probe
  runtime_probe-live v =
      Ends-bind _ _ (λ _. Stands (live v))
        (Ends-after (λ _ _ h. h) (λ _ h. absurd h) (require_open-live v))
        λ _. Ends-locals _ λ s h.
          Ends-lift _ (λ _ _ x i. subst (Stands (live v)) (sym i) h)
            (λ _ _ x i. subst (Stands (live v)) (sym i) h)

  pub verify_physical-closed :
      (rs : List PhysicalResource)
      → Ends (Stands closed) (verify_physical config host rs) (λ _ _. ⊥) (Stands closed)
  unfolding verify_physical
  verify_physical-closed rs =
      Ends-bind _ _ (λ _ _. ⊥) require_open-closed λ a. record { at = λ w s h. absurd h }

  pub verify_physical-live :
      (rs : List PhysicalResource) (v : Bool)
      → Ends
          (Stands (live v))
          (verify_physical config host rs)
          (λ _. Stands verified)
          (Stands open_)
  unfolding verify_physical
  verify_physical-live rs v =
      Ends-bind _ _ (λ _. Stands (live v))
        (Ends-after (λ _ _ h. h) (λ _ h. absurd h) (require_open-live v))
        λ adapter.
          Ends-assign _ _ (Stands open_)
            (λ s h.
              let (b, q, e, f, g) = live-Parts s.adapter s.probe s.verified v h in rw (e, f) tt)
            (Ends-lifted _ _ (λ s h. h)
              λ resource _.
                Ends-world _ _ (λ s h. h)
                  λ _.
                    Ends-world _ _ (λ s h. h)
                      λ _.
                        Ends-assign _ _ (Stands verified)
                          (λ s h.
                            let (b, q, e, f, g) = live-Parts s.adapter s.probe s.verified false h in
                            rw (e, f) tt)
                          (Ends-pure _ λ s h. h))

  -- A session opens in the verified phase only.
  pub open_session-Ends :
      (t : Bool) (p : Phase)
      → Ends (Stands p) (open_session config host t) (λ _ s. (p ≡ verified) × Stands p s) (Stands p)
  unfolding open_session
  open_session-Ends t closed =
      Ends-bind _ _ (λ _ _. ⊥) require_open-closed λ a. record { at = λ w s h. absurd h }
  open_session-Ends t open_ =
      Ends-bind _ _ (λ _. Stands open_)
        (Ends-after (λ _ _ h. h) (λ _ h. absurd h) (require_open-live false))
        λ _.
          Ends-guard _ _ _ (λ s h. h)
            λ _. Ends-locals _ λ s h.
              Ends-guard _ _ _ (λ x i. subst (Stands open_) (sym i) h)
                λ n.
                  (let (b, q, e, f, g) = live-Parts s.adapter s.probe s.verified false h in
                    (let yes : not s.verified ≡ true = rw g refl in cc))
  open_session-Ends t verified =
      Ends-bind _ _ (λ _. Stands verified)
        (Ends-after (λ _ _ h. h) (λ _ h. absurd h) (require_open-live true))
        λ _.
          Ends-guard _ _ _ (λ s h. h)
            λ _. Ends-locals _ λ s h.
              Ends-guard _ _ _ (λ x i. subst (Stands verified) (sym i) h)
                λ _. Ends-pure _ λ x i. (refl, subst (Stands verified) (sym i) h)

  pub session_require_open-closed :
      (b : Bool)
      → Ends (Stands closed) (session_require_open config host b) (λ _ _. ⊥) (Stands closed)
  unfolding session_require_open
  session_require_open-closed b = Ends-guard _ _ _ (λ s h. h) λ _. require_open-closed

  pub session_require_open-live :
      (b v : Bool)
      → Ends
          (Stands (live v))
          (session_require_open config host b)
          (λ _. Stands (live v))
          (Stands (live v))
  unfolding session_require_open
  session_require_open-live b v =
      Ends-guard _ _ _ (λ s h. h)
        λ _. Ends-after (λ _ _ h. h) (λ _ h. absurd h) (require_open-live v)

  pub session_execute-closed :
      (b : Bool) (o : Operation)
      → Ends (Stands closed) (session_execute config host b o) (λ _ _. ⊥) (Stands closed)
  unfolding session_execute
  session_execute-closed b o =
      Ends-bind _ _ (λ _ _. ⊥) (session_require_open-closed b)
        λ a. record { at = λ w s h. absurd h }

  pub session_execute-live :
      (b v : Bool) (o : Operation)
      → Ends
          (Stands (live v))
          (session_execute config host b o)
          (λ _. Stands (live v))
          (Stands (live v))
  unfolding session_execute
  session_execute-live b v o =
      Ends-bind _ _ (λ _. Stands (live v)) (session_require_open-live b v)
        λ a.
          Ends-world _ _ (λ s h. h)
            λ answer.
              Ends-bind _ _ (λ _. Stands (live v)) (runtime_probe-live v) λ p. Ends-pure _ λ s h. h

  pub session_begin-closed :
      (b : Bool) → Ends (Stands closed) (session_begin config host b) (λ _ _. ⊥) (Stands closed)
  unfolding session_begin
  session_begin-closed b =
      Ends-bind _ _ (λ _ _. ⊥) (session_require_open-closed b)
        λ a. record { at = λ w s h. absurd h }

  pub session_begin-live :
      (b v : Bool)
      → Ends (Stands (live v)) (session_begin config host b) (λ _ _. ⊥) (Stands (live v))
  unfolding session_begin
  session_begin-live b v =
      Ends-bind _ _ (λ _. Stands (live v)) (session_require_open-live b v)
        λ a. Ends-raise _ λ s h. h
