-- ===== src/Multipart/Calls.antt =====
-- On `abort_multipart` and `_state` of multipart/__init__.py, which the other calls use.
use mathlib.Core.Path.{subst}
use meridian_ociadapter.Prelude.{
  ◌≡◌, sym, ap, ◌∙◌, Option, none, some, if_cases, Bool-cases, inl, inr,
}
use meridian_ociadapter.Effect.{multipart_invalid, ok, err}
use meridian_ociadapter.Effect.Locals.{
  Triple, Triple-locals, Triple-lift, Kept, Kept-pure, Kept-lift, Kept-on_world, Kept-then,
  Kept-locals, Kept-assign,
}
use meridian_ociadapter.Effect.Rules.{ok-injective}
use meridian_ociadapter.Adapter.{OciDistributionAdapter, object_reference_for_operation}
use meridian_ociadapter.Multipart.{
  state_in, same_reference, abort_state, is_uploading, MultipartHost, MultipartSession,
  MultipartState, Sessions, find, pop_session, state_of, abort_multipart,
}

module _ {W : Type 0} (self : OciDistributionAdapter W) (host : MultipartHost W)
    (session : MultipartSession) (I : Sessions → Type 0) where
  abort_state-Kept : (s : Option MultipartState) → Kept I (abort_state self host s) I
  abort_state-Kept none = Kept-pure (λ ss i. i) tt
  abort_state-Kept (some s) = Kept-then _ _ (Kept-on_world (λ ss i. i) _) λ _.
      if_cases (λ m. Kept I m I) (is_uploading s.machine) _ _
        (λ _. Kept-then _ _ (Kept-lift (λ ss i. i) _) λ _. Kept-pure (λ ss i. i) tt)
        (λ _. Kept-pure (λ ss i. i) tt)

  -- After an abort, whether it returns or raises, the session is gone and the others are as they were.
  pub abort_multipart-Kept :
      Kept (λ ss. I (pop_session session.session_id ss)) (abort_multipart self host session) I
  unfolding abort_multipart
  abort_multipart-Kept = Kept-locals _ λ ss i.
      Kept-assign _ _ I (λ x e. subst (λ y. I (pop_session session.session_id y)) (sym e) i)
        (abort_state-Kept (find session.session_id ss))

module _ {W : Type 0} (self : OciDistributionAdapter W) (host : MultipartHost W)
    (session : MultipartSession) where
  pub state_in-found :
      (o : Option MultipartState) (s : MultipartState)
      → state_in self host session o ≡ ok s
      → o ≡ some s
  state_in-found none s e = cc
  state_in-found (some t) s e =
      elim (Bool-cases
        (same_reference session.object_ref (object_reference_for_operation self t.operation))) [
          | inl q ↦ let e' : ok t ≡ ok s = rw q at e in ap some (ok-injective e')
          | inr q ↦ let e' : err multipart_invalid ≡ ok s = rw q at e in cc
        ]

module _ {W : Type 0} (self : OciDistributionAdapter W) (host : MultipartHost W)
    (session : MultipartSession) (P : Sessions → Type 0) where
  -- What a call that found a session knows of it.
  pub state_of-Triple :
      Triple {W = W} P
        (state_of self host session)
        (λ s ss. (find session.session_id ss ≡ some s) × P ss)
  unfolding state_of
  state_of-Triple = Triple-locals _ λ ss p. Triple-lift _ λ s e x q. (
    ap (find session.session_id) q
        ∙ state_in-found self host session (find session.session_id ss) s e,
    subst P (sym q) p,
  )

  pub state_of-Kept : Kept {W = W} P (state_of self host session) P
  unfolding state_of
  state_of-Kept = Kept-locals _ λ ss p. Kept-lift (λ x q. subst P (sym q) p) _
