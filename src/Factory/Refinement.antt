-- ===== src/Factory/Refinement.antt =====
-- The runtime of _factory.py implements a state machine with three phases.
use meridian_ociadapter.Prelude.{◌≡◌, Bool, true, false, List}
use meridian_ociadapter.Effect.{M, pure, ◌>>◌}
use meridian_ociadapter.Effect.Outcomes.{Ends, Ends-bind, Ends-pure, Ends-after, Ends-weaken}
use meridian_ociadapter.Adapter.{Operation}
use meridian_ociadapter.Factory.{
  PhysicalResource, RuntimeHost, RuntimeConfig, Runtime, close_runtime, open_runtime, runtime_probe,
  verify_physical, open_session, session_execute, session_begin,
}
use meridian_ociadapter.Factory.Phases.{Phase, closed, open_, verified, live, Stands}
use meridian_ociadapter.Factory.Lifecycle.{
  close_runtime-Ends, open_runtime-closed, open_runtime-live,
}
use meridian_ociadapter.Factory.Laws.{
  runtime_probe-closed, runtime_probe-live, verify_physical-closed, verify_physical-live,
  open_session-Ends, session_execute-closed, session_execute-live, session_begin-closed,
  session_begin-live,
}

-- The calls of a runtime and of a session, which is given by whether it is closed.
pub data RuntimeCall : Type 0 where
  opening closing probing : RuntimeCall
  verifying : List PhysicalResource → RuntimeCall
  opening_session : Bool → RuntimeCall
  executing : Bool → Operation → RuntimeCall
  beginning : Bool → RuntimeCall

-- The state machine: what a call does in a phase, whether it returns, and the phase after it.
pub data Move : RuntimeCall → Phase → Bool → Phase → Type 0 where
  opens : Move opening closed true open_
  fails_to_open : Move opening closed false closed
  stays_open : (v : Bool) → Move opening (live v) true (live v)
  closes : (p : Phase) (returned : Bool) → Move closing p returned closed
  verifies : (rs : List PhysicalResource) (v : Bool) → Move (verifying rs) (live v) true verified
  fails_to_verify :
      (rs : List PhysicalResource) (v : Bool) → Move (verifying rs) (live v) false open_
  session_opens : (t : Bool) → Move (opening_session t) verified true verified
  probes : (v : Bool) → Move probing (live v) true (live v)
  executes : (b : Bool) (o : Operation) (v : Bool) → Move (executing b o) (live v) true (live v)
  cannot_verify : (rs : List PhysicalResource) → Move (verifying rs) closed false closed
  no_session : (t : Bool) (p : Phase) → Move (opening_session t) p false p
  no_probe : (p : Phase) → Move probing p false p
  not_executed : (b : Bool) (o : Operation) (p : Phase) → Move (executing b o) p false p
  not_begun : (b : Bool) (p : Phase) → Move (beginning b) p false p

module _ {W : Type 0} where
  -- The attributes after a call are those of the phase that the machine moves to.
  abbrev pub Moved : RuntimeCall → Phase → Bool → Runtime W → Type 0
  Moved c p returned s = (q : Phase) × Stands q s × Move c p returned q

module _ {W : Type 0} (config : RuntimeConfig) (host : RuntimeHost W) where
  -- The call of the code; what it returns is left out.
  abbrev pub call : RuntimeCall → M (W × Runtime W) (Unit {0})
  call opening = open_runtime config host
  call closing = close_runtime config host
  call probing = do runtime_probe config host; pure tt
  call (verifying rs) = do verify_physical config host rs; pure tt
  call (opening_session t) = do open_session config host t; pure tt
  call (executing b o) = do session_execute config host b o; pure tt
  call (beginning b) = session_begin config host b

  ends :
      {A : Type 0} (m : M (W × Runtime W) A) (P E : Runtime W → Type 0) (Q : A → Runtime W → Type 0)
      (R : Runtime W → Type 0)
      → Ends P m Q E
      → ((a : A) (s : Runtime W) → Q a s → R s)
      → Ends P (do m; pure tt) (λ _. R) E
  ends m P E Q R h k = Ends-bind m _ (λ _. R) (Ends-after k (λ _ e. e) h) λ _. Ends-pure tt λ s r. r

  in_phase :
      {c : RuntimeCall} {p : Phase} {b : Bool} (q : Phase)
      → Move c p b q
      → (s : Runtime W) → Stands q s
      → Moved c p b s
  in_phase q m s h = (q, h, m)

  -- In every phase, each call of the runtime and of its sessions, whether it returns or raises, moves to
  -- a phase as the state machine does: an open that fails and every close leave it closed, a
  -- verification makes it verified or, where it raises, no longer verified, and a session opens only
  -- where it is verified.
  pub call-Moved :
      (c : RuntimeCall) (p : Phase)
      → Ends (Stands p) (call c) (λ _. Moved c p true) (Moved c p false)
  call-Moved opening closed =
      Ends-after (λ _. in_phase open_ opens) (in_phase closed fails_to_open)
        (open_runtime-closed config host)
  call-Moved opening open_ =
      Ends-after (λ _. in_phase open_ (stays_open false)) (λ s h. absurd h)
        (open_runtime-live config host false)
  call-Moved opening verified =
      Ends-after (λ _. in_phase verified (stays_open true)) (λ s h. absurd h)
        (open_runtime-live config host true)
  call-Moved closing p =
      Ends-after (λ _. in_phase closed (closes p true)) (in_phase closed (closes p false))
        (Ends-weaken (λ _. Unit) (λ _ _. tt) (close_runtime-Ends config host))
  call-Moved probing closed =
      Ends-after (λ _ s h. absurd h) (in_phase closed (no_probe closed))
        (ends _ _ _ (λ _ _. ⊥) (λ _. ⊥) (runtime_probe-closed config host) λ _ s h. h)
  call-Moved probing open_ =
      Ends-after (λ _. in_phase open_ (probes false)) (in_phase open_ (no_probe open_))
        (ends _ _ _ (λ _. Stands open_) (Stands open_) (runtime_probe-live config host false)
          λ _ s h. h)
  call-Moved probing verified =
      Ends-after (λ _. in_phase verified (probes true)) (in_phase verified (no_probe verified))
        (ends _ _ _ (λ _. Stands verified) (Stands verified) (runtime_probe-live config host true)
          λ _ s h. h)
  call-Moved (verifying rs) closed =
      Ends-after (λ _ s h. absurd h) (in_phase closed (cannot_verify rs))
        (ends _ _ _ (λ _ _. ⊥) (λ _. ⊥) (verify_physical-closed config host rs) λ _ s h. h)
  call-Moved (verifying rs) open_ =
      Ends-after (λ _. in_phase verified (verifies rs false))
        (in_phase open_ (fails_to_verify rs false))
        (ends _ _ _ (λ _. Stands verified) (Stands verified)
          (verify_physical-live config host rs false) λ _ s h. h)
  call-Moved (verifying rs) verified =
      Ends-after (λ _. in_phase verified (verifies rs true))
        (in_phase open_ (fails_to_verify rs true))
        (ends _ _ _ (λ _. Stands verified) (Stands verified)
          (verify_physical-live config host rs true) λ _ s h. h)
  call-Moved (executing b o) closed =
      Ends-after (λ _ s h. absurd h) (in_phase closed (not_executed b o closed))
        (ends _ _ _ (λ _ _. ⊥) (λ _. ⊥) (session_execute-closed config host b o) λ _ s h. h)
  call-Moved (executing b o) open_ =
      Ends-after (λ _. in_phase open_ (executes b o false))
        (in_phase open_ (not_executed b o open_))
        (ends _ _ _ (λ _. Stands open_) (Stands open_) (session_execute-live config host b false o)
          λ _ s h. h)
  call-Moved (executing b o) verified =
      Ends-after (λ _. in_phase verified (executes b o true))
        (in_phase verified (not_executed b o verified))
        (ends _ _ _ (λ _. Stands verified) (Stands verified)
          (session_execute-live config host b true o) λ _ s h. h)
  call-Moved (beginning b) closed =
      Ends-after (λ _ s h. absurd h) (in_phase closed (not_begun b closed))
        (session_begin-closed config host b)
  call-Moved (beginning b) open_ =
      Ends-after (λ _ s h. absurd h) (in_phase open_ (not_begun b open_))
        (session_begin-live config host b false)
  call-Moved (beginning b) verified =
      Ends-after (λ _ s h. absurd h) (in_phase verified (not_begun b verified))
        (session_begin-live config host b true)
  call-Moved (opening_session t) closed =
      Ends-after (λ _ s h. absurd h) (in_phase closed (no_session t closed))
        (ends _ _ _ (λ _ s. (closed ≡ verified) × Stands closed s) (λ _. ⊥)
          (open_session-Ends config host t closed)
          λ _ s (e, h). (let no : closed ≡ verified = e in cc))
  call-Moved (opening_session t) open_ =
      Ends-after (λ _ s h. absurd h) (in_phase open_ (no_session t open_))
        (ends _ _ _ (λ _ s. (open_ ≡ verified) × Stands open_ s) (λ _. ⊥)
          (open_session-Ends config host t open_)
          λ _ s (e, h). (let no : open_ ≡ verified = e in cc))
  call-Moved (opening_session t) verified =
      Ends-after (λ _. in_phase verified (session_opens t))
        (in_phase verified (no_session t verified))
        (ends _ _ _ (λ _ s. (verified ≡ verified) × Stands verified s) (Stands verified)
          (open_session-Ends config host t verified) λ _ s (e, h). h)
