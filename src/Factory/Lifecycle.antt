-- ===== src/Factory/Lifecycle.antt =====
-- On `open` and `close` of the runtime of _factory.py.
use mathlib.Core.Path.{subst}
use meridian_ociadapter.Prelude.{◌≡◌, refl, sym, Bool, false, String, Option, none, some}
use meridian_ociadapter.Effect.{Result, ok, err, M, lift, ◌>>◌}
use meridian_ociadapter.Effect.Outcomes.{
  Post, Ends, Ends-bind, Ends-world, Ends-pure, Ends-raise, Ends-guard, Ends-locals, Ends-assign,
  Ends-try, Ends-weaken, Ends-lift, Ends-on_world, Ends-assign_last,
}
use meridian_ociadapter.Hashing.{Bytes}
use meridian_ociadapter.Adapter.{OciDistributionAdapter}
use meridian_ociadapter.Factory.{
  RuntimeHost, RuntimeConfig, Runtime, finally, release_ca, release_adapter, close_runtime,
  prepare_ca, open_body, open_with, open_runtime,
}
use meridian_ociadapter.Factory.Phases.{closed, open_, live, Stands, live-Parts, closed-Parts}

module _ {W : Type 0} (config : RuntimeConfig) (host : RuntimeHost W) where
  pub release_ca-Ends :
      (d : Option String)
      → Ends (Stands closed) (release_ca config host d) (λ _. Stands closed) (Stands closed)
  release_ca-Ends none = Ends-pure tt λ s h. h
  release_ca-Ends (some d) =
      Ends-world _ _ (λ s h. h) λ _. Ends-assign_last _ (Stands closed) λ s h. h

  finally-Post :
      {A : Type 0} (k : M (W × Runtime W) (Unit {0}))
      → Ends (Stands closed) k (λ _. Stands closed) (Stands closed)
      → (r : Result A × (W × Runtime W)) → Post (λ _. Stands closed) (Stands closed) r
      → Post (λ _. Stands closed) (Stands closed) ((k >> lift r.0) r.1)
  finally-Post k hk (ok a, (w, s)) q =
      Ends.at
        (Ends-bind k _ (λ _. Stands closed) hk λ _. Ends-lift (ok a) (λ _ _ _ h. h) (λ _ _ _ h. h))
        w s q
  finally-Post k hk (err e, (w, s)) q =
      Ends.at
        (Ends-bind k _ (λ _. Stands closed) hk λ _. Ends-lift (err e) (λ _ _ _ h. h) (λ _ _ _ h. h))
        w s q

  pub finally-Ends :
      {A : Type 0} (m : M (W × Runtime W) A) (k : M (W × Runtime W) (Unit {0}))
      (P : Runtime W → Type 0)
      → Ends P m (λ _. Stands closed) (Stands closed)
      → Ends (Stands closed) k (λ _. Stands closed) (Stands closed)
      → Ends P (finally m k) (λ _. Stands closed) (Stands closed)
  finally-Ends m k P hm hk = record { at = λ w s p. finally-Post k hk (m (w, s)) (hm.at w s p) }

  pub release_adapter-Ends :
      (a : Option (OciDistributionAdapter W))
      → Ends (Stands closed) (release_adapter config host a) (λ _. Stands closed) (Stands closed)
  release_adapter-Ends none = Ends-pure tt λ s h. h
  release_adapter-Ends (some a) = Ends-on_world _ λ s h. h

  pub close_runtime-Ends :
      Ends (λ _. Unit) (close_runtime config host) (λ _. Stands closed) (Stands closed)
  unfolding close_runtime
  close_runtime-Ends = Ends-locals _ λ s _.
      Ends-assign _ _ (λ x. x.adapter ≡ none) (λ x _. refl)
        (Ends-assign _ _ (λ x. (x.adapter ≡ none) × (x.probe ≡ none)) (λ x h. (h, refl))
          (Ends-assign _ _ (Stands closed) (λ x (h, k). rw (h, k) tt)
            (finally-Ends _ _ (Stands closed) (release_adapter-Ends s.adapter) (
              Ends-locals _ λ t h.
                Ends-weaken (Stands closed) (λ x e. subst (Stands closed) (sym e) h)
                  (release_ca-Ends t.ca_directory)))))

  pub prepare_ca-Ends :
      (ca : Option Bytes)
      → Ends (Stands closed) (prepare_ca config host ca) (λ _. Stands closed) (λ _. Unit)
  prepare_ca-Ends none = Ends-pure none λ s h. h
  prepare_ca-Ends (some ca) =
      Ends-world _ _ (λ _ _. tt)
        λ d.
          Ends-assign _ _ (Stands closed) (λ s h. h)
            (Ends-world _ _ (λ _ _. tt) λ _. Ends-world _ _ (λ _ _. tt) λ _. Ends-pure _ λ s h. h)

  pub open_body-Ends : Ends (Stands closed) (open_body config host) (λ _. Stands open_) (λ _. Unit)
  unfolding open_body
  open_body-Ends =
      Ends-bind _ _ (λ _. Stands closed) (prepare_ca-Ends config.tls_ca)
        λ path.
          Ends-world _ _ (λ _ _. tt)
            λ adapter.
              Ends-assign _ _ (λ s. (s.adapter ≡ some adapter) × (s.verified ≡ false))
                (λ s h. (refl, (closed-Parts s.adapter s.probe s.verified h).2))
                (Ends-world _ _ (λ _ _. tt)
                  λ report.
                    Ends-guard _ _ _ (λ _ _. tt)
                      λ _. Ends-assign_last _ (Stands open_) λ s (p, q). rw (p, q) tt)

  pub open_with-closed :
      (a : Option (OciDistributionAdapter W))
      → a ≡ none
      → Ends (Stands closed) (open_with config host a) (λ _. Stands open_) (Stands closed)
  open_with-closed none e =
      Ends-try _ _ (λ _. Unit) open_body-Ends
        λ x. Ends-bind _ _ (λ _. Stands closed) close_runtime-Ends λ _. Ends-raise x λ s h. h
  open_with-closed (some a) e = cc

  pub open_with-live :
      (a : Option (OciDistributionAdapter W)) (b : OciDistributionAdapter W)
      (P : Runtime W → Type 0)
      → a ≡ some b
      → Ends P (open_with config host a) (λ _. P) (λ _. ⊥)
  open_with-live none b P e = cc
  open_with-live (some a) b P e = Ends-pure tt λ s h. h

  pub open_runtime-closed :
      Ends (Stands closed) (open_runtime config host) (λ _. Stands open_) (Stands closed)
  unfolding open_runtime
  open_runtime-closed = Ends-locals _ λ s h.
      Ends-weaken (Stands closed) (λ x e. subst (Stands closed) (sym e) h)
        (open_with-closed s.adapter (closed-Parts s.adapter s.probe s.verified h).0)

  pub open_runtime-live :
      (v : Bool) → Ends (Stands (live v)) (open_runtime config host) (λ _. Stands (live v)) (λ _. ⊥)
  unfolding open_runtime
  open_runtime-live v = Ends-locals _ λ s h.
      let (b, q, e, f, g) = live-Parts s.adapter s.probe s.verified v h in
      Ends-weaken (Stands (live v)) (λ x i. subst (Stands (live v)) (sym i) h)
        (open_with-live s.adapter b (Stands (live v)) e)
